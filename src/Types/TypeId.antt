-- ===== src/Types/TypeId.antt =====
-- include/litequery/types.h, TypeId: the discriminator of the types, and the promotion rules.
use lite_query.Prelude.{ℕ, Bool, ◌&&◌, ◌||◌, ltb, leb, ◌==◌, if◌then◌else◌, Bytes, codes}

-- `unnamed n` is a uint8_t value n (14 or more) with no enumerator: a cast can make one.
pub data TypeId : Type 0 where
  invalid boolean int8 int16 int32 int64 float32 float64 : TypeId
  varchar blob date timestamp interval decimal : TypeId
  unnamed : ℕ → TypeId

-- The underlying value of the enumerator.
unfoldable pub type_code : TypeId → ℕ
type_code invalid = 0
type_code boolean = 1
type_code int8 = 2
type_code int16 = 3
type_code int32 = 4
type_code int64 = 5
type_code float32 = 6
type_code float64 = 7
type_code varchar = 8
type_code blob = 9
type_code date = 10
type_code timestamp = 11
type_code interval = 12
type_code decimal = 13
type_code (unnamed n) = n

-- operator== of the enumeration
unfoldable pub type_id_eq : TypeId → TypeId → Bool
unfolding type_code
type_id_eq a b = type_code a == type_code b

unfoldable pub type_id_name : TypeId → Bytes
type_id_name invalid = codes "INVALID"
type_id_name boolean = codes "BOOLEAN"
type_id_name int8 = codes "INT8"
type_id_name int16 = codes "INT16"
type_id_name int32 = codes "INT32"
type_id_name int64 = codes "INT64"
type_id_name float32 = codes "FLOAT32"
type_id_name float64 = codes "FLOAT64"
type_id_name varchar = codes "VARCHAR"
type_id_name blob = codes "BLOB"
type_id_name date = codes "DATE"
type_id_name timestamp = codes "TIMESTAMP"
type_id_name interval = codes "INTERVAL"
type_id_name decimal = codes "DECIMAL"
type_id_name (unnamed n) = codes "UNKNOWN"

unfoldable pub type_id_width : TypeId → ℕ
type_id_width boolean = 1
type_id_width int8 = 1
type_id_width int16 = 2
type_id_width int32 = 4
type_id_width int64 = 8
type_id_width float32 = 4
type_id_width float64 = 8
type_id_width date = 4
type_id_width timestamp = 8
type_id_width interval = 8
type_id_width decimal = 8
type_id_width _ = 0

unfoldable pub type_is_integer : TypeId → Bool
unfolding type_code
type_is_integer id = leb (type_code int8) (type_code id) && leb (type_code id) (type_code int64)

unfoldable pub type_is_float : TypeId → Bool
unfolding type_id_eq
type_is_float id = type_id_eq id float32 || type_id_eq id float64

unfoldable pub type_is_numeric : TypeId → Bool
unfolding type_is_integer type_is_float type_id_eq
type_is_numeric id = type_is_integer id || type_is_float id || type_id_eq id decimal

unfoldable pub type_is_fixed_width : TypeId → Bool
unfolding type_id_width
type_is_fixed_width id = ltb 0 (type_id_width id)

-- promoteTypes
unfoldable pub promote_types : TypeId → TypeId → TypeId
unfolding type_id_eq type_is_integer type_id_width
promote_types a b =
    if type_id_eq a b
    then a
    else if type_id_eq a invalid
    then b
    else if type_id_eq b invalid
    then a
    else if type_id_eq a float64 || type_id_eq b float64
    then float64
    else if type_id_eq a float32 || type_id_eq b float32
    then float64
    else if type_id_eq a decimal || type_id_eq b decimal
    then decimal
    else if type_is_integer a && type_is_integer b
    then (if leb (type_id_width b) (type_id_width a) then a else b)
    else invalid
