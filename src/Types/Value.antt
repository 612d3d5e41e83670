-- ===== src/Types/Value.antt =====
-- include/litequery/types.h, Value: one scalar of any type, or NULL.
use lite_query.Prelude.{
  List, Bool, true, false, ◌&&◌, not, if◌then◌else◌, Bytes, codes, bytes_eq, bytes_lt,
}
use lite_query.Prelude.Int.{ℤ, pos, eqb_ℤ, ltb_ℤ, to_string_ℤ}
use lite_query.Prelude.Result.{Result, ok, err, runtime_error, bad_variant_access, ◌>>=◌}
use lite_query.Types.Floats.{Floats}
use lite_query.Types.TypeId.{TypeId}

-- The alternatives of ValueVariant.
pub data Value (F : Type 0) : Type 0 where
  null : Value F
  bool : Bool → Value F
  int8 int16 int32 int64 : ℤ → Value F
  float double : F → Value F
  string : Bytes → Value F

module _ {F : Type 0} where
  unfoldable pub is_null : Value F → Bool
  is_null null = true
  is_null _ = false

  unfoldable pub type_id : Value F → TypeId
  type_id null = TypeId.invalid
  type_id (bool b) = TypeId.boolean
  type_id (int8 n) = TypeId.int8
  type_id (int16 n) = TypeId.int16
  type_id (int32 n) = TypeId.int32
  type_id (int64 n) = TypeId.int64
  type_id (float x) = TypeId.float32
  type_id (double x) = TypeId.float64
  type_id (string s) = TypeId.varchar

  unfoldable pub get_bool : Value F → Result Bool
  get_bool (bool b) = ok b
  get_bool _ = err bad_variant_access

  unfoldable pub get_string : Value F → Result Bytes
  get_string (string s) = ok s
  get_string _ = err bad_variant_access

  -- `bool` is an integral type.
  unfoldable pub to_int64 : Value F → Result ℤ
  to_int64 (bool b) = ok (if b then pos 1 else pos 0)
  to_int64 (int8 n) = ok n
  to_int64 (int16 n) = ok n
  to_int64 (int32 n) = ok n
  to_int64 (int64 n) = ok n
  to_int64 _ = err runtime_error

module _ {F : Type 0} ⦃fl : Floats F⦄ where
  unfoldable pub to_double : Value F → Result F
  to_double (bool b) = ok (fl.of_int (if b then pos 1 else pos 0))
  to_double (int8 n) = ok (fl.of_int n)
  to_double (int16 n) = ok (fl.of_int n)
  to_double (int32 n) = ok (fl.of_int n)
  to_double (int64 n) = ok (fl.of_int n)
  to_double (float x) = ok x
  to_double (double x) = ok x
  to_double _ = err runtime_error

  -- operator== of the variant: the same alternative, with equal contents.
  unfoldable pub variant_eq : Value F → Value F → Bool
  unfolding bytes_eq
  variant_eq null null = true
  variant_eq (bool a) (bool b) = if a then b else not b
  variant_eq (int8 a) (int8 b) = eqb_ℤ a b
  variant_eq (int16 a) (int16 b) = eqb_ℤ a b
  variant_eq (int32 a) (int32 b) = eqb_ℤ a b
  variant_eq (int64 a) (int64 b) = eqb_ℤ a b
  variant_eq (float a) (float b) = fl.feq a b
  variant_eq (double a) (double b) = fl.feq a b
  variant_eq (string a) (string b) = bytes_eq a b
  variant_eq _ _ = false

  -- operator== and operator!=: both false if either side is NULL.
  unfoldable pub value_eq : Value F → Value F → Bool
  unfolding variant_eq is_null
  value_eq a b = if is_null a then false else if is_null b then false else variant_eq a b

  unfoldable pub value_ne : Value F → Value F → Bool
  unfolding variant_eq is_null
  value_ne a b = if is_null a then false else if is_null b then false else not (variant_eq a b)

  -- The visitor of operator<: the two alternatives have to be the same.
  unfoldable pub same_type_lt : Value F → Value F → Result Bool
  unfolding bytes_lt
  same_type_lt (bool a) (bool b) = ok (not a && b)
  same_type_lt (int8 a) (int8 b) = ok (ltb_ℤ a b)
  same_type_lt (int16 a) (int16 b) = ok (ltb_ℤ a b)
  same_type_lt (int32 a) (int32 b) = ok (ltb_ℤ a b)
  same_type_lt (int64 a) (int64 b) = ok (ltb_ℤ a b)
  same_type_lt (float a) (float b) = ok (fl.flt a b)
  same_type_lt (double a) (double b) = ok (fl.flt a b)
  same_type_lt (string a) (string b) = ok (bytes_lt a b)
  same_type_lt _ _ = err runtime_error

  -- operator<, and the three operators that are written by it.
  unfoldable pub value_lt : Value F → Value F → Result Bool
  unfolding same_type_lt is_null
  value_lt a b = if is_null a then ok false else if is_null b then ok false else same_type_lt a b

  unfoldable pub value_le : Value F → Value F → Result Bool
  unfolding value_lt
  value_le a b = do c ← value_lt b a; ok (not c)

  unfoldable pub value_gt : Value F → Value F → Result Bool
  unfolding value_lt
  value_gt a b = value_lt b a

  unfoldable pub value_ge : Value F → Value F → Result Bool
  unfolding value_lt
  value_ge a b = do c ← value_lt a b; ok (not c)

  -- NULL is identical to NULL: the equality of GROUP BY and DISTINCT.
  unfoldable pub is_identical_to : Value F → Value F → Bool
  unfolding variant_eq is_null
  is_identical_to a b =
      if is_null a && is_null b
      then true
      else if is_null a
      then false
      else if is_null b
      then false
      else variant_eq a b

  unfoldable pub to_string : Value F → Bytes
  unfolding to_string_ℤ
  to_string null = codes "NULL"
  to_string (bool b) = if b then codes "true" else codes "false"
  to_string (int8 n) = to_string_ℤ n
  to_string (int16 n) = to_string_ℤ n
  to_string (int32 n) = to_string_ℤ n
  to_string (int64 n) = to_string_ℤ n
  to_string (float x) = fl.to_text x
  to_string (double x) = fl.to_text x
  to_string (string s) = s

-- using Row = std::vector<Value>
abbrev pub Row : Type 0 → Type 0
Row F = List (Value F)
