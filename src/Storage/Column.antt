-- ===== src/Storage/Column.antt =====
-- src/storage/column.h, Column: the values of one column in a typed buffer, with their validity bits.
pub mod Contents
use lite_query.Prelude.{
  ℕ, ◌+◌, Bool, true, false, not, ◌==◌, if◌then◌else◌, Bytes, List, [], ◌∷◌, ◌++◌, get_elem?,
  Option, none, some,
}
use lite_query.Prelude.Int.{ℤ, pos, pos_part, neg_part, eqb_ℤ, to_signed, to_unsigned}
use lite_query.Prelude.Result.{Result, ok, err, undefined, ◌>>=◌}
use lite_query.Types.Floats.{Floats}
use lite_query.Types.TypeId.{TypeId, type_is_float}
use lite_query.Types.DataType.{DataType}
use lite_query.Types.Value.{
  Value, null, bool, int8, int16, int32, is_null, type_id, get_string, to_int64, to_double,
  to_string,
}
use lite_query.Storage.Bitmap.{ValidityBitmap, empty_bitmap, push, is_valid}

pub data Kind : Type 0 where
  int64 double string : Kind

unfoldable pub kind_of : TypeId → Kind
kind_of TypeId.float32 = Kind.double
kind_of TypeId.float64 = Kind.double
kind_of TypeId.varchar = Kind.string
kind_of TypeId.blob = Kind.string
kind_of _ = Kind.int64

-- `kind_` is `kindOf(type_.id)` throughout.
pub record Column (F : Type 0) : Type 0 where
  pub type : DataType
  pub i64 : List ℤ
  pub f64 : List F
  pub str : List Bytes
  pub validity : ValidityBitmap

-- A read out of range is undefined, as is a cast out of range.
abbrev pub element {ℓ} : {A : Type ℓ} → Option A → Result A
element none = err undefined
element (some a) = ok a

module _ {F : Type 0} where
  abbrev pub column : DataType → Column F
  column type = record { type = type; i64 = []; f64 = []; str = []; validity = empty_bitmap }

  -- makeIntValue: narrow types wrap as static_cast does.
  unfoldable pub int_value_of : TypeId → ℤ → Value F
  unfolding to_signed to_unsigned
  int_value_of TypeId.boolean n = bool (not (eqb_ℤ n (pos 0)))
  int_value_of TypeId.int8 n = int8 (to_signed 8 (to_unsigned 8 n))
  int_value_of TypeId.int16 n = int16 (to_signed 16 (to_unsigned 16 n))
  int_value_of TypeId.int32 n = int32 (to_signed 32 (to_unsigned 32 n))
  int_value_of _ n = Value.int64 n

  abbrev pub make_int_value : DataType → ℤ → Value F
  unfolding int_value_of
  make_int_value type n = int_value_of type.id n

  -- The switch of valueAt.
  unfoldable pub read_cell : Kind → Column F → ℕ → Result (Value F)
  unfolding make_int_value
  read_cell Kind.int64 c i = do n ← element (get_elem? c.i64 i); ok (make_int_value c.type n)
  read_cell Kind.double c i = do x ← element (get_elem? c.f64 i); ok (Value.double x)
  read_cell Kind.string c i = do s ← element (get_elem? c.str i); ok (Value.string s)

  unfoldable pub value_at : Column F → ℕ → Result (Value F)
  unfolding kind_of read_cell is_valid
  value_at c i = do
    valid ← is_valid c.validity i
    if valid then read_cell (kind_of c.type.id) c i else ok null

module _ {F : Type 0} ⦃fl : Floats F⦄ where
  unfoldable pub push_cell : Kind → Column F → Column F
  push_cell Kind.int64 c = record c { i64 = c.i64 ++ pos 0 ∷ [] }
  push_cell Kind.double c = record c { f64 = c.f64 ++ fl.of_int (pos 0) ∷ [] }
  push_cell Kind.string c = record c { str = c.str ++ [] ∷ [] }

  unfoldable pub push_null : Column F → Column F
  unfolding push_cell kind_of push
  push_null c = record (push_cell (kind_of c.type.id) c) { validity = push false c.validity }

  -- `typeIsFloat(v.typeId()) ? static_cast<int64_t>(v.toDouble()) : v.toInt64()`
  unfoldable pub int_cell : Value F → Result ℤ
  unfolding type_is_float type_id to_double to_int64
  int_cell v =
      let from_float = do x ← to_double v; element (fl.to_int x)
      in if type_is_float (type_id v) then from_float else to_int64 v

  -- `v.typeId() == TypeId::VARCHAR ? v.getString() : v.toString()`
  unfoldable pub string_cell : Value F → Result Bytes
  unfolding to_string
  string_cell (Value.string s) = ok s
  string_cell v = ok (to_string v)

  unfoldable pub store_cell : Kind → Value F → Column F → Result (Column F)
  unfolding int_cell string_cell to_double
  store_cell Kind.int64 v c = do n ← int_cell v; ok (record c { i64 = c.i64 ++ n ∷ [] })
  store_cell Kind.double v c = do x ← to_double v; ok (record c { f64 = c.f64 ++ x ∷ [] })
  store_cell Kind.string v c = do s ← string_cell v; ok (record c { str = c.str ++ s ∷ [] })

  unfoldable pub append : Value F → Column F → Result (Column F)
  unfolding is_null push_null store_cell kind_of push
  append v c =
      let stored = do
        c' ← store_cell (kind_of c.type.id) v c
        ok (record c' { validity = push true c'.validity })
      in if is_null v then ok (push_null c) else stored
