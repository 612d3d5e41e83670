-- ===== src/Types/DataType.antt =====
-- include/litequery/types.h, DataType: a TypeId with its modifiers.
use lite_query.Prelude.{
  ℕ, Bool, true, ◌&&◌, ◌==◌, if◌then◌else◌, Bytes, codes, ◌++◌, not, to_string_ℕ,
}
use lite_query.Prelude.Int.{ℤ, pos, negsuc, eqb_ℤ, ltb_ℤ, to_string_ℤ}
use lite_query.Types.TypeId.{TypeId, type_id_eq, type_id_name}

-- `scale` and `precision` are uint8_t: numbers below 256, which no definition here changes.
pub record DataType : Type 0 where
  pub id : TypeId
  pub nullable : Bool
  pub scale : ℕ
  pub precision : ℕ
  pub max_length : ℤ

-- `DataType{id, nullable}`, the other members at their defaults.
abbrev pub plain : TypeId → Bool → DataType
plain id nullable = record {
  id = id;
  nullable = nullable;
  scale = 0;
  precision = 0;
  max_length = negsuc 0;
}

-- The static functions; `nullable` is true where a call leaves it out.
unfoldable pub boolean : Bool → DataType
boolean nullable = plain TypeId.boolean nullable

unfoldable pub int32 : Bool → DataType
int32 nullable = plain TypeId.int32 nullable

unfoldable pub int64 : Bool → DataType
int64 nullable = plain TypeId.int64 nullable

unfoldable pub float64 : Bool → DataType
float64 nullable = plain TypeId.float64 nullable

unfoldable pub varchar : ℤ → Bool → DataType
varchar max_len nullable = record (plain TypeId.varchar nullable) { max_length = max_len }

unfoldable pub decimal : ℕ → ℕ → Bool → DataType
decimal precision scale nullable = record (plain TypeId.decimal nullable) {
  scale = scale;
  precision = precision;
}

unfoldable pub date : Bool → DataType
date nullable = plain TypeId.date nullable

unfoldable pub timestamp : Bool → DataType
timestamp nullable = plain TypeId.timestamp nullable

-- operator==
unfoldable pub data_type_eq : DataType → DataType → Bool
unfolding type_id_eq
data_type_eq a b =
    type_id_eq a.id b.id
    && (if a.nullable then b.nullable else not b.nullable)
    && (a.scale == b.scale)
    && (a.precision == b.precision)
    && eqb_ℤ a.max_length b.max_length

unfoldable pub as_nullable : DataType → DataType
as_nullable t = record t { nullable = true }

unfoldable pub to_string : DataType → Bytes
unfolding type_id_eq type_id_name to_string_ℕ to_string_ℤ
to_string t =
    type_id_name t.id
    ++ (if type_id_eq t.id TypeId.varchar && not (ltb_ℤ t.max_length (pos 0))
        then codes "(" ++ to_string_ℤ t.max_length ++ codes ")"
        else codes "")
    ++ (if type_id_eq t.id TypeId.decimal
        then codes "(" ++ to_string_ℕ t.precision ++ codes "," ++ to_string_ℕ t.scale ++ codes ")"
        else codes "")
    ++ (if t.nullable then codes "" else codes " NOT NULL")
