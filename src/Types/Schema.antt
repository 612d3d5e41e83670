-- ===== src/Types/Schema.antt =====
-- include/litequery/types.h, ColumnDef and Schema.
pub mod Lookup
use lite_query.Prelude.{
  ℕ, zero, suc, ◌+◌, ◌-◌, Bool, true, false, ◌&&◌, leb, ◌==◌, if◌then◌else◌, Bytes, bytes_eq,
  Option, none, some, List, [], ◌∷◌, ◌++◌, length, get_elem?,
}
use lite_query.Prelude.Result.{Result, ok, err, undefined, ◌>>=◌}
use lite_query.Types.DataType.{DataType, data_type_eq}

pub record ColumnDef : Type 0 where
  pub name : Bytes
  pub type : DataType

unfoldable pub column_def_eq : ColumnDef → ColumnDef → Bool
unfolding bytes_eq data_type_eq
column_def_eq a b = bytes_eq a.name b.name && data_type_eq a.type b.type

-- `cols_`
abbrev pub Schema : Type 0
Schema = List ColumnDef

unfoldable pub add_column : Schema → Bytes → DataType → Schema
add_column s name type = s ++ (record { name = name; type = type } ∷ [])

-- tolower of <cctype>, in the "C" locale
unfoldable pub to_lower : ℕ → ℕ
to_lower c = if leb b'A' c && leb c b'Z' then c + 32 else c

-- The byte of a C string at its start: NUL at the end.
abbrev head_byte : Bytes → ℕ
head_byte [] = 0
head_byte (c ∷ s) = c

abbrev tail_bytes : Bytes → Bytes
tail_bytes [] = []
tail_bytes (c ∷ s) = s

-- strncasecmp(a, b, n) == 0: at most n bytes, none behind a NUL.
unfoldable pub strncasecmp_eq : ℕ → Bytes → Bytes → Bool
unfolding to_lower
strncasecmp_eq zero a b = true
strncasecmp_eq (suc n) a b =
    let rest = strncasecmp_eq n (tail_bytes a) (tail_bytes b) in
    if to_lower (head_byte a) == to_lower (head_byte b)
    then (if to_lower (head_byte a) == 0 then true else rest)
    else false

-- The test in the loop of indexOf.
unfoldable pub same_name : Bytes → Bytes → Bool
unfolding strncasecmp_eq
same_name a b = (length a == length b) && strncasecmp_eq (length b) a b

-- indexOf from column `i` on; `none` is the -1.
unfoldable pub index_from : ℕ → Schema → Bytes → Option ℕ
unfolding same_name
index_from i [] name = none
index_from i (c ∷ cols) name =
    if same_name c.name name then some i else index_from (suc i) cols name

unfoldable pub index_of : Schema → Bytes → Option ℕ
unfolding index_from
index_of s name = index_from 0 s name

-- `cols_[idx]`
abbrev column_at : Option ColumnDef → Result ColumnDef
column_at none = err undefined
column_at (some c) = ok c

unfoldable pub project : Schema → List ℕ → Result Schema
project s [] = ok []
project s (i ∷ indices) = do c ← column_at (get_elem? s i); out ← project s indices; ok (c ∷ out)

unfoldable pub merge : Schema → Schema → Schema
merge left right = left ++ right

unfoldable pub schema_eq : Schema → Schema → Bool
unfolding column_def_eq
schema_eq [] [] = true
schema_eq (a ∷ s) (b ∷ t) = column_def_eq a b && schema_eq s t
schema_eq _ _ = false
