-- ===== src/Storage/Table.antt =====
-- src/storage/table.h, Table: one typed column for each field of the schema. The asserts are those of
-- a release build, which drops them.
pub mod Rows
pub mod Torn
use lite_query.Prelude.{ℕ, Bytes, Option, List, [], ◌∷◌, map, length, get_elem?}
use lite_query.Prelude.Result.{Result, ok, err, undefined, ◌>>=◌, map_result}
use lite_query.Types.Floats.{Floats}
use lite_query.Types.Value.{Value, Row}
use lite_query.Types.Schema.{ColumnDef, Schema, index_of}
use lite_query.Storage.Column.{Column, column, append, value_at, element}

pub record Table (F : Type 0) : Type 0 where
  pub name : Bytes
  pub schema : Schema
  pub columns : List (Column F)

module _ {F : Type 0} where
  abbrev pub column_for : ColumnDef → Column F
  column_for c = column c.type

  -- Table(std::string, Schema)
  unfoldable pub table : Bytes → Schema → Table F
  table name schema = record { name = name; schema = schema; columns = map column_for schema }

  abbrev pub size_of_first : List (Column F) → ℕ
  size_of_first [] = 0
  size_of_first (c ∷ columns) = c.validity.count

  unfoldable pub row_count : Table F → ℕ
  row_count t = size_of_first t.columns

  unfoldable pub column_count : Table F → ℕ
  column_count t = length t.columns

  unfoldable pub column_index : Table F → Bytes → Option ℕ
  unfolding index_of
  column_index t name = index_of t.schema name

  -- getRow
  unfoldable pub table_row : Table F → ℕ → Result (Row F)
  unfolding value_at
  table_row t r = map_result (λ c. value_at c r) t.columns

-- What insertRow leaves behind, and whether it threw: the columns before the one that throws keep the
-- value that they were given.
abbrev pub Insertion : Type 0 → Type 0
Insertion F = List (Column F) × Result (Unit {0})

abbrev pub insert_first :
    {F : Type 0} → Column F → List (Column F) → Result (Column F) → Insertion F → Insertion F
insert_first c columns (ok c') rest = (c' ∷ rest.0, rest.1)
insert_first c columns (err e) rest = (c ∷ columns, err e)

module _ {F : Type 0} ⦃fl : Floats F⦄ where
  -- `for (size_t c = 0; c < columns_.size(); ++c) columns_[c].append(row[c]);`
  unfoldable pub insert_cells : List (Column F) → Row F → Insertion F
  unfolding append
  insert_cells [] row = ([], ok tt)
  insert_cells (c ∷ columns) [] = (c ∷ columns, err undefined)
  insert_cells (c ∷ columns) (v ∷ row) =
      insert_first c columns (append v c) (insert_cells columns row)

  unfoldable pub insert_row : Row F → Table F → Table F × Result (Unit {0})
  unfolding insert_cells
  insert_row row t = let out = insert_cells t.columns row in (record t { columns = out.0 }, out.1)

  -- The loop over the values of one column.
  unfoldable pub append_all : List (Value F) → Column F → Result (Column F)
  unfolding append
  append_all [] c = ok c
  append_all (v ∷ values) c = do c' ← append v c; append_all values c'

  unfoldable pub bulk_columns : List (Column F) → List (List (Value F)) → Result (List (Column F))
  unfolding append_all
  bulk_columns [] cols = ok []
  bulk_columns (c ∷ columns) [] = err undefined
  bulk_columns (c ∷ columns) (values ∷ cols) = do
    c' ← append_all values c
    rest ← bulk_columns columns cols
    ok (c' ∷ rest)

  -- bulkInsertColumns, of which only the outcome without an exception is kept.
  unfoldable pub bulk_insert_columns : List (List (Value F)) → Table F → Result (Table F)
  unfolding bulk_columns
  bulk_insert_columns cols t = do
    columns ← bulk_columns t.columns cols
    ok (record t { columns = columns })
