-- ===== src/Storage/Csv/Load.antt =====
-- src/storage/csv_reader.cpp, readCsvString: the table of a CSV text.
use lite_query.Prelude.{
  ℕ, suc, ◌+◌, true, if◌then◌else◌, Bytes, codes, Option, none, some, List, [], ◌∷◌, ◌++◌, drop,
  get_elem?, to_string_ℕ,
}
use lite_query.Prelude.Int.{negsuc}
use lite_query.Prelude.Result.{Result, ok, err, csv_error, ◌>>=◌, map_result}
use lite_query.Types.Floats.{Floats}
use lite_query.Types.DataType.{DataType, int64, float64, varchar}
use lite_query.Types.Value.{Value, null}
use lite_query.Types.Schema.{Schema, add_column}
use lite_query.Storage.Table.{Table, table, bulk_insert_columns}
use lite_query.Storage.Csv.{CsvOptions, parse_grid}
use lite_query.Storage.Csv.Inference.{Numerals, Inferred, infer_column, cell_to_value}

-- `"col" + std::to_string(c + 1)`
abbrev column_number : ℕ → Bytes
unfolding to_string_ℕ
column_number c = codes "col" ++ to_string_ℕ (c + 1)

-- The names without a header, one for each field of the first record.
abbrev numbered : ℕ → List Bytes → List Bytes
unfolding column_number
numbered c [] = []
numbered c (f ∷ fields) = column_number c ∷ numbered (suc c) fields

abbrev data_type_of : Inferred → DataType
unfolding int64 float64 varchar
data_type_of Inferred.int = int64 true
data_type_of Inferred.double = float64 true
data_type_of Inferred.text = varchar (negsuc 0) true

abbrev or_numbered : ℕ → Bytes → Bytes
unfolding column_number
or_numbered c [] = column_number c
or_numbered c (b ∷ name) = b ∷ name

-- The loop that builds the schema, from column `c` on.
unfoldable pub csv_schema : ℕ → List Bytes → List Inferred → Schema → Schema
unfolding add_column or_numbered data_type_of
csv_schema c [] types schema = schema
csv_schema c (name ∷ names) [] schema = schema
csv_schema c (name ∷ names) (t ∷ types) schema =
    csv_schema (suc c) names types (add_column schema (or_numbered c name) (data_type_of t))

module _ {F : Type 0} ⦃fl : Floats F⦄ (n : Numerals F) where
  -- The cell of a record, or NULL where the record is short.
  abbrev cell_at : Inferred → Option Bytes → Result (Value F)
  unfolding cell_to_value
  cell_at t none = ok null
  cell_at t (some cell) = cell_to_value n cell t

  -- The values of each column, from column `c` on.
  unfoldable pub csv_columns :
      ℕ → List Inferred → List (List Bytes) → Result (List (List (Value F)))
  unfolding cell_at
  csv_columns c [] records = ok []
  csv_columns c (t ∷ types) records = do
    values ← map_result (λ record_of. cell_at t (get_elem? record_of c)) records
    rest ← csv_columns (suc c) types records
    ok (values ∷ rest)

  unfoldable pub csv_types : CsvOptions → List (List Bytes) → ℕ → ℕ → List Bytes → List Inferred
  unfolding infer_column
  csv_types opts grid start c [] = []
  csv_types opts grid start c (name ∷ names) =
      infer_column n grid c start opts.infer_rows ∷ csv_types opts grid start (suc c) names

  -- The table of a grid with these names, whose data starts at the record `start`.
  unfoldable pub csv_table :
      CsvOptions → Bytes → List (List Bytes) → List Bytes → ℕ → Result (Table F)
  unfolding csv_types csv_schema csv_columns table bulk_insert_columns
  csv_table opts name grid [] start = err csv_error
  csv_table opts name grid (column ∷ names) start =
      let types = csv_types opts grid start 0 (column ∷ names) in
      do
        columns ← csv_columns 0 types (drop start grid)
        bulk_insert_columns columns (table name (csv_schema 0 (column ∷ names) types []))

  abbrev of_grid : CsvOptions → Bytes → List (List Bytes) → Result (Table F)
  unfolding csv_table numbered
  of_grid opts name [] = err csv_error
  of_grid opts name (first ∷ rest) =
      if opts.has_header
      then csv_table opts name (first ∷ rest) first 1
      else csv_table opts name (first ∷ rest) (numbered 0 first) 0

  -- readCsvString
  unfoldable pub read_csv_string : CsvOptions → Bytes → Bytes → Result (Table F)
  unfolding parse_grid of_grid
  read_csv_string opts name text = of_grid opts name (parse_grid opts text)
