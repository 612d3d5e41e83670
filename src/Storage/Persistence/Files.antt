-- ===== src/Storage/Persistence/Files.antt =====
-- src/storage/persistence.cpp: saveDatabase and loadDatabase. `capacity` is the most elements that a
-- std::vector or std::string can be given.
use lite_query.Prelude.{
  ℕ, zero, suc, ltb, if◌then◌else◌, Option, none, some, List, [], ◌∷◌, ◌++◌, length, Bytes,
  bytes_eq, codes,
}
use lite_query.Prelude.Result.{Result, ok, err, persistence_error, map_result}
use lite_query.Prelude.Result
use lite_query.Types.Floats.{Floats}
use lite_query.Types.Schema.{ColumnDef}
use lite_query.Storage.Bitmap.{ValidityBitmap, assign_raw}
use lite_query.Storage.Column.{Column, Kind, kind_of}
use lite_query.Storage.Table.{Table, table, row_count}
use lite_query.Storage.Catalog.{Catalog, get_table, register_table}
use lite_query.Storage.Persistence.Reader.{Reader, return_read, ◌>>=◌, repeat_read, write_all}
use lite_query.Storage.Persistence.Codec.{
  put_u32, put_u64, put_i64, put_f64, put_str, put_data_type, get_bytes, get_u32, get_u64, get_i64,
  get_f64, get_str, get_data_type, allocate,
}

abbrev pub magic : Bytes
magic = codes "LQDB"

abbrev pub persistence_version : ℕ
persistence_version = 1

unfoldable pub save_field : ColumnDef → Bytes
unfolding put_str put_data_type
save_field c = put_str c.name ++ put_data_type c.type

module _ {F : Type 0} ⦃fl : Floats F⦄ where
  -- The switch over the kinds.
  unfoldable pub save_cells : Kind → Column F → Bytes
  unfolding put_i64 put_f64 put_str
  save_cells Kind.int64 c = write_all put_i64 c.i64
  save_cells Kind.double c = write_all put_f64 c.f64
  save_cells Kind.string c = write_all put_str c.str

  unfoldable pub save_column : Column F → Bytes
  unfolding put_u64 save_cells kind_of
  save_column c =
      put_u64 (length c.validity.words)
      ++ (write_all put_u64 c.validity.words ++ save_cells (kind_of c.type.id) c)

  unfoldable pub save_table : Table F → Bytes
  unfolding put_str put_u64 save_field save_column row_count
  save_table t =
      put_str t.name
      ++ (put_u64 (length t.schema)
          ++ (write_all save_field t.schema
              ++ (put_u64 (row_count t) ++ write_all save_column t.columns)))

  -- What saveDatabase writes; `names` is what tableNames answers, in the order of the hash map.
  unfoldable pub save_database : List Bytes → Catalog F → Result Bytes
  unfolding get_table save_table put_u32 put_u64
  save_database names c = Result.◌>>=◌ (map_result (get_table c) names) (λ tables. ok (
      magic
      ++ (put_u32 persistence_version ++ (put_u64 (length names) ++ write_all save_table tables))))

-- `n` elements into a vector of that size.
unfoldable pub get_vector : {A : Type 0} → ℕ → ℕ → Reader A → Reader (List A)
unfolding allocate repeat_read ◌>>=◌
get_vector capacity n r = allocate capacity n >>= (λ _. repeat_read n r)

unfoldable pub load_field : ℕ → Reader ColumnDef
unfolding get_str get_data_type ◌>>=◌
load_field capacity =
    get_str capacity
    >>= (λ name. get_data_type >>= (λ type. return_read (record { name = name; type = type })))

-- assignRaw, between two reads.
unfoldable pub restore_bitmap : List ℕ → ℕ → Reader ValidityBitmap
unfolding assign_raw
restore_bitmap valid rows is = Result.◌>>=◌ (assign_raw valid rows) (λ v. ok (v, is))

module _ {F : Type 0} ⦃fl : Floats F⦄ (capacity rows : ℕ) where
  -- The switch over the kinds, with restoreInt64, restoreDouble and restoreString.
  unfoldable pub load_cells : Kind → List ℕ → Column F → Reader (Column F)
  unfolding get_vector get_i64 get_f64 get_str ◌>>=◌ restore_bitmap
  load_cells Kind.int64 valid c = get_vector capacity rows get_i64 >>= (λ cells.
      restore_bitmap valid rows >>= (λ v. return_read (record c { i64 = cells; validity = v })))
  load_cells Kind.double valid c = get_vector capacity rows get_f64 >>= (λ cells.
      restore_bitmap valid rows >>= (λ v. return_read (record c { f64 = cells; validity = v })))
  load_cells Kind.string valid c = get_vector capacity rows (get_str capacity) >>= (λ cells.
      restore_bitmap valid rows >>= (λ v. return_read (record c { str = cells; validity = v })))

  -- One round of the loop over the columns.
  unfoldable pub load_column : Column F → Reader (Column F)
  unfolding get_u64 get_vector load_cells kind_of ◌>>=◌
  load_column c = get_u64 >>= (λ word_count.
      get_vector capacity word_count get_u64 >>= (λ valid. load_cells (kind_of c.type.id) valid c))

  unfoldable pub load_columns : List (Column F) → Reader (List (Column F))
  unfolding load_column ◌>>=◌
  load_columns [] = return_read []
  load_columns (c ∷ columns) =
      load_column c >>= (λ c'. load_columns columns >>= (λ cs. return_read (c' ∷ cs)))

module _ {F : Type 0} ⦃fl : Floats F⦄ (capacity : ℕ) where
  -- The body of the loop over the tables, but for registerTable.
  unfoldable pub load_table : Reader (Table F)
  unfolding get_str get_u64 repeat_read load_field table load_columns ◌>>=◌
  load_table = get_str capacity >>= (λ name. get_u64 >>= (λ ncol.
      repeat_read ncol (load_field capacity) >>= (λ schema. get_u64 >>= (λ rows.
        let t : Table F = table name schema in
        load_columns capacity rows t.columns
        >>= (λ columns. return_read (record t { columns = columns }))))))

  -- The loop over the tables: those before the one that throws stay registered.
  abbrev load_step :
      Catalog F
      → Result (Table F × Bytes)
      → (Table F → Bytes → Catalog F × Result (Unit {0}))
      → Catalog F × Result (Unit {0})
  load_step cat (ok r) next = next r.0 r.1
  load_step cat (err e) next = (cat, err e)

  unfoldable pub load_tables : ℕ → Catalog F → Bytes → Catalog F × Result (Unit {0})
  unfolding load_table register_table
  load_tables zero cat is = (cat, ok tt)
  load_tables (suc n) cat is =
      load_step cat (load_table is) (λ t rest. load_tables n (register_table t cat) rest)

-- The magic, the version and the number of tables.
unfoldable pub load_header : Reader ℕ
unfolding get_bytes bytes_eq get_u32 get_u64 ◌>>=◌
load_header = get_bytes 4 >>= (λ m.
    if bytes_eq m magic
    then (get_u32 >>= (λ version.
        if ltb persistence_version version then (λ is. err persistence_error) else get_u64))
    else (λ is. err persistence_error))

module _ {F : Type 0} ⦃fl : Floats F⦄ (capacity : ℕ) where
  abbrev load_counted : Catalog F → Result (ℕ × Bytes) → Catalog F × Result (Unit {0})
  unfolding load_tables
  load_counted cat (ok h) = load_tables capacity h.0 cat h.1
  load_counted cat (err e) = (cat, err e)

  -- loadDatabase: the catalog that is left, and whether it threw. `none` is a file that does not open.
  unfoldable pub load_database : Option Bytes → Catalog F → Catalog F × Result (Unit {0})
  unfolding load_header load_counted
  load_database none cat = (cat, err persistence_error)
  load_database (some is) cat = load_counted cat (load_header is)
