-- ===== src/Tests/Files.antt =====
-- The theorems on the catalog, its file and the lexer, at concrete inputs.
use lite_query.Prelude.{
  ◌≡◌, refl, subst, arith, true, if◌then◌else◌, Bool-cases, inl, inr, none, some, [], ◌∷◌, ◌++◌,
  length, length-append, ◌<◌, codes, Bytes, bytes_eq, bytes_eq-eq,
}
use lite_query.Prelude.Int.{ℤ, pos}
use lite_query.Prelude.Result.{persistence_error, ok, err, runtime_error}
use lite_query.Types.TypeId.{TypeId, type_code}
use lite_query.Types.DataType.{plain}
use lite_query.Storage.Bitmap.Flags.{empty-Tracks, push-Tracks}
use lite_query.Storage.Bitmap.{empty_bitmap, push, set_bit, bit}
use lite_query.Storage.Column.{Column, kind_of, column}
use lite_query.Storage.Table.{Table, row_count}
use lite_query.Storage.Catalog.{
  Catalog, listed, find_table, get_table, has_table, register_table, drop_table, catalog_lookup,
}
use lite_query.Storage.Persistence.Codec.{put_u32, put_u64, type_of_code, FitsFile}
use lite_query.Storage.Persistence.Files.{save_table, save_database, load_database}
use lite_query.Storage.Persistence.RoundTrip.{Storable, StorableTable}
use lite_query.Storage.Persistence.Database.{StorableCatalog, Loaded, load-save}
use lite_query.Storage.Persistence.Truncation.{truncated-throws}
use lite_query.Parser.Lexer.{lexer, advance}
use lite_query.Parser.Lexer.Scan.{scan_string}
use lite_query.Parser.Lexer.Tokens.{Tokenized, tokenize-Tokenized}
use lite_query.Parser.Lexer.Literals.{Literal, escape, scan_string-escape}
use lite_query.Tests.Samples.{whole_floats, one_column}

abbrev one_number_column : Column ℤ
unfolding push
one_number_column = record (column (plain TypeId.int64 true)) {
  i64 = pos 1 ∷ [];
  validity = push true empty_bitmap;
}

abbrev numbers : Table ℤ
unfolding one_number_column
numbers = record { name = codes "t"; schema = one_column; columns = one_number_column ∷ [] }

abbrev no_tables : Catalog ℤ
no_tables = record { tables = []; next_node_id = 0 }

abbrev one_table : Catalog ℤ
one_table = record { tables = (codes "t", numbers) ∷ []; next_node_id = 0 }

catalog_lookup_example :
    (get_table (register_table numbers no_tables) (codes "t")
      ≡ (if bytes_eq (codes "t") (codes "t") then ok numbers else get_table no_tables (codes "t")))
    × (get_table (drop_table (codes "u") no_tables).0 (codes "t") ≡ (
        if bytes_eq (codes "u") (codes "t")
        then err runtime_error
        else get_table no_tables (codes "t")))
    × ((drop_table (codes "u") no_tables).1 ≡ has_table no_tables (codes "u"))
unfolding numbers
catalog_lookup_example = catalog_lookup no_tables numbers (codes "u") (codes "t")

number_type-FitsFile : FitsFile (plain TypeId.int64 true)
unfolding type_code type_of_code
number_type-FitsFile = record { byte = omega arith; named = refl; length_fits = refl }

numbers-Storable : Storable 100 1 one_number_column
unfolding kind_of one_number_column set_bit bit
numbers-Storable = record {
  flags = true ∷ [];
  tracks = push-Tracks empty_bitmap [] empty-Tracks true;
  count = refl;
  words_fit = (omega arith, tt);
  few_words = omega arith;
  cells = (refl, (refl, tt), refl, refl);
}

numbers-StorableTable : StorableTable 100 numbers
unfolding row_count numbers one_number_column push
numbers-StorableTable = record {
  name = omega arith;
  few_columns = omega arith;
  fields = ((omega arith, number_type-FitsFile), tt);
  few_rows = omega arith;
  columns = (refl, numbers-Storable, tt);
}

some-injective : {A : Type 0} {a b : A} → some a ≡ some b → a ≡ b
some-injective h = cc

none≢some : {A B : Type 0} {a : A} → none ≡ some a → B
none≢some h = cc

one_table-Storable : StorableCatalog 100 one_table
unfolding StorableCatalog find_table numbers
one_table-Storable n t h = elim (Bool-cases (bytes_eq (codes "t") n)) [
  | inl e ↦
      subst (λ u. (u.name ≡ n) × StorableTable 100 u) (some-injective (rw e at h))
        (bytes_eq-eq (codes "t") n e, numbers-StorableTable)
  | inr e ↦ none≢some (rw e at h)
]

one_table-listed : (n : Bytes) → listed (codes "t" ∷ []) n ≡ has_table one_table n
unfolding has_table find_table
one_table-listed n = elim (Bool-cases (bytes_eq (codes "t") n)) [
  | inl e ↦ rw e refl
  | inr e ↦ rw e refl
]

load-save_example : Loaded 100 one_table no_tables (codes "t" ∷ [])
load-save_example =
    load-save 100 one_table no_tables (codes "t" ∷ []) (omega arith) (omega arith)
      one_table-Storable one_table-listed

-- The file cut off behind its first four bytes.
abbrev behind_magic : Bytes
unfolding put_u32 put_u64 save_table
behind_magic = put_u32 1 ++ (put_u64 1 ++ (save_table numbers ++ []))

one_table-saved : save_database (codes "t" ∷ []) one_table ≡ ok (codes "LQDB" ++ behind_magic)
unfolding save_database get_table find_table behind_magic
one_table-saved = refl

some_lost : 0 < length behind_magic
unfolding behind_magic put_u32
some_lost = omega (arith, length-append (put_u32 1) (put_u64 1 ++ (save_table numbers ++ [])))

truncated-throws_example :
    (load_database 100 (some (codes "LQDB")) no_tables).1 ≡ err persistence_error
truncated-throws_example =
    truncated-throws 100 one_table no_tables (codes "t" ∷ []) (codes "LQDB") behind_magic
      (omega arith) (omega arith) one_table-Storable one_table-listed one_table-saved some_lost

tokenize-Tokenized_example : Tokenized (codes "SELECT 1 -- one")
tokenize-Tokenized_example = tokenize-Tokenized (codes "SELECT 1 -- one")

-- 'it''s'
abbrev literal_text : Bytes
unfolding escape
literal_text = 39 ∷ (escape (codes "it's") ++ (39 ∷ []))

scan_string-escape_example :
    Literal
      (codes "it's")
      []
      (lexer literal_text)
      (record { tokens = []; errors = [] })
      (scan_string
        (lexer literal_text)
        (advance (lexer literal_text))
        (record { tokens = []; errors = [] }))
unfolding literal_text lexer
scan_string-escape_example =
    scan_string-escape (codes "it's") [] (lexer literal_text) (record { tokens = []; errors = [] })
      refl refl
