-- ===== src/Storage/Persistence/RoundTrip.antt =====
-- src/storage/persistence.cpp: what saveDatabase writes, loadDatabase reads back.
use lite_query.Prelude.{
  ℕ, ◌^◌, ◌<◌, ◌≤◌, ◌≡◌, refl, sym, ap₂, subst, arith, Bool, true, List, [], ◌∷◌, map, length, All,
  Bytes,
}
use lite_query.Prelude.Int.{fits}
use lite_query.Types.Floats.{Floats}
use lite_query.Types.Schema.{ColumnDef, Schema}
use lite_query.Storage.Bitmap.{ValidityBitmap}
use lite_query.Storage.Bitmap.Flags.{Tracks, assign_raw-words}
use lite_query.Storage.Column.{Column, Kind, kind_of, column}
use lite_query.Storage.Table.{Table, table, row_count, column_for}
use lite_query.Storage.Persistence.Reader.{
  Reader, repeat_read, write_all, Reads, bind-Reads, then-Reads, last-Reads, repeat-Reads,
}
use lite_query.Storage.Persistence.Codec.{
  put_u64, put_i64, put_f64, put_str, get_u64, get_i64, get_f64, get_str, get-put_u64, get-put_i64,
  get-put_f64, get-put_str, get-put_data_type, allocate-Reads, FitsFile,
}
use lite_query.Storage.Persistence.Files.{
  save_field, save_cells, save_column, save_table, get_vector, load_field, restore_bitmap,
  load_cells, load_column, load_columns, load_table,
}

pub All-of :
    {A : Type 0} {P Q : A → Type 0} → ((x : A) → P x → Q x) → (l : List A) → All P l → All Q l
All-of f [] a = tt
All-of f (x ∷ l) a = (f x a.0, All-of f l a.1)

get_vector-Reads :
    {A : Type 0} (r : Reader A) (capacity n : ℕ) (write : A → Bytes) (l : List A)
    → length l ≡ n
    → n ≤ capacity
    → All (λ x. Reads r (write x) x) l
    → Reads (get_vector capacity n r) (write_all write l) l
unfolding get_vector
get_vector-Reads r capacity n write l e h a =
    bind-Reads _ (allocate-Reads capacity n h)
      (subst (λ m. Reads (repeat_read m r) (write_all write l) l) e (repeat-Reads r write l a))

-- assignRaw gives back a bitmap that stands for a list of flags.
restore_bitmap-Reads :
    (v : ValidityBitmap) (flags : List Bool) (rows : ℕ)
    → Tracks v flags
    → v.count ≡ rows
    → Reads (restore_bitmap v.words rows) [] v
unfolding restore_bitmap
restore_bitmap-Reads v flags rows h n = record {
  reads = λ rest. rw (sym n, assign_raw-words v flags h) refl;
}

load_field-Reads :
    (capacity : ℕ)
    → capacity < 2 ^ 64
    → (d : ColumnDef) → (length d.name ≤ capacity) × FitsFile d.type
    → Reads (load_field capacity) (save_field d) d
unfolding load_field save_field
load_field-Reads capacity c64 d h =
    bind-Reads _ (get-put_str capacity d.name c64 h.0)
      (last-Reads (λ t. record { name = d.name; type = t }) (get-put_data_type d.type h.1))

module _ {F : Type 0} ⦃fl : Floats F⦄ (capacity : ℕ) where
  -- The buffer of the column's kind has `rows` elements that fit their C++ type and the others are
  -- empty; the bits of a double can be copied back.
  abbrev pub StorableCells : Kind → ℕ → Column F → Type 0
  StorableCells Kind.int64 rows c =
      (length c.i64 ≡ rows) × All (λ v. fits 63 v ≡ true) c.i64 × (c.f64 ≡ []) × (c.str ≡ [])
  StorableCells Kind.double rows c =
      (length c.f64 ≡ rows)
      × All (λ v. (fl.bits v < 2 ^ 64) × (fl.of_bits (fl.bits v) ≡ v)) c.f64
      × (c.i64 ≡ [])
      × (c.str ≡ [])
  StorableCells Kind.string rows c =
      (length c.str ≡ rows) × All (λ s. length s ≤ capacity) c.str × (c.i64 ≡ []) × (c.f64 ≡ [])

  -- A column as the engine keeps it, of a size that memory has room for.
  pub record Storable (rows : ℕ) (c : Column F) : Type 0 where
    pub flags : List Bool
    pub tracks : Tracks c.validity flags
    pub count : c.validity.count ≡ rows
    pub words_fit : All (λ w. w < 2 ^ 64) c.validity.words
    pub few_words : length c.validity.words ≤ capacity
    pub cells : StorableCells (kind_of c.type.id) rows c

  -- The columns are those of the schema.
  abbrev pub StorableAll : ℕ → Schema → List (Column F) → Type 0
  StorableAll rows [] [] = Unit {0}
  StorableAll rows (d ∷ schema) (c ∷ columns) =
      (c.type ≡ d.type) × Storable rows c × StorableAll rows schema columns
  StorableAll rows _ _ = ⊥

  -- A table as the engine keeps it, of a size that memory has room for.
  pub record StorableTable (t : Table F) : Type 0 where
    pub name : length t.name ≤ capacity
    pub few_columns : length t.schema ≤ capacity
    pub fields : All (λ d. (length d.name ≤ capacity) × FitsFile d.type) t.schema
    pub few_rows : row_count t ≤ capacity
    pub columns : StorableAll (row_count t) t.schema t.columns

  module _ (c64 : capacity < 2 ^ 64) where
    load_cells-Reads :
        (kind : Kind) (rows : ℕ) (c : Column F) (flags : List Bool)
        → rows ≤ capacity
        → Tracks c.validity flags
        → c.validity.count ≡ rows
        → StorableCells kind rows c
        → Reads
            (load_cells capacity rows kind c.validity.words (column c.type))
            (save_cells kind c)
            c
    unfolding load_cells save_cells
    load_cells-Reads Kind.int64 rows c flags room t n s =
        subst
          (Reads (load_cells capacity rows Kind.int64 c.validity.words (column c.type))
            (write_all put_i64 c.i64))
          (ap₂ (λ x y. record c { f64 = x; str = y }) (sym s.2) (sym s.3))
          (then-Reads _
            (get_vector-Reads get_i64 capacity rows put_i64 c.i64 s.0 room
              (All-of get-put_i64 c.i64 s.1))
            (last-Reads _ (restore_bitmap-Reads c.validity flags rows t n)))
    load_cells-Reads Kind.double rows c flags room t n s =
        subst
          (Reads (load_cells capacity rows Kind.double c.validity.words (column c.type))
            (write_all put_f64 c.f64))
          (ap₂ (λ x y. record c { i64 = x; str = y }) (sym s.2) (sym s.3))
          (then-Reads _
            (get_vector-Reads get_f64 capacity rows put_f64 c.f64 s.0 room
              (All-of (λ v h. get-put_f64 v h.0 h.1) c.f64 s.1))
            (last-Reads _ (restore_bitmap-Reads c.validity flags rows t n)))
    load_cells-Reads Kind.string rows c flags room t n s =
        subst
          (Reads (load_cells capacity rows Kind.string c.validity.words (column c.type))
            (write_all put_str c.str))
          (ap₂ (λ x y. record c { i64 = x; f64 = y }) (sym s.2) (sym s.3))
          (then-Reads _
            (get_vector-Reads (get_str capacity) capacity rows put_str c.str s.0 room
              (All-of (λ v h. get-put_str capacity v c64 h) c.str s.1))
            (last-Reads _ (restore_bitmap-Reads c.validity flags rows t n)))

    load_column-Reads :
        (rows : ℕ) (c : Column F)
        → rows ≤ capacity
        → Storable rows c
        → Reads (load_column capacity rows (column c.type)) (save_column c) c
    unfolding load_column save_column
    load_column-Reads rows c room s =
        bind-Reads _ (get-put_u64 (length c.validity.words) (omega (arith, s.few_words, c64))) (
          bind-Reads _
            (get_vector-Reads get_u64 capacity (length c.validity.words) put_u64 c.validity.words
              refl s.few_words (All-of get-put_u64 c.validity.words s.words_fit))
            (load_cells-Reads (kind_of c.type.id) rows c s.flags room s.tracks s.count s.cells))

    load_columns-Reads :
        (rows : ℕ) (schema : Schema) (columns : List (Column F))
        → rows ≤ capacity
        → StorableAll rows schema columns
        → Reads
            (load_columns capacity rows (map column_for schema))
            (write_all save_column columns)
            columns
    unfolding load_columns
    load_columns-Reads rows [] [] room s = record { reads = λ rest. refl }
    load_columns-Reads rows [] (c ∷ columns) room s = absurd s
    load_columns-Reads rows (d ∷ schema) [] room s = absurd s
    load_columns-Reads rows (d ∷ schema) (c ∷ columns) room s =
        bind-Reads _
          (subst (λ t. Reads (load_column capacity rows (column t)) (save_column c) c) s.0
            (load_column-Reads rows c room s.1))
          (last-Reads (λ cs. c ∷ cs) (load_columns-Reads rows schema columns room s.2))

    -- A table is read back from what is written of it.
    pub load_table-Reads :
        (t : Table F) → StorableTable t → Reads (load_table capacity) (save_table t) t
    unfolding load_table save_table table
    load_table-Reads t s = bind-Reads _ (get-put_str capacity t.name c64 s.name) (
        bind-Reads _ (get-put_u64 (length t.schema) (omega (arith, s.few_columns, c64))) (
          bind-Reads _
            (repeat-Reads (load_field capacity) save_field t.schema
              (All-of (load_field-Reads capacity c64) t.schema s.fields))
            (bind-Reads _ (get-put_u64 (row_count t) (omega (arith, s.few_rows, c64))) (
              last-Reads (λ columns. record { name = t.name; schema = t.schema; columns = columns })
                (load_columns-Reads (row_count t) t.schema t.columns s.few_rows s.columns)))))
