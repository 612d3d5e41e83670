-- ===== src/Storage/Persistence/Truncation.antt =====
-- src/storage/persistence.cpp: a file that was cut off does not load.
use lite_query.Prelude.{
  zero, suc, inr, inl, ℕ, ◌^◌, ◌<◌, ◌≤◌, ◌≡◌, sym, ap, ◌∙◌, arith, Bool, true, false, if◌then◌else◌,
  some, List, [], ◌∷◌, ◌++◌, append-nil, length, length-append, Bytes,
}
use lite_query.Prelude.Result.{
  Result, Result-cases, Fault, ◌>>=◌, ok, err, ok-injective, persistence_error, >>=-eq-ok,
}
use lite_query.Types.Floats.{Floats}
use lite_query.Storage.Bitmap.{assign_raw}
use lite_query.Storage.Column.{Column, Kind, kind_of}
use lite_query.Storage.Catalog.{register_table, Catalog, listed, has_table}
use lite_query.Storage.Persistence.Reader.{
  repeat_read, Reader, Cut, bind-Cut, return-Cut, repeat-Cut,
}
use lite_query.Storage.Persistence.Codec.{get_u64, get_i64, get_f64, get_str}
use lite_query.Storage.Persistence.Cuts.{
  get_bytes-Cut, get_u32-Cut, get_u64-Cut, get_i64-Cut, get_f64-Cut, get_str-Cut, get_data_type-Cut,
  allocate-Cut,
}
use lite_query.Storage.Persistence.Files.{
  load_tables, save_database, get_vector, load_field, restore_bitmap, load_cells, load_column,
  load_columns, load_table, load_header, load_database,
}
use lite_query.Storage.Persistence.Database.{
  StorableCatalog, gather, load_all, load_all-Reads, saved-bytes,
}

err-injective : {A : Type 0} {e f : Fault} → Path (Result A) (err e) (err f) → e ≡ f
err-injective h = cc

if-Cut : {A : Type 0} (b : Bool) (r s : Reader A) → Cut r → Cut s → Cut (if b then r else s)
if-Cut true r s h k = h
if-Cut false r s h k = k

throw-Cut : {A : Type 0} → Cut {A = A} (λ is. err persistence_error)
throw-Cut = record { cut = λ is behind a rest h. cc }

load_header-Cut : Cut load_header
unfolding load_header
load_header-Cut =
    bind-Cut (get_bytes-Cut 4)
      (λ m. if-Cut _ _ _ (bind-Cut get_u32-Cut (λ v. if-Cut _ _ _ throw-Cut get_u64-Cut)) throw-Cut)

get_vector-Cut :
    {A : Type 0} (capacity n : ℕ) (r : Reader A) → Cut r → Cut (get_vector capacity n r)
unfolding get_vector
get_vector-Cut capacity n r h = bind-Cut (allocate-Cut capacity n) (λ _. repeat-Cut n h)

load_field-Cut : (capacity : ℕ) → Cut (load_field capacity)
unfolding load_field
load_field-Cut capacity =
    bind-Cut (get_str-Cut capacity) (λ name. bind-Cut get_data_type-Cut (λ type. return-Cut _))

restore_bitmap-Cut : (valid : List ℕ) (rows : ℕ) → Cut (restore_bitmap valid rows)
unfolding restore_bitmap
restore_bitmap-Cut valid rows = record {
  cut = λ is behind a rest h.
      let (v, e, e') = >>=-eq-ok (assign_raw valid rows) _ h in
      let there = ok-injective e' in
      inl (is, rw e (ap (λ x. ok (x.0, is)) there), ap (λ x. x.1) there);
}

module _ {F : Type 0} ⦃fl : Floats F⦄ (capacity rows : ℕ) where
  load_cells-Cut :
      (kind : Kind) (valid : List ℕ) (c : Column F) → Cut (load_cells capacity rows kind valid c)
  unfolding load_cells
  load_cells-Cut Kind.int64 valid c =
      bind-Cut (get_vector-Cut capacity rows get_i64 get_i64-Cut)
        (λ cells. bind-Cut (restore_bitmap-Cut valid rows) (λ v. return-Cut _))
  load_cells-Cut Kind.double valid c =
      bind-Cut (get_vector-Cut capacity rows get_f64 get_f64-Cut)
        (λ cells. bind-Cut (restore_bitmap-Cut valid rows) (λ v. return-Cut _))
  load_cells-Cut Kind.string valid c =
      bind-Cut (get_vector-Cut capacity rows (get_str capacity) (get_str-Cut capacity))
        (λ cells. bind-Cut (restore_bitmap-Cut valid rows) (λ v. return-Cut _))

  load_columns-Cut : (columns : List (Column F)) → Cut (load_columns capacity rows columns)
  unfolding load_columns load_column
  load_columns-Cut [] = return-Cut []
  load_columns-Cut (c ∷ columns) =
      bind-Cut
        (bind-Cut get_u64-Cut (λ n.
          bind-Cut (get_vector-Cut capacity n get_u64 get_u64-Cut)
            (λ valid. load_cells-Cut (kind_of c.type.id) valid c)))
        (λ c'. bind-Cut (load_columns-Cut columns) (λ cs. return-Cut _))

module _ {F : Type 0} ⦃fl : Floats F⦄ where
  load_table-Cut : (capacity : ℕ) → Cut (load_table {F = F} capacity)
  unfolding load_table
  load_table-Cut capacity = bind-Cut (get_str-Cut capacity) (λ name. bind-Cut get_u64-Cut (λ ncol.
      bind-Cut (repeat-Cut ncol (load_field-Cut capacity)) (λ schema.
        bind-Cut get_u64-Cut
          (λ rows. bind-Cut (load_columns-Cut capacity rows _) (λ columns. return-Cut _)))))

  load_all-Cut : (capacity : ℕ) → Cut (load_all {F = F} capacity)
  unfolding load_all
  load_all-Cut capacity = bind-Cut load_header-Cut (λ n. repeat-Cut n (load_table-Cut capacity))

  -- loadDatabase throws what the reading of the tables throws.
  load_tables-throws :
      (capacity n : ℕ) (d : Catalog F) (is : Bytes) {e : Fault}
      → repeat_read n (load_table {F = F} capacity) is ≡ err e
      → (load_tables capacity n d is).1 ≡ err e
  unfolding load_tables repeat_read ◌>>=◌
  load_tables-throws capacity zero d is h = cc
  load_tables-throws capacity (suc n) d is {e} h =
      elim (Result-cases (load_table {F = F} capacity is)) [
        | inl (x, p) ↦ rw p (
            load_tables-throws capacity n (register_table x.0 d) x.1
              (elim (Result-cases (repeat_read n (load_table {F = F} capacity) x.1)) [
                | inl (y, q) ↦ cc
                | inr (f, q) ↦ q ∙ rw (p, q) at h
              ]))
        | inr (f, p) ↦ rw p (ap err (err-injective (rw p at h)))
      ]

  load_database-throws :
      (capacity : ℕ) (d : Catalog F) (is : Bytes) {e : Fault}
      → load_all {F = F} capacity is ≡ err e
      → (load_database capacity (some is) d).1 ≡ err e
  unfolding load_all load_database ◌>>=◌
  load_database-throws capacity d is h = elim (Result-cases (load_header is)) [
    | inl (x, p) ↦ rw p (load_tables-throws capacity x.0 d x.1 (rw p at h))
    | inr (f, p) ↦ rw p (ap err (err-injective (rw p at h)))
  ]

  -- loadDatabase of a file that saveDatabase wrote and that was cut off, anywhere, throws
  -- PersistenceError, when the tables of the catalog stand under their own names and have a size that
  -- memory has room for.
  pub truncated-throws :
      (capacity : ℕ) (c d : Catalog F) (names : List Bytes) (kept lost : Bytes)
      → capacity < 2 ^ 64
      → length names ≤ capacity
      → StorableCatalog capacity c
      → ((n : Bytes) → listed names n ≡ has_table c n)
      → save_database names c ≡ ok (kept ++ lost)
      → 0 < length lost
      → (load_database capacity (some kept) d).1 ≡ err persistence_error
  truncated-throws capacity c d names kept lost c64 few s all saved some_lost =
      let g = gather capacity c names s (λ n k. sym (all n) ∙ k) in
      let same = ok-injective (sym saved ∙ saved-bytes capacity c names g) in
      let whole =
        ap (load_all capacity) (same ∙ sym (append-nil _))
        ∙ (load_all-Reads capacity c names c64 few g).reads [] in
      elim ((load_all-Cut capacity).cut kept lost g.tables [] whole) [
        | inl (left, p, nothing) ↦
            absurd (omega (arith, length-append left lost, ap length nothing))
        | inr p ↦ load_database-throws capacity d kept p
      ]
