-- ===== src/Storage/Persistence/Database.antt =====
-- src/storage/persistence.cpp: a saved catalog is loaded into another one.
use lite_query.Prelude.{
  bytes_eq_refl, false≢true, ℕ, zero, suc, ◌^◌, ◌<◌, ◌≤◌, ◌≡◌, refl, sym, ap, ◌∙◌, subst, arith,
  Bool, true, false, ◌||◌, if◌then◌else◌, Bool-cases, inl, inr, Option, none, some, List, [], ◌∷◌,
  ◌++◌, append-nil, append_assoc, length, All, Bytes, bytes_eq, bytes_eq-eq,
}
use lite_query.Prelude.Result.{ok, ok-injective, >>=-eq-ok, map_result}
use lite_query.Types.Floats.{Floats}
use lite_query.Storage.Table.{Table}
use lite_query.Storage.Catalog.{
  Catalog, listed, find_table, get_table, table_or_throw, has_table, is_some, register_table,
  find-put,
}
use lite_query.Storage.Persistence.Reader.{
  Reader, ◌>>=◌, repeat_read, write_all, Reads, bind-Reads, repeat-Reads,
}
use lite_query.Storage.Persistence.Codec.{
  put_u32, put_u64, get_bytes-Reads, get-put_u32, get-put_u64,
}
use lite_query.Storage.Persistence.Files.{
  magic, persistence_version, save_table, save_database, load_table, load_tables, load_header,
  load_database,
}
use lite_query.Storage.Persistence.RoundTrip.{StorableTable, load_table-Reads, All-of}

header-Reads :
    (n : ℕ) → n < 2 ^ 64 → Reads load_header (magic ++ (put_u32 persistence_version ++ put_u64 n)) n
unfolding load_header bytes_eq
header-Reads n h =
    bind-Reads _ (get_bytes-Reads magic)
      (bind-Reads _ (get-put_u32 1 (omega arith)) (get-put_u64 n h))

if_same : {A : Type 0} (b : Bool) (a : A) → (if b then a else a) ≡ a
if_same true a = refl
if_same false a = refl

or_right : (a : Bool) → (a || true) ≡ true
or_right true = refl
or_right false = refl

get_table-found :
    {F : Type 0} (c : Catalog F) (n : Bytes) {t : Table F}
    → get_table c n ≡ ok t
    → find_table c.tables n ≡ some t
unfolding get_table
get_table-found {F} c n h = of_option (find_table c.tables n) h
  where
    of_option : (o : Option (Table F)) {t : Table F} → table_or_throw o ≡ ok t → o ≡ some t
    of_option none h = cc
    of_option (some u) h = ap some (ok-injective h)

get_table-there :
    {F : Type 0} (c : Catalog F) (n : Bytes) {t : Table F}
    → find_table c.tables n ≡ some t
    → get_table c n ≡ ok t
unfolding get_table
get_table-there c n found = rw found refl

module _ {F : Type 0} ⦃fl : Floats F⦄ where
  -- The tables registered one after the other.
  abbrev pub register_all : List (Table F) → Catalog F → Catalog F
  unfolding register_table
  register_all [] cat = cat
  register_all (t ∷ tables) cat = register_all tables (register_table t cat)

  -- The loop that registers as it reads ends well exactly where reading all tables does.
  pub load_tables-read :
      (capacity n : ℕ) (cat : Catalog F) (is rest : Bytes) (tables : List (Table F))
      → repeat_read n (load_table capacity) is ≡ ok (tables, rest)
      → load_tables capacity n cat is ≡ (register_all tables cat, ok tt)
  unfolding repeat_read load_tables ◌>>=◌
  load_tables-read capacity zero cat is rest tables h =
      ap (λ x. (register_all x.0 cat, ok tt)) (ok-injective h)
  load_tables-read capacity (suc n) cat is rest tables h =
      let (r, one, h') = >>=-eq-ok (load_table capacity is) _ h in
      let (rs, others, last) = >>=-eq-ok (repeat_read n (load_table capacity) r.1) _ h' in
      rw one (
        load_tables-read capacity n (register_table r.0 cat) r.1 rs.1 rs.0 others
        ∙ ap (λ x. (register_all x.0 cat, ok tt)) (ok-injective last))

  -- What is found after the tables of a catalog, by their names, have been registered in another.
  register_all-find :
      (c : Catalog F) (names : List Bytes) (tables : List (Table F)) (d : Catalog F) (name : Bytes)
      → ((n : Bytes) (t : Table F) → find_table c.tables n ≡ some t → t.name ≡ n)
      → map_result (get_table c) names ≡ ok tables
      → find_table (register_all tables d).tables name
        ≡ (if listed names name then find_table c.tables name else find_table d.tables name)
  unfolding register_table
  register_all-find c [] tables d name own h =
      ap (λ ts. find_table (register_all ts d).tables name) (sym (ok-injective h))
  register_all-find c (n ∷ names) tables d name own h =
      let (t, first, h') = >>=-eq-ok (get_table c n) _ h in
      let (ts, others, last) = >>=-eq-ok (map_result (get_table c) names) _ h' in
      let found = get_table-found c n first in
      ap (λ l. find_table (register_all l d).tables name) (sym (ok-injective last))
      ∙ register_all-find c names ts (register_table t d) name own others
      ∙ rw (find-put d.tables t.name name t, own n t found)
          (elim (Bool-cases (bytes_eq n name)) [
            | inl e ↦
                rw (e, sym (ap (find_table c.tables) (bytes_eq-eq n name e)) ∙ found)
                  (if_same (listed names name) (some t))
            | inr e ↦ rw e refl
          ])

  -- The tables of a catalog as saveDatabase gathers them.
  pub record Gathered (capacity : ℕ) (c : Catalog F) (names : List Bytes) : Type 0 where
    pub tables : List (Table F)
    pub done : map_result (get_table c) names ≡ ok tables
    pub same : length tables ≡ length names
    pub storable : All (StorableTable capacity) tables

  -- A catalog as the engine keeps it: every table under its own name, and of a size that memory has
  -- room for.
  unfoldable pub StorableCatalog : ℕ → Catalog F → Type 0
  unfolding find_table
  StorableCatalog capacity c =
      (n : Bytes) (t : Table F)
      → find_table c.tables n ≡ some t
      → (t.name ≡ n) × StorableTable capacity t

  pub gather :
      (capacity : ℕ) (c : Catalog F) (names : List Bytes)
      → StorableCatalog capacity c
      → ((n : Bytes) → listed names n ≡ true → has_table c n ≡ true)
      → Gathered capacity c names
  unfolding has_table StorableCatalog
  gather capacity c [] s h = record { tables = []; done = refl; same = refl; storable = tt }
  gather capacity c (n ∷ names) s h =
      let (t, found) = there (find_table c.tables n) (h n (rw (bytes_eq_refl n) refl)) in
      let rest = gather capacity c names s (λ m k. h m (rw k (or_right (bytes_eq n m)))) in
      record {
        tables = t ∷ rest.tables;
        done = rw (get_table-there c n found, rest.done) refl;
        same = ap suc rest.same;
        storable = ((s n t found).1, rest.storable);
      }
    where
      there : (o : Option (Table F)) → is_some o ≡ true → (t : Table F) × (o ≡ some t)
      there none k = absurd (false≢true k)
      there (some t) k = (t, refl)

  -- All that loadDatabase reads, without registering it.
  unfoldable pub load_all : ℕ → Reader (List (Table F))
  unfolding load_header repeat_read load_table ◌>>=◌
  load_all capacity = load_header >>= (λ n. repeat_read n (load_table capacity))

  pub load_all-Reads :
      (capacity : ℕ) (c : Catalog F) (names : List Bytes)
      → capacity < 2 ^ 64
      → length names ≤ capacity
      → (g : Gathered capacity c names)
      → Reads
          (load_all capacity)
          ((magic ++ (put_u32 persistence_version ++ put_u64 (length names)))
            ++ write_all save_table g.tables)
          g.tables
  unfolding load_all
  load_all-Reads capacity c names c64 few g =
      bind-Reads _ (header-Reads (length names) (omega arith)) (
        subst
          (λ n.
            Reads (repeat_read n (load_table capacity)) (write_all save_table g.tables) g.tables)
          g.same
          (repeat-Reads (load_table capacity) save_table g.tables
            (All-of (load_table-Reads capacity c64) g.tables g.storable)))

  pub saved-bytes :
      (capacity : ℕ) (c : Catalog F) (names : List Bytes) (g : Gathered capacity c names)
      → save_database names c
        ≡ ok (
            (magic ++ (put_u32 persistence_version ++ put_u64 (length names)))
            ++ write_all save_table g.tables)
  unfolding save_database
  saved-bytes capacity c names g = rw g.done (
      ap ok (
        sym (
          append_assoc (magic ++ put_u32 persistence_version) (put_u64 (length names))
            (write_all save_table g.tables))))

  load_database-read :
      (capacity : ℕ) (d : Catalog F) (is rest : Bytes) (tables : List (Table F))
      → load_all capacity is ≡ ok (tables, rest)
      → load_database capacity (some is) d ≡ (register_all tables d, ok tt)
  unfolding load_all load_database ◌>>=◌
  load_database-read capacity d is rest tables h =
      let (x, e, e') = >>=-eq-ok (load_header is) _ h in
      rw e (load_tables-read capacity x.0 d x.1 rest tables e')

  -- The outcome of saving `c` and loading the file into `d`.
  pub record Loaded (capacity : ℕ) (c d : Catalog F) (names : List Bytes) : Type 0 where
    pub file : Bytes
    pub saved : save_database names c ≡ ok file
    pub result : Catalog F
    pub loaded : load_database capacity (some file) d ≡ (result, ok tt)
    pub tables :
        (n : Bytes)
        → find_table result.tables n
          ≡ (if has_table c n then find_table c.tables n else find_table d.tables n)

  -- A catalog whose tables stand under their own names and have a size that memory has room for, saved
  -- with its names in any order and loaded into any catalog, gives back each of its tables exactly,
  -- and leaves the others of the catalog that it is loaded into.
  pub load-save :
      (capacity : ℕ) (c d : Catalog F) (names : List Bytes)
      → capacity < 2 ^ 64
      → length names ≤ capacity
      → StorableCatalog capacity c
      → ((n : Bytes) → listed names n ≡ has_table c n)
      → Loaded capacity c d names
  unfolding StorableCatalog
  load-save capacity c d names c64 few s all =
      let g = gather capacity c names s (λ n k. sym (all n) ∙ k) in
      let file : Bytes =
        (magic ++ (put_u32 persistence_version ++ put_u64 (length names)))
        ++ write_all save_table g.tables in
      let read =
        ap (load_all capacity) (sym (append-nil file))
        ∙ (load_all-Reads capacity c names c64 few g).reads [] in
      record {
        file = file;
        saved = saved-bytes capacity c names g;
        result = register_all g.tables d;
        loaded = load_database-read capacity d file [] g.tables read;
        tables = λ n.
            register_all-find c names g.tables d n (λ m t found. (s m t found).0) g.done
            ∙ rw (all n) refl;
      }
