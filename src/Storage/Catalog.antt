-- ===== src/Storage/Catalog.antt =====
-- src/catalog/catalog.h, Catalog: the tables by their names. The locks are left out, and a table is
-- held by value: no other owner of a TablePtr is modelled.
use lite_query.Prelude.{
  arith, suc, ltb, ℕ, ◌+◌, ◌%◌, ◌^◌, ◌≡◌, refl, sym, ap, ◌∙◌, Bool, true, false, false≢true, ◌||◌,
  if◌then◌else◌, Bool-cases, inl, inr, Bytes, bytes_eq, bytes_eq-eq, Option, none, some, List, [],
  ◌∷◌, map,
}
use lite_query.Prelude.Result.{Result, ok, err, runtime_error, ◌>>=◌}
use lite_query.Types.Schema.{Schema}
use lite_query.Storage.Table.{Table, table}

names_differ : (a b c : Bytes) → bytes_eq a b ≡ false → bytes_eq a c ≡ true → bytes_eq b c ≡ false
names_differ a b c p q = elim (Bool-cases (bytes_eq b c)) [
  | inl r ↦ absurd (false≢true (sym (sym (ap (bytes_eq a) (bytes_eq-eq b c r)) ∙ p) ∙ q))
  | inr r ↦ r
]

-- Whether a name is among the names.
abbrev pub listed : List Bytes → Bytes → Bool
listed [] name = false
listed (n ∷ names) name = bytes_eq n name || listed names name

-- `tables_` as a list of entries.
pub record Catalog (F : Type 0) : Type 0 where
  pub tables : List (Bytes × Table F)
  pub next_node_id : ℕ

module _ {F : Type 0} where
  unfoldable pub find_table : List (Bytes × Table F) → Bytes → Option (Table F)
  unfolding bytes_eq
  find_table [] name = none
  find_table (e ∷ tables) name = if bytes_eq e.0 name then some e.1 else find_table tables name

  -- `tables_[name] = table`
  unfoldable pub put_table : List (Bytes × Table F) → Bytes → Table F → List (Bytes × Table F)
  unfolding bytes_eq
  put_table [] name t = (name, t) ∷ []
  put_table (e ∷ tables) name t =
      let rest = put_table tables name t in
      if bytes_eq e.0 name then (name, t) ∷ tables else e ∷ rest

  -- `tables_.erase(name)`; a map has one entry of a name.
  unfoldable pub erase_table : List (Bytes × Table F) → Bytes → List (Bytes × Table F)
  unfolding bytes_eq
  erase_table [] name = []
  erase_table (e ∷ tables) name =
      let rest = erase_table tables name in if bytes_eq e.0 name then rest else e ∷ rest

  -- What `erase` answers: how many entries it removed.
  unfoldable pub erased : List (Bytes × Table F) → Bytes → ℕ
  unfolding bytes_eq
  erased [] name = 0
  erased (e ∷ tables) name =
      let rest = erased tables name in if bytes_eq e.0 name then suc rest else rest

  -- registerTable(TablePtr)
  unfoldable pub register_table : Table F → Catalog F → Catalog F
  unfolding put_table
  register_table t c = record c { tables = put_table c.tables t.name t }

  -- registerTable(const std::string&, Schema)
  unfoldable pub register_schema : Bytes → Schema → Catalog F → Catalog F
  unfolding put_table table
  register_schema name schema c = record c { tables = put_table c.tables name (table name schema) }

  abbrev pub is_some : Option (Table F) → Bool
  is_some none = false
  is_some (some t) = true

  unfoldable pub has_table : Catalog F → Bytes → Bool
  unfolding find_table
  has_table c name = is_some (find_table c.tables name)

  -- dropTable, `tables_.erase(name) > 0`
  unfoldable pub drop_table : Bytes → Catalog F → Catalog F × Bool
  unfolding erase_table erased
  drop_table name c =
      (record c { tables = erase_table c.tables name }, ltb 0 (erased c.tables name))

  abbrev pub table_or_throw : Option (Table F) → Result (Table F)
  table_or_throw none = err runtime_error
  table_or_throw (some t) = ok t

  unfoldable pub get_table : Catalog F → Bytes → Result (Table F)
  unfolding find_table table_or_throw
  get_table c name = table_or_throw (find_table c.tables name)

  unfoldable pub get_schema : Catalog F → Bytes → Result Schema
  unfolding get_table
  get_schema c name = do t ← get_table c name; ok t.schema

  -- tableNames, in the order of the list; the one of std::unordered_map is unspecified.
  unfoldable pub table_names : Catalog F → List Bytes
  table_names c = map (λ e. e.0) c.tables

  -- allocNodeId on a uint32_t.
  unfoldable pub alloc_node_id : Catalog F → Catalog F × ℕ
  alloc_node_id c = let id = (c.next_node_id + 1) % 2 ^ 32 in (record c { next_node_id = id }, id)

  -- An entry that is put is found under its name, and every other name finds what it found before.
  pub find-put :
      (tables : List (Bytes × Table F)) (name other : Bytes) (t : Table F)
      → find_table (put_table tables name t) other
        ≡ (if bytes_eq name other then some t else find_table tables other)
  unfolding find_table put_table
  find-put [] name other t = refl
  find-put (e ∷ tables) name other t = elim (Bool-cases (bytes_eq e.0 name)) [
    | inl p ↦ elim (Bool-cases (bytes_eq name other)) [
      | inl q ↦ rw (p, q) refl
      | inr q ↦ rw (p, q, bytes_eq-eq e.0 name p, q) refl
    ]
    | inr p ↦ elim (Bool-cases (bytes_eq e.0 other)) [
      | inl q ↦ rw (p, q, names_differ e.0 name other p q) refl
      | inr q ↦ rw (p, q) (find-put tables name other t)
    ]
  ]

  pub find-erase :
      (tables : List (Bytes × Table F)) (name other : Bytes)
      → find_table (erase_table tables name) other
        ≡ (if bytes_eq name other then none else find_table tables other)
  unfolding find_table erase_table
  find-erase [] name other = elim (Bool-cases (bytes_eq name other)) [
    | inl e ↦ rw e refl
    | inr e ↦ rw e refl
  ]
  find-erase (e ∷ tables) name other = elim (Bool-cases (bytes_eq e.0 name)) [
    | inl p ↦ elim (Bool-cases (bytes_eq name other)) [
      | inl q ↦ rw p (find-erase tables name other ∙ rw q refl)
      | inr q ↦ rw p (find-erase tables name other ∙ rw (q, bytes_eq-eq e.0 name p, q) refl)
    ]
    | inr p ↦ elim (Bool-cases (bytes_eq e.0 other)) [
      | inl q ↦ rw (p, q, names_differ e.0 name other p q) refl
      | inr q ↦ rw (p, q) (find-erase tables name other)
    ]
  ]

  erased-find :
      (tables : List (Bytes × Table F)) (name : Bytes)
      → ltb 0 (erased tables name) ≡ is_some (find_table tables name)
  unfolding erased find_table
  erased-find [] name = refl
  erased-find (e ∷ tables) name = elim (Bool-cases (bytes_eq e.0 name)) [
    | inl p ↦ rw p (ground arith)
    | inr p ↦ rw p (erased-find tables name)
  ]

  -- registerTable makes the table the one of its name, dropTable leaves none of the name and answers
  -- whether there was one; both leave the tables of all other names as they are. Names are told apart
  -- byte by byte, also where they differ in the case of a letter only.
  pub catalog_lookup :
      (c : Catalog F) (t : Table F) (name other : Bytes)
      → (get_table (register_table t c) other
          ≡ (if bytes_eq t.name other then ok t else get_table c other))
        × (get_table (drop_table name c).0 other
            ≡ (if bytes_eq name other then err runtime_error else get_table c other))
        × ((drop_table name c).1 ≡ has_table c name)
  unfolding get_table register_table drop_table has_table
  catalog_lookup c t name other = (
    ap table_or_throw (find-put c.tables t.name other t)
        ∙ if-table_or_throw (bytes_eq t.name other) (some t) (find_table c.tables other),
    ap table_or_throw (find-erase c.tables name other)
        ∙ if-table_or_throw (bytes_eq name other) none (find_table c.tables other),
    erased-find c.tables name,
  )
    where
      if-table_or_throw :
          (b : Bool) (x y : Option (Table F))
          → table_or_throw (if b then x else y) ≡ (if b then table_or_throw x else table_or_throw y)
      if-table_or_throw true x y = refl
      if-table_or_throw false x y = refl
