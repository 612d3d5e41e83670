-- ===== src/Execution/Operator/Distinct/Firsts.antt =====
-- src/execution/physical_plan.cpp, Distinct: what it keeps, and rows that share a key.
use lite_query.Prelude.{
  ◌≢◌, arith, length-append, ℕ, ◌<◌, ◌≡◌, refl, sym, ap, ◌∙◌, Bool, true, false, not, ◌||◌, ◌&&◌,
  Bool-cases, inl, inr, Bytes, bytes_eq, bytes_eq-eq, codes, List, [], ◌∷◌, ◌++◌, filter, length,
  append_assoc, append-nil,
}
use lite_query.Prelude.Result.{ok}
use lite_query.Types.Floats.{Floats}
use lite_query.Prelude.{to_string_ℕ}
use lite_query.Types.TypeId.{type_code}
use lite_query.Types.Value.{to_string, type_id, is_null, Row, string}
use lite_query.Types.Batch.Contents.{Widths, fold_result}
use lite_query.Execution.Operator.{Operator}
use lite_query.Execution.Operator.Stream.{Yields, consume_loop-Yields}
use lite_query.Execution.Operator.Buffered.{fresh_buffer, buffered-Yields}
use lite_query.Execution.Operator.Join.Widths.{filter-Widths, Yields-Widths}
use lite_query.Execution.Operator.Distinct.{
  to_string_ℕ, is_null, type_id, type_code, to_string, cell_key, row_key, key_seen, distinct_row,
  distinct_build, distinct_op,
}

module _ {F : Type 0} where
  -- Each row that no earlier row shares its key with.
  unfoldable pub firsts : (Row F → Bytes) → List (Row F) → List (Row F)
  firsts key [] = []
  firsts key (row ∷ rows) = row ∷ filter (λ r. not (bytes_eq (key row) (key r))) (firsts key rows)

  pub filter-congr :
      (p q : Row F → Bool) (rows : List (Row F))
      → ((r : Row F) → p r ≡ q r)
      → filter p rows ≡ filter q rows
  filter-congr p q [] h = refl
  filter-congr p q (row ∷ rows) h = rw (h row, filter-congr p q rows h) refl

  pub filter-filter :
      (p q : Row F → Bool) (rows : List (Row F))
      → filter p (filter q rows) ≡ filter (λ r. q r && p r) rows
  filter-filter p q [] = refl
  filter-filter p q (row ∷ rows) = elim (Bool-cases (q row)) [
    | inl e ↦ elim (Bool-cases (p row)) [
      | inl f ↦ rw (e, f) (ap (λ l. row ∷ l) (filter-filter p q rows))
      | inr f ↦ rw (e, f) (filter-filter p q rows)
    ]
    | inr e ↦ rw e (filter-filter p q rows)
  ]

  firsts-Widths :
      (key : Row F → Bytes) (n : ℕ) (rows : List (Row F))
      → Widths n rows
      → Widths n (firsts key rows)
  unfolding firsts
  firsts-Widths key n [] w = tt
  firsts-Widths key n (row ∷ rows) w = (
    w.0,
    filter-Widths (λ r. not (bytes_eq (key row) (key r))) n (firsts key rows)
        (firsts-Widths key n rows w.1),
  )

-- A row with a key that is seen is no first of the later rows.
pub seen-absorbs :
    (seen : List Bytes) (k : Bytes) (x : Bytes)
    → key_seen seen k ≡ true
    → (not (bytes_eq k x) && not (key_seen seen x)) ≡ not (key_seen seen x)
seen-absorbs seen k x h = elim (Bool-cases (bytes_eq k x)) [
  | inl e ↦ rw (e, sym (bytes_eq-eq k x e), h) refl
  | inr e ↦ rw e refl
]

pub de_morgan_seen : (a b : Bool) → (not a && not b) ≡ not (a || b)
de_morgan_seen true b = refl
de_morgan_seen false b = refl

module _ {F : Type 0} ⦃fl : Floats F⦄ where
  abbrev unseen : List Bytes → Row F → Bool
  unseen seen r = not (key_seen seen (row_key r))

  distinct_fold :
      (seen : List Bytes) (out rows : List (Row F))
      → (seen' : List Bytes) × (fold_result distinct_row (record { seen = seen; rows = out }) rows
          ≡ ok (record { seen = seen'; rows = out ++ filter (unseen seen) (firsts row_key rows) }))
  unfolding distinct_row firsts
  distinct_fold seen out [] = (seen, rw append-nil refl)
  distinct_fold seen out (row ∷ rows) =
      let k = row_key row in
      let later = firsts row_key rows in
      let other : Row F → Bool = λ r. not (bytes_eq k (row_key r)) in
      elim (Bool-cases (key_seen seen k)) [
        | inl e ↦
            let (s', ih) = distinct_fold seen out rows in
            let same : filter (unseen seen) (filter other later) ≡ filter (unseen seen) later =
              filter-filter (unseen seen) other later
              ∙ filter-congr _ (unseen seen) later (λ r. seen-absorbs seen k (row_key r) e) in
            (s', rw (e, same) ih)
        | inr e ↦
            let (s', ih) = distinct_fold (k ∷ seen) (out ++ row ∷ []) rows in
            let same : filter (unseen seen) (filter other later)
                ≡ filter (unseen (k ∷ seen)) later =
              filter-filter (unseen seen) other later
              ∙ filter-congr _ (unseen (k ∷ seen)) later (λ r.
                unfold key_seen in
                de_morgan_seen (bytes_eq k (row_key r)) (key_seen seen (row_key r))) in
            (
              s',
              rw (e, same)
                  (ih
                    ∙ ap (λ l. ok (record { seen = s'; rows = l }))
                        (append_assoc out (row ∷ []) (filter (unseen (k ∷ seen)) later))),
            )
      ]

  all_unseen : (rows : List (Row F)) → filter (unseen []) rows ≡ rows
  unfolding key_seen
  all_unseen [] = refl
  all_unseen (row ∷ rows) = ap (λ l. row ∷ l) (all_unseen rows)

module _ {F S : Type 0} ⦃fl : Floats F⦄ (child : Operator F S) where
  -- Distinct over a child that produces `rows` produces, in order, each row whose key no earlier row
  -- has; more rounds than there are rows are enough.
  pub distinct-Yields :
      (fuel : ℕ) {s : S} {rows : List (Row F)}
      → Yields child s rows
      → length rows < fuel
      → Yields
          (distinct_op child fuel)
          (fresh_buffer child.schema (distinct_build child fuel) s)
          (firsts row_key rows)
  distinct-Yields fuel {s} {rows} y h =
      let (seen, folded) = distinct_fold [] [] rows in
      let (t, e) =
        consume_loop-Yields child distinct_row fuel (record { seen = []; rows = [] }) y h folded in
      buffered-Yields child.schema (distinct_build child fuel) s {t = t}
        (unfold distinct_build in rw e (ap (λ l. ok (l, t)) (all_unseen (firsts row_key rows))))
        (firsts-Widths row_key (length child.schema) rows (Yields-Widths child y))

-- What stands between two texts in a key.
abbrev pub between_texts : Bytes
between_texts = 1 ∷ codes "8:"

abbrev pub two_texts : {F : Type 0} → Bytes → Bytes → Row F
two_texts x y = string x ∷ string y ∷ []

first_text : {F : Type 0} {x y z w : Bytes} → two_texts {F = F} x y ≡ two_texts z w → x ≡ z
first_text h = cc

-- Rows that differ can share a key, since what separates two cells in a key may stand in a text: the
-- row of the texts `x s y` and `z` differs from that of `x` and `y s z`, where s is the separator, and
-- has the same key.
pub row_key_collision :
    (F : Type 0) ⦃fl : Floats F⦄ (x y z : Bytes)
    → (two_texts {F = F} (x ++ (between_texts ++ y)) z ≢ two_texts x (y ++ (between_texts ++ z)))
      × (row_key {F = F} (two_texts (x ++ (between_texts ++ y)) z)
          ≡ row_key {F = F} (two_texts x (y ++ (between_texts ++ z))))
unfolding row_key cell_key to_string type_code type_id is_null to_string_ℕ
row_key_collision F x y z = (
  (λ same.
      omega (arith, length-append x (between_texts ++ y), ap length (first_text {F = F} same))),
  simp (append_assoc, append-nil),
)
