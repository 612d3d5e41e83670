-- ===== src/Execution/Operator/Aggregate/Results.antt =====
-- src/execution/physical_plan.cpp, HashAggregate: the results of a group, how wide they are, and the first
-- rows of the keys.
use lite_query.Prelude.{
  false≢true, suc, ◌+◌, ◌≡◌, refl, sym, ap, ◌∙◌, arith, Bool, true, false, not, Bool-cases, inl,
  inr, Bytes, bytes_eq, List, [], ◌∷◌, filter, length, length-append, All,
}
use lite_query.Prelude.Result.{Result, ok, >>=-eq-ok, map_result, ok-injective}
use lite_query.Types.Floats.{Floats}
use lite_query.Types.DataType.{float64, as_nullable}
use lite_query.Types.Value.{Row}
use lite_query.Types.Schema.{Schema, add_column}
use lite_query.Types.Batch.Contents.{fold_result}
use lite_query.Parser.Ast.{Expr}
use lite_query.Execution.Operator.Distinct.Firsts.{firsts}
use lite_query.Execution.Operator.Aggregate.{
  update_cell, Agg, Cell, new_cells, update_cells, key_columns, agg_columns, finish_cell,
  finish_cells, no_keys,
}

pub map_result-length :
    {A B : Type 0} (f : A → Result B) (xs : List A) {ys : List B}
    → map_result f xs ≡ ok ys
    → length ys ≡ length xs
map_result-length f [] h = sym (ap length (ok-injective h))
map_result-length f (x ∷ xs) h =
    let (y, e, h') = >>=-eq-ok (f x) _ h in
    let (ys, e', last) = >>=-eq-ok (map_result f xs) _ h' in
    omega (arith, map_result-length f xs e', ap length (ok-injective last))

module _ {F : Type 0} ⦃fl : Floats F⦄ where
  -- The results of the aggregates, a cell for each.
  unfoldable pub results : List (Agg F) → List (Cell F) → Row F
  unfolding finish_cell
  results [] cells = []
  results (a ∷ aggs) [] = []
  results (a ∷ aggs) (c ∷ cells) = finish_cell a c ∷ results aggs cells

  pub finish-results :
      (aggs : List (Agg F)) (cells : List (Cell F))
      → length cells ≡ length aggs
      → finish_cells aggs cells ≡ ok (results aggs cells)
  unfolding finish_cells results
  finish-results [] cells h = refl
  finish-results (a ∷ aggs) [] h = absurd (omega (arith, h))
  finish-results (a ∷ aggs) (c ∷ cells) h = rw (finish-results aggs cells (omega (arith, h))) refl

  pub length-results :
      (aggs : List (Agg F)) (cells : List (Cell F))
      → length cells ≡ length aggs
      → length (results aggs cells) ≡ length aggs
  unfolding results
  length-results [] cells h = refl
  length-results (a ∷ aggs) [] h = absurd (omega (arith, h))
  length-results (a ∷ aggs) (c ∷ cells) h = ap suc (length-results aggs cells (omega (arith, h)))

  pub length-new_cells : (aggs : List (Agg F)) → length (new_cells aggs) ≡ length aggs
  unfolding new_cells
  length-new_cells [] = refl
  length-new_cells (a ∷ aggs) = ap suc (length-new_cells aggs)

  length-update_cells :
      (schema : Schema) (aggs : List (Agg F)) (row : Row F) (cells : List (Cell F))
      {out : List (Cell F)}
      → update_cells schema aggs row cells ≡ ok out
      → length out ≡ length aggs
  unfolding update_cells
  length-update_cells schema [] row cells h = sym (ap length (ok-injective h))
  length-update_cells schema (a ∷ aggs) row [] h = cc
  length-update_cells schema (a ∷ aggs) row (c ∷ cells) h =
      let (c', e, h') = >>=-eq-ok (update_cell schema row a c) _ h in
      let (cells', e', last) = >>=-eq-ok (update_cells schema aggs row cells) _ h' in
      omega (arith, length-update_cells schema aggs row cells e', ap length (ok-injective last))

  pub length-fold :
      (schema : Schema) (aggs : List (Agg F)) (rows : List (Row F)) (cells : List (Cell F))
      {out : List (Cell F)}
      → length cells ≡ length aggs
      → fold_result (λ c r. update_cells schema aggs r c) cells rows ≡ ok out
      → length out ≡ length aggs
  length-fold schema aggs [] cells l h = sym (ap length (ok-injective h)) ∙ l
  length-fold schema aggs (r ∷ rows) cells l h =
      let (cells', e, h') = >>=-eq-ok (update_cells schema aggs r cells) _ h in
      length-fold schema aggs rows cells' (length-update_cells schema aggs r cells e) h'

  pub length-agg_columns :
      (aggs : List (Agg F)) (schema : Schema)
      → length (agg_columns aggs schema) ≡ length schema + length aggs
  unfolding agg_columns add_column
  length-agg_columns [] schema = omega arith
  length-agg_columns (a ∷ aggs) schema = omega (
    arith,
    length-agg_columns aggs (add_column schema a.out_name a.out_type),
    length-append schema (record { name = a.out_name; type = a.out_type } ∷ []),
  )

pub length-key_columns :
    (names : List Bytes) (schema : Schema)
    → length (key_columns names schema) ≡ length schema + length names
unfolding key_columns add_column
length-key_columns [] schema = omega arith
length-key_columns (name ∷ names) schema = omega (
  arith,
  length-key_columns names (add_column schema name (as_nullable (float64 true))),
  length-append schema (record { name = name; type = as_nullable (float64 true) } ∷ []),
)

pub not_true : (b : Bool) → not b ≡ true → b ≡ false
not_true true h = sym h
not_true false h = refl

pub no_keys-length :
    {F : Type 0} ⦃fl : Floats F⦄ (keys : List (Expr F))
    → no_keys {F = F} keys ≡ true
    → length keys ≡ 0
no_keys-length [] e = refl
no_keys-length (k ∷ keys) e = absurd (false≢true e)

module _ {F : Type 0} where
  filter-All :
      (P : Row F → Type 0) (p : Row F → Bool) (rows : List (Row F))
      → All P rows
      → All P (filter p rows)
  filter-All P p [] a = tt
  filter-All P p (r ∷ rows) a = elim (Bool-cases (p r)) [
    | inl e ↦ rw e (a.0, filter-All P p rows a.1)
    | inr e ↦ rw e (filter-All P p rows a.1)
  ]

  All-filter : (p : Row F → Bool) (rows : List (Row F)) → All (λ r. p r ≡ true) (filter p rows)
  All-filter p [] = tt
  All-filter p (r ∷ rows) = elim (Bool-cases (p r)) [
    | inl e ↦ rw e (e, All-filter p rows)
    | inr e ↦ rw e (All-filter p rows)
  ]

  pub firsts-All :
      (P : Row F → Type 0) (k : Row F → Bytes) (rows : List (Row F))
      → All P rows
      → All P (firsts k rows)
  unfolding firsts
  firsts-All P k [] a = tt
  firsts-All P k (r ∷ rows) a = (
    a.0,
    filter-All P (λ x. not (bytes_eq (k r) (k x))) (firsts k rows) (firsts-All P k rows a.1),
  )

  -- The keys of the rows differ, pair by pair.
  abbrev pub KeysDiffer : (Row F → Bytes) → List (Row F) → Type 0
  KeysDiffer k [] = Unit {0}
  KeysDiffer k (r ∷ rows) = All (λ x. not (bytes_eq (k r) (k x)) ≡ true) rows × KeysDiffer k rows

  filter-KeysDiffer :
      (k : Row F → Bytes) (p : Row F → Bool) (rows : List (Row F))
      → KeysDiffer k rows
      → KeysDiffer k (filter p rows)
  filter-KeysDiffer k p [] d = tt
  filter-KeysDiffer k p (r ∷ rows) d = elim (Bool-cases (p r)) [
    | inl e ↦ rw e (filter-All _ p rows d.0, filter-KeysDiffer k p rows d.1)
    | inr e ↦ rw e (filter-KeysDiffer k p rows d.1)
  ]

  pub firsts-KeysDiffer : (k : Row F → Bytes) (rows : List (Row F)) → KeysDiffer k (firsts k rows)
  unfolding firsts
  firsts-KeysDiffer k [] = tt
  firsts-KeysDiffer k (r ∷ rows) = (
    All-filter (λ x. not (bytes_eq (k r) (k x))) (firsts k rows),
    filter-KeysDiffer k (λ x. not (bytes_eq (k r) (k x))) (firsts k rows)
        (firsts-KeysDiffer k rows),
  )
