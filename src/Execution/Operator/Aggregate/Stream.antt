-- ===== src/Execution/Operator/Aggregate/Stream.antt =====
-- src/execution/physical_plan.cpp, HashAggregate::next: the rows that the operator hands out.
use lite_query.Prelude.{
  subst, ℕ, ◌+◌, ◌<◌, ◌≡◌, refl, sym, ap, ◌∙◌, arith, true, false, not, if◌then◌else◌, Bool-cases,
  inl, inr, Bytes, bytes_eq, bytes_eq_refl, List, [], ◌∷◌, ◌++◌, map, filter, length, length-append,
  All,
}
use lite_query.Prelude.Result.{ok, ◌>>=◌, map_result}
use lite_query.Types.Floats.{Floats}
use lite_query.Types.Value.{Row}
use lite_query.Types.Batch.Contents.{Widths}
use lite_query.Parser.Ast.{Expr}
use lite_query.Execution.Eval.{evaluate}
use lite_query.Execution.Operator.{Operator}
use lite_query.Execution.Operator.Stream.{Yields, consume_loop-Yields}
use lite_query.Execution.Operator.Buffered.{fresh_buffer, buffered-Yields}
use lite_query.Execution.Operator.Distinct.Firsts.{firsts}
use lite_query.Execution.Operator.Aggregate.{
  Grouping, Agg, Cell, Group, find_group, new_cells, key_columns, aggregate_schema, group_row,
  with_empty_group, with_group, emplaced, no_keys, aggregate_row, aggregate_build, aggregate_op,
}
use lite_query.Execution.Operator.Aggregate.Groups.{
  all_unseen_keys, key, HaveKeys, Finals, groups_of, state, any_of, aggregate_fold,
}
use lite_query.Execution.Operator.Aggregate.Results.{
  map_result-length, results, finish-results, length-results, length-new_cells, length-fold,
  length-agg_columns, length-key_columns, not_true, no_keys-length, firsts-All, KeysDiffer,
  firsts-KeysDiffer,
}

module _ {F S : Type 0} ⦃fl : Floats F⦄ (child : Operator F S) (keys : List (Expr F))
    (names : List Bytes) (aggs : List (Agg F)) (key_of : Row F → Row F) where
  abbrev pub group_key : Row F → Bytes
  group_key r = key child.schema keys aggs key_of r

  -- The row of a group, from one of its rows and its cells at the end.
  abbrev pub group_out : (Bytes → List (Cell F)) → Row F → Row F
  unfolding results
  group_out finals f = key_of f ++ results aggs (finals (group_key f))

  -- One row for each key, in the order of the first rows; without keys, one row even for no input.
  abbrev pub grouped : (Bytes → List (Cell F)) → List (Row F) → List (Row F)
  unfolding results new_cells firsts no_keys
  grouped finals [] = if no_keys keys then results aggs (new_cells aggs) ∷ [] else []
  grouped finals (r ∷ rows) = map (group_out finals) (firsts group_key (r ∷ rows))

  -- Looking up the keys of later rows passes by an entry with another key.
  skip_entry :
      (k : Bytes) (g : Group F) (groups : List (Bytes × Group F)) (fs : List (Row F))
      → All (λ f. not (bytes_eq k (group_key f)) ≡ true) fs
      → map_result (group_row aggs ((k, g) ∷ groups)) (map group_key fs)
        ≡ map_result (group_row aggs groups) (map group_key fs)
  unfolding group_row find_group
  skip_entry k g groups [] a = refl
  skip_entry k g groups (f ∷ fs) a =
      rw (not_true (bytes_eq k (group_key f)) a.0, skip_entry k g groups fs a.1) refl

  group_rows :
      (finals : Bytes → List (Cell F)) (fs : List (Row F))
      → ((k : Bytes) → length (finals k) ≡ length aggs)
      → KeysDiffer group_key fs
      → map_result
          (group_row aggs (groups_of child.schema keys aggs key_of finals fs))
          (map group_key fs)
        ≡ ok (map (group_out finals) fs)
  unfolding group_out
  group_rows finals [] l d = refl
  group_rows finals (f ∷ fs) l d =
      let g : Group F = record { cells = finals (group_key f); key_values = key_of f } in
      rw
        (
          skip_entry (group_key f) g (groups_of child.schema keys aggs key_of finals fs) fs d.0,
          group_rows finals fs l d.1,
        )
        (unfold group_row find_group in
          rw
            (
              bytes_eq_refl (group_key f),
              finish-results aggs (finals (group_key f)) (l (group_key f)),
            )
            refl)

  key-widths :
      (rows : List (Row F))
      → HaveKeys child.schema keys aggs key_of rows
      → All (λ r. length (key_of r) ≡ length keys) rows
  key-widths [] h = tt
  key-widths (r ∷ rows) h =
      (map_result-length (λ e. evaluate child.schema r e) keys h.0, key-widths rows h.1)

  out-Widths :
      (finals : Bytes → List (Cell F)) (fs : List (Row F))
      → ((k : Bytes) → length (finals k) ≡ length aggs)
      → All (λ r. length (key_of r) ≡ length keys) fs
      → Widths (length keys + length aggs) (map (group_out finals) fs)
  unfolding group_out
  out-Widths finals [] l a = tt
  out-Widths finals (f ∷ fs) l a = (
    omega (
      arith,
      a.0,
      length-append (key_of f) (results aggs (finals (group_key f))),
      length-results aggs (finals (group_key f)) (l (group_key f)),
    ),
    out-Widths finals fs l a.1,
  )

  length-Finals :
      (finals : Bytes → List (Cell F)) (rows : List (Row F))
      → Finals child.schema keys aggs key_of (λ k. new_cells aggs) finals rows
      → (k : Bytes) → length (finals k) ≡ length aggs
  length-Finals finals rows h k =
      length-fold child.schema aggs (filter (λ r. bytes_eq (group_key r) k) rows) (new_cells aggs)
        (length-new_cells aggs) (h k)

  abbrev last_state : (Bytes → List (Cell F)) → List (Row F) → Grouping F
  unfolding firsts with_empty_group
  last_state finals rows = with_empty_group keys aggs (
      state child.schema keys aggs key_of finals (firsts group_key rows)
        (any_of child.schema keys aggs key_of false rows))

  last_rows :
      (finals : Bytes → List (Cell F)) (rows : List (Row F))
      → Finals child.schema keys aggs key_of (λ k. new_cells aggs) finals rows
      → map_result (group_row aggs (last_state finals rows).groups) (last_state finals rows).order
        ≡ ok (grouped finals rows)
  unfolding last_state grouped with_empty_group with_group
  last_rows finals [] h = elim (Bool-cases (no_keys keys)) [
    | inl e ↦ rw e (
        unfold group_row find_group firsts emplaced in
        rw (finish-results aggs (new_cells aggs) (length-new_cells aggs)) refl)
    | inr e ↦ rw e (unfold firsts in refl)
  ]
  last_rows finals (r ∷ rows) h =
      let given =
        group_rows finals (firsts group_key (r ∷ rows)) (length-Finals finals (r ∷ rows) h)
          (firsts-KeysDiffer group_key (r ∷ rows)) in
      elim (Bool-cases (no_keys keys)) [ inl e ↦ rw e given | inr e ↦ rw e given ]

  schema-width :
      length names ≡ length keys → length (aggregate_schema names aggs) ≡ length keys + length aggs
  unfolding aggregate_schema
  schema-width n =
      omega (arith, n, length-agg_columns aggs (key_columns names []), length-key_columns names [])

  grouped-Widths :
      (finals : Bytes → List (Cell F)) (rows : List (Row F))
      → HaveKeys child.schema keys aggs key_of rows
      → Finals child.schema keys aggs key_of (λ k. new_cells aggs) finals rows
      → Widths (length keys + length aggs) (grouped finals rows)
  unfolding grouped
  grouped-Widths finals [] a h = elim (Bool-cases (no_keys keys)) [
    | inl e ↦ rw e (
      omega (
        arith,
        no_keys-length keys e,
        length-results aggs (new_cells aggs) (length-new_cells aggs),
      ),
      tt,
    )
    | inr e ↦ rw e tt
  ]
  grouped-Widths finals (r ∷ rows) a h =
      out-Widths finals (firsts group_key (r ∷ rows)) (length-Finals finals (r ∷ rows) h)
        (firsts-All _ group_key (r ∷ rows) (key-widths (r ∷ rows) a))

  -- Over a child that produces `rows`, on which the key expressions have the values `key_of`, and when
  -- folding the rows of each key into new cells gives the cells `finals`, the operator produces one row
  -- for each key, in the order of the first rows of the keys: the values of the key and the results of
  -- the aggregates. Without key expressions it produces one row even if there is no input. More rounds
  -- than there are rows are enough.
  pub aggregate-Yields :
      (fuel : ℕ) {s : S} {rows : List (Row F)} (finals : Bytes → List (Cell F))
      → Yields child s rows
      → length rows < fuel
      → length names ≡ length keys
      → HaveKeys child.schema keys aggs key_of rows
      → Finals child.schema keys aggs key_of (λ k. new_cells aggs) finals rows
      → Yields
          (aggregate_op child keys names aggs fuel)
          (fresh_buffer
            (aggregate_schema names aggs)
            (aggregate_build child keys names aggs fuel)
            s)
          (grouped finals rows)
  unfolding aggregate_op firsts new_cells grouped
  aggregate-Yields fuel {s} {rows} finals y f n a h =
      let firsts_of = firsts group_key rows in
      let folded =
        aggregate_fold child.schema keys aggs key_of (λ k. new_cells aggs) finals [] false rows a
          (λ k u. refl) h
        ∙ ap
            (λ l. ok (
              state child.schema keys aggs key_of finals l
                (any_of child.schema keys aggs key_of false rows)))
            (all_unseen_keys child.schema keys aggs key_of firsts_of) in
      let (t, e) =
        consume_loop-Yields child (aggregate_row child.schema keys aggs) fuel
          (record { groups = []; order = []; any_rows = false }) y f folded in
      buffered-Yields (aggregate_schema names aggs) (aggregate_build child keys names aggs fuel) s
        {t = t}
        (unfold aggregate_build in
          rw e (ap (λ m. m >>= (λ out. ok (out, t))) (last_rows finals rows h)))
        (subst (λ w. Widths w (grouped finals rows)) (sym (schema-width n))
          (grouped-Widths finals rows a h))
