-- ===== src/Execution/Operator/Sort/Stream.antt =====
-- src/execution/physical_plan.cpp, Sort: what the operator produces.
use lite_query.Prelude.{ℕ, ◌<◌, ◌≡◌, refl, Bool, List, [], length, All}
use lite_query.Types.Floats.{Floats}
use lite_query.Types.Value.{Row}
use lite_query.Types.Batch.Contents.{Widths}
use lite_query.Execution.Operator.{◌∷◌, Operator}
use lite_query.Execution.Operator.Stream.{Yields, collect_loop-Yields}
use lite_query.Execution.Operator.Buffered.{fresh_buffer, buffered-Yields}
use lite_query.Execution.Operator.Join.Widths.{Yields-Widths}
use lite_query.Execution.Operator.Sort.{Key, row_less, sort_build, sort_op}
use lite_query.Execution.Operator.Sort.Stable.{
  stable_sort-All, Ordering, StablySorted, stable_sort-StablySorted,
}

module _ {F S : Type 0} (child : Operator F S) where
  abbrev HasWidth : Row F → Type 0
  HasWidth row = length row ≡ length child.schema

  Widths-All : (rows : List (Row F)) → Widths (length child.schema) rows → All HasWidth rows
  Widths-All [] w = tt
  Widths-All (row ∷ rows) w = (w.0, Widths-All rows w.1)

  All-Widths : (rows : List (Row F)) → All HasWidth rows → Widths (length child.schema) rows
  All-Widths [] w = tt
  All-Widths (row ∷ rows) w = (w.0, All-Widths rows w.1)

module _ {F S : Type 0} ⦃fl : Floats F⦄ (child : Operator F S) (keys : List (Key F)) where
  -- The operator produces a stable rearrangement of the rows in the order of `lt`.
  pub record ProducesSorted (P : Row F → Type 0) (lt : Row F → Row F → Bool) (fuel : ℕ) (s : S)
      (rows : List (Row F)) : Type 0 where
    pub out : List (Row F)
    pub sorted : StablySorted P lt rows out
    pub yields :
        Yields
          (sort_op child keys fuel)
          (fresh_buffer child.schema (sort_build child keys fuel) s)
          out

  -- Sort over a child that produces rows as wide as its schema, on which the comparator over the keys
  -- answers as a strict weak ordering does, produces a rearrangement of them in that order, in which tied
  -- rows keep their order; more rounds than there are rows are enough.
  pub sort-ProducesSorted :
      (P : Row F → Type 0) (lt : Row F → Row F → Bool) (fuel : ℕ) {s : S} {rows : List (Row F)}
      → Ordering P (row_less keys child.schema) lt
      → All P rows
      → Yields child s rows
      → length rows < fuel
      → ProducesSorted P lt fuel s rows
  sort-ProducesSorted P lt fuel {s} {rows} o h y le =
      let l = collect_loop-Yields child fuel [] y le in
      let sorting = stable_sort-StablySorted P (row_less keys child.schema) lt o rows h in
      record {
        out = sorting.result;
        sorted = sorting.sorted;
        yields =
            buffered-Yields child.schema (sort_build child keys fuel) s {t = l.state}
              (unfold sort_build in rw (l.done, sorting.done) refl)
              (All-Widths child sorting.result (
                stable_sort-All (HasWidth child) (row_less keys child.schema) rows sorting.result
                  (Widths-All child rows (Yields-Widths child y)) sorting.done));
      }
