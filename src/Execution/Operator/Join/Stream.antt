-- ===== src/Execution/Operator/Join/Stream.antt =====
-- src/execution/physical_plan.cpp, HashJoin::next: the rows of the join, handed out in batches.
use lite_query.Prelude.{◌+◌, ◌≡◌, ℕ, ◌<◌, refl, Bool, true, false, List, [], length, Option}
use lite_query.Types.Floats.{Floats}
use lite_query.Types.Value.{Row}
use lite_query.Types.Schema.{Schema, merge}
use lite_query.Types.Batch.Contents.{Widths}
use lite_query.Parser.Ast.{Expr, JoinType}
use lite_query.Execution.Operator.{Operator}
use lite_query.Execution.Operator.Stream.{Yields, eos, more, same_next-Yields, collect_loop-Yields}
use lite_query.Execution.Operator.Chunk.{values_op, values-Yields}
use lite_query.Execution.Operator.Join.{JoinState, join_test, compute_result, join_next, join_op}
use lite_query.Execution.Operator.Join.Widths.{Yields-Widths, join_spec-Widths}
use lite_query.Execution.Operator.Join.Pairs.{join_spec, Decides, join_rows-join_spec}

module _ {F S T : Type 0} ⦃fl : Floats F⦄ (left : Operator F S) (right : Operator F T)
    (kind : JoinType) (condition : Option (Expr F)) (schema : Schema) (fuel : ℕ) where
  abbrev built_state : S → T → List (Row F) → ℕ → JoinState F S T
  built_state s t rows cursor = record {
    left = s;
    right = t;
    built = true;
    rows = rows;
    cursor = cursor;
  }

  -- A join that is built hands out its rows as Values does.
  built-Yields :
      (s : S) (t : T) (rows : List (Row F)) (cursor : ℕ) {out : List (Row F)}
      → Yields (values_op schema rows) cursor out
      → Yields (join_op left right kind condition schema fuel) (built_state s t rows cursor) out
  unfolding join_next
  built-Yields s t rows cursor (eos b next e z) =
      eos {s = built_state s t rows cursor} b (built_state s t rows next) (rw e refl) z
  built-Yields s t rows cursor (more b next some_rows rest e hb p y split) =
      more {s = built_state s t rows cursor} b (built_state s t rows next) some_rows rest
        (rw e refl) hb p (built-Yields s t rows next y) split

  abbrev pub join_start : S → T → JoinState F S T
  join_start s t = record { left = s; right = t; built = false; rows = []; cursor = 0 }

  -- HashJoin over children that produce `xs` and `ys`, where the condition decides a relation on the
  -- pairs of their rows and the schema has as many columns as the two children's, produces the rows of
  -- the join by that relation, in order; more rounds than each child has rows are enough for its loops.
  pub join-Yields :
      (matches : Row F → Row F → Bool) {s : S} {t : T} {xs ys : List (Row F)}
      → Yields left s xs
      → Yields right t ys
      → length xs < fuel
      → length ys < fuel
      → Decides (join_test kind condition (merge left.schema right.schema)) matches xs ys
      → length schema ≡ length left.schema + length right.schema
      → Yields
          (join_op left right kind condition schema fuel)
          (join_start s t)
          (join_spec matches kind (length left.schema) (length right.schema) xs ys)
  join-Yields matches {xs = xs} {ys = ys} yx yy hx hy d wide =
      let l = collect_loop-Yields left fuel [] yx hx in
      let r = collect_loop-Yields right fuel [] yy hy in
      let rows = join_spec matches kind (length left.schema) (length right.schema) xs ys in
      let w : Widths (length schema) rows = rw wide (
        join_spec-Widths matches (length left.schema) (length right.schema) kind xs ys
          (Yields-Widths left yx) (Yields-Widths right yy)) in
      let found =
        join_rows-join_spec (join_test kind condition (merge left.schema right.schema)) matches kind
          (length left.schema) (length right.schema) xs ys d in
      same_next-Yields (join_op left right kind condition schema fuel)
        {s' = built_state l.state r.state rows 0}
        (unfold join_next compute_result in rw (l.done, r.done, found) refl)
        (built-Yields l.state r.state rows 0 (values-Yields schema rows w))
