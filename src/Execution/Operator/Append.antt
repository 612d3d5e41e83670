-- ===== src/Execution/Operator/Append.antt =====
-- src/execution/physical_plan.cpp, Append (UNION ALL): the left child to its end, then the right one,
-- whose rows take the left child's schema.
use lite_query.Prelude.{
  ℕ, ◌≡◌, refl, subst, Bool, true, false, not, List, [], ◌++◌, length, if◌then◌else◌, append_assoc,
}
use lite_query.Prelude.Result.{Result, ok, ◌>>=◌}
use lite_query.Types.Value.{Row}
use lite_query.Types.Batch.{Batch, batch, is_empty, append_row, for_each_row}
use lite_query.Types.Batch.Contents.{Widths, Holds-batch, for_each_row-Holds}
use lite_query.Execution.Operator.{Operator}
use lite_query.Execution.Operator.Stream.{
  Yields, eos, more, is_empty-zero, is_empty-cons, fold-append_row, same_next-Yields,
}

pub record AppendState (S T : Type 0) : Type 0 where
  pub left : S
  pub right : T
  pub left_done : Bool

module _ {F S T : Type 0} (left : Operator F S) (right : Operator F T) where
  -- The part behind the left child's end.
  unfoldable pub next_right : AppendState S T → Result (Batch F × AppendState S T)
  unfolding is_empty batch
  next_right s = do
    r ← right.next s.right
    if is_empty r.0 then ok (batch left.schema, record s { right = r.1 }) else do
      out ← for_each_row r.0 append_row (batch left.schema)
      ok (out, record s { right = r.1 })

  unfoldable pub append_next : AppendState S T → Result (Batch F × AppendState S T)
  unfolding next_right is_empty
  append_next s =
      let from_left = do
        l ← left.next s.left
        if not (is_empty l.0)
            then ok (l.0, record s { left = l.1 })
            else next_right (record s { left = l.1; left_done = true })
      in if s.left_done then next_right s else from_left

  abbrev pub append_op : Operator F (AppendState S T)
  append_op = record { schema = left.schema; next = append_next }

  -- A right child of as many columns, once the left one is done.
  right-Yields :
      (l : S) {t : T} {rows : List (Row F)}
      → length right.schema ≡ length left.schema
      → Yields right t rows
      → Yields append_op (record { left = l; right = t; left_done = true }) rows
  unfolding append_next batch
  right-Yields l wide (eos b t' e z) =
      eos (batch left.schema) (record { left = l; right = t'; left_done = true })
        (rw (e, is_empty-zero b z)) refl
  right-Yields l wide (more b t' rows rest e hb p y split) =
      let one =
        fold-append_row left.schema (batch left.schema) [] rows (Holds-batch left.schema)
          (subst (λ (n : ℕ). Widths n rows) wide hb.widths) in
      more one.result (record { left = l; right = t'; left_done = true }) rows rest
        (rw (
          e,
          is_empty-cons rows hb p,
          for_each_row-Holds append_row rows (batch left.schema) hb,
          one.done,
        ))
        one.holds p (right-Yields l wide y) split

  -- Append over children that produce `xs` and `ys`, with as many columns in both, produces the rows
  -- of `xs` and then those of `ys`.
  pub append-Yields :
      {s : S} {t : T} {xs ys : List (Row F)}
      → length right.schema ≡ length left.schema
      → Yields left s xs
      → Yields right t ys
      → Yields append_op (record { left = s; right = t; left_done = false }) (xs ++ ys)
  append-Yields {t = t} wide (eos b s' e z) right_rows =
      same_next-Yields append_op {s' = record { left = s'; right = t; left_done = true }}
        (unfold append_next in rw (e, is_empty-zero b z)) (right-Yields s' wide right_rows)
  append-Yields {s = s} {t = t} {ys = ys} wide (more b s' rows rest e hb p y split) right_rows =
      more {s = record { left = s; right = t; left_done = false }} b
        (record { left = s'; right = t; left_done = false }) rows (rest ++ ys)
        (unfold append_next in rw (e, is_empty-cons rows hb p)) hb p
        (append-Yields wide y right_rows) (rw (split, append_assoc))
