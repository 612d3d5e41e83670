-- ===== src/Execution/Operator/Buffered.antt =====
-- src/execution/physical_plan.cpp: the pattern of Sort, Distinct and HashAggregate. The first call of
-- `next` builds all rows from the child; every call hands out the next of them.
use lite_query.Prelude.{ℕ, ◌≡◌, refl, Bool, true, false, if◌then◌else◌, List, [], length}
use lite_query.Prelude.Result.{Result, ok, ◌>>=◌}
use lite_query.Types.Value.{Row}
use lite_query.Types.Schema.{Schema}
use lite_query.Types.Batch.{Batch}
use lite_query.Types.Batch.Contents.{Widths}
use lite_query.Execution.Operator.{Operator}
use lite_query.Execution.Operator.Stream.{Yields, eos, more, same_next-Yields}
use lite_query.Execution.Operator.Chunk.{emit_rows, values_op, values-Yields}

-- The members that change: the child's, `built_`, `rows_` and `cursor_`.
pub record Buffered (F S : Type 0) : Type 0 where
  pub child : S
  pub built : Bool
  pub rows : List (Row F)
  pub cursor : ℕ

module _ {F S : Type 0} (schema : Schema) (build : S → Result (List (Row F) × S)) where
  unfoldable pub build_buffer : Buffered F S → Result (Buffered F S)
  build_buffer s = do
    r ← build s.child
    ok (record { child = r.1; built = true; rows = r.0; cursor = s.cursor })

  unfoldable pub buffered_next : Buffered F S → Result (Batch F × Buffered F S)
  unfolding build_buffer emit_rows
  buffered_next s = do
    s' ← if s.built then ok s else build_buffer s
    b ← emit_rows schema s'.rows s'.cursor
    ok (b.0, record s' { cursor = b.1 })

  abbrev pub buffered_op : Operator F (Buffered F S)
  buffered_op = record { schema = schema; next = buffered_next }

  -- The members before the first call.
  abbrev pub fresh_buffer : S → Buffered F S
  fresh_buffer s = record { child = s; built = false; rows = []; cursor = 0 }

  abbrev full_buffer : S → List (Row F) → ℕ → Buffered F S
  full_buffer s rows cursor = record { child = s; built = true; rows = rows; cursor = cursor }

  full-Yields :
      (s : S) (rows : List (Row F)) (cursor : ℕ) {out : List (Row F)}
      → Yields (values_op schema rows) cursor out
      → Yields buffered_op (full_buffer s rows cursor) out
  unfolding buffered_next
  full-Yields s rows cursor (eos b next e z) =
      eos {s = full_buffer s rows cursor} b (full_buffer s rows next) (rw e refl) z
  full-Yields s rows cursor (more b next some_rows rest e hb p y split) =
      more {s = full_buffer s rows cursor} b (full_buffer s rows next) some_rows rest (rw e refl) hb
        p (full-Yields s rows next y) split

  -- Once `build` has returned rows as wide as the schema, the operator produces them.
  pub buffered-Yields :
      (s : S) {t : S} {rows : List (Row F)}
      → build s ≡ ok (rows, t)
      → Widths (length schema) rows
      → Yields buffered_op (fresh_buffer s) rows
  buffered-Yields s {t} {rows} built w =
      same_next-Yields buffered_op {s' = full_buffer t rows 0}
        (unfold buffered_next build_buffer in rw built refl)
        (full-Yields t rows 0 (values-Yields schema rows w))
