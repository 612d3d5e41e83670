-- ===== src/Execution/Operator/Scan.antt =====
-- src/execution/physical_plan.cpp, SeqScan: the rows of a table, column by column, a batch at a time.
pub mod Rows
use lite_query.Prelude.{
  ℕ, zero, suc, ◌+◌, ◌-◌, min, leb, if◌then◌else◌, List, [], ◌∷◌, ◌++◌, length,
}
use lite_query.Prelude.Result.{Result, ok, err, undefined, ◌>>=◌}
use lite_query.Types.Value.{Value}
use lite_query.Types.Schema.{Schema}
use lite_query.Types.Batch.{Batch, batch, default_batch_size}
use lite_query.Storage.Column.{Column, value_at}
use lite_query.Storage.Table.{Table, row_count}
use lite_query.Execution.Operator.{Operator}

module _ {F : Type 0} where
  -- `for (size_t r = cursor_; r < end; ++r) out.push_back(col[r]);` with `n` rounds left.
  unfoldable pub scan_cells : Column F → ℕ → ℕ → List (Value F) → Result (List (Value F))
  unfolding value_at
  scan_cells col zero r out = ok out
  scan_cells col (suc n) r out = do v ← value_at col r; scan_cells col n (suc r) (out ++ v ∷ [])

  -- The loop over the columns; `batch.columns[c]` is read out of range if the schema is too short.
  unfoldable pub scan_columns :
      ℕ → ℕ → List (Column F) → List (List (Value F)) → Result (List (List (Value F)))
  unfolding scan_cells
  scan_columns n cursor [] outs = ok outs
  scan_columns n cursor (col ∷ columns) [] = err undefined
  scan_columns n cursor (col ∷ columns) (out ∷ outs) = do
    out' ← scan_cells col n cursor out
    outs' ← scan_columns n cursor columns outs
    ok (out' ∷ outs')

  unfoldable pub scan_next : Table F → Schema → ℕ → Result (Batch F × ℕ)
  unfolding scan_columns batch row_count
  scan_next t schema cursor =
      let total = row_count t in
      let end = min (cursor + default_batch_size) total in
      let n = end - cursor in
      let b : Batch F = batch schema in
      let read = do
        columns ← scan_columns n cursor t.columns b.columns
        ok (record b { columns = columns; num_rows = n }, end)
      in if leb total cursor then ok (b, cursor) else read

  -- SeqScan over a table that does not change while it is scanned; the cursor is the member that
  -- changes.
  abbrev pub scan_op : Table F → Schema → Operator F ℕ
  scan_op t schema = record { schema = schema; next = scan_next t schema }
