-- ===== src/Execution/Operator.antt =====
-- src/execution/physical_plan.h, Operator: the pull interface of the physical operators, and what
-- every operator does with a child: to drain it, or to collect its rows.
pub mod Stream
pub mod Filter
pub mod Limit
pub mod Project
pub mod Chunk
pub mod Append
pub mod Join
pub mod Buffered
pub mod Scan
pub mod Distinct
pub mod Sort
pub mod Aggregate
use lite_query.Prelude.{ℕ, zero, suc, Bool, if◌then◌else◌, List, [], ◌∷◌, ◌++◌}
use lite_query.Prelude.Result.{Result, ok, err, out_of_fuel, ◌>>=◌}
use lite_query.Types.Value.{Row}
use lite_query.Types.Schema.{Schema}
use lite_query.Types.Batch.{Batch, batch, is_empty, append_row, for_each_row}

-- An operator whose members form the type S: `next` returns a batch and the members behind the call.
-- An empty batch is the end of the stream.
pub record Operator (F S : Type 0) : Type 0 where
  pub schema : Schema
  pub next : S → Result (Batch F × S)

module _ {F S : Type 0} (op : Operator F S) where
  -- The loop of `drain`; each round pulls one batch.
  unfoldable pub drain_loop : ℕ → S → Batch F → Result (Batch F)
  unfolding is_empty
  drain_loop zero s all = err out_of_fuel
  drain_loop (suc f) s all = do
    r ← op.next s
    if is_empty r.0
        then ok all
        else do all' ← for_each_row r.0 append_row all; drain_loop f r.1 all'

  unfoldable pub drain : ℕ → S → Result (Batch F)
  unfolding drain_loop batch
  drain fuel s = drain_loop fuel s (batch op.schema)

  -- `rows.push_back(in.getRow(r))` for the rows of every batch, to the end of the stream.
  unfoldable pub collect_loop : ℕ → S → List (Row F) → Result (List (Row F) × S)
  unfolding is_empty
  collect_loop zero s rows = err out_of_fuel
  collect_loop (suc f) s rows = do
    r ← op.next s
    if is_empty r.0 then ok (rows, r.1) else do
      rows' ← for_each_row r.0 (λ rs row. ok (rs ++ row ∷ [])) rows
      collect_loop f r.1 rows'

-- A loop over all rows of a child, batch by batch, to the end of its stream:
-- `for (;;) { Batch in = child_->next(); if (in.empty()) break; for (...) { Row row = in.getRow(r); ... } }`
unfoldable pub consume_loop {ℓ} :
    {F S : Type 0} {A : Type ℓ} → Operator F S → (A → Row F → Result A) → ℕ → S → A → Result (A × S)
unfolding is_empty
consume_loop op body zero s a = err out_of_fuel
consume_loop op body (suc f) s a = do
  r ← op.next s
  if is_empty r.0
      then ok (a, r.1)
      else do a' ← for_each_row r.0 body a; consume_loop op body f r.1 a'
