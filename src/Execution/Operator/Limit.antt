-- ===== src/Execution/Operator/Limit.antt =====
-- src/execution/physical_plan.cpp, Limit: pass at most `limit` rows after skipping `offset`. The two
-- int64_t counters start at 0, and grow by one for a row at most.
pub mod Window
pub mod Stream
use lite_query.Prelude.{ℕ, zero, suc, Bool, not, ◌&&◌, if◌then◌else◌}
use lite_query.Prelude.Int.{ℤ, pos, ltb_ℤ}
use lite_query.Prelude.Result.{Result, ok, err, out_of_fuel, ◌>>=◌}
use lite_query.Types.Batch.{Batch, batch, is_empty, append_row, get_row}
use lite_query.Execution.Operator.{Operator}

-- `skipped_ < offset_`
unfoldable pub skipping : ℤ → ℕ → Bool
skipping offset skipped = ltb_ℤ (pos skipped) offset

-- `limit_ >= 0 && emitted_ >= limit_`
unfoldable pub reached : ℤ → ℕ → Bool
reached limit emitted = not (ltb_ℤ limit (pos 0)) && not (ltb_ℤ (pos emitted) limit)

-- The members that change.
pub record LimitState (S : Type 0) : Type 0 where
  pub child : S
  pub emitted : ℕ
  pub skipped : ℕ

-- A batch under construction, with the counters.
pub record Progress (F : Type 0) : Type 0 where
  pub out : Batch F
  pub emitted : ℕ
  pub skipped : ℕ

module _ {F : Type 0} (limit offset : ℤ) where
  -- The loop over the rows of `in`, from row `r` on, with `n` rows left; it breaks at the limit.
  unfoldable pub limit_rows : Batch F → ℕ → ℕ → Progress F → Result (Progress F)
  unfolding skipping reached get_row append_row
  limit_rows b zero r a = ok a
  limit_rows b (suc n) r a =
      let skip = limit_rows b n (suc r) (record a { skipped = suc a.skipped }) in
      let keep = do
        row ← get_row b r
        out ← append_row a.out row
        limit_rows b n (suc r) (record a { out = out; emitted = suc a.emitted })
      in if skipping offset a.skipped then skip else if reached limit a.emitted then ok a else keep

module _ {F S : Type 0} (child : Operator F S) (limit offset : ℤ) where
  unfoldable pub limit_loop : ℕ → LimitState S → Result (Batch F × LimitState S)
  unfolding limit_rows is_empty batch reached
  limit_loop zero s = err out_of_fuel
  limit_loop (suc f) s = do
    r ← child.next s.child
    if is_empty r.0 then ok (batch child.schema, record s { child = r.1 }) else do
      a ←
          limit_rows limit offset r.0 r.0.num_rows 0
            (record { out = batch child.schema; emitted = s.emitted; skipped = s.skipped })
      let s' : LimitState S = record { child = r.1; emitted = a.emitted; skipped = a.skipped }
      if not (is_empty a.out)
          then ok (a.out, s')
          else (if reached limit a.emitted then ok (batch child.schema, s') else limit_loop f s')

  unfoldable pub limit_next : ℕ → LimitState S → Result (Batch F × LimitState S)
  unfolding limit_loop
  limit_next fuel s =
      if reached limit s.emitted then ok (batch child.schema, s) else limit_loop fuel s

  -- Limit, with fuel for its loop, and its members before the first call.
  abbrev pub limit_op : ℕ → Operator F (LimitState S)
  limit_op fuel = record { schema = child.schema; next = limit_next fuel }

  abbrev pub limit_start : S → LimitState S
  limit_start s = record { child = s; emitted = 0; skipped = 0 }
