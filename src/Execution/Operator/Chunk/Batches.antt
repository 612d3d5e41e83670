-- ===== src/Execution/Operator/Chunk/Batches.antt =====
-- src/execution/physical_plan.cpp, Values::next: which rows each of its batches holds.
use lite_query.Prelude.{
  ℕ, zero, suc, ◌+◌, ◌-◌, ◌<◌, min, ◌≡◌, refl, sym, ap, ◌∙◌, arith, leb, leb→le, List, [], ◌∷◌,
  length, take, drop, length-drop, Bool-cases, inl, inr,
}
use lite_query.Prelude.Result.{Result, ok}
use lite_query.Types.Value.{Row}
use lite_query.Types.Schema.{Schema}
use lite_query.Types.Batch.{Batch, batch, default_batch_size}
use lite_query.Types.Batch.Contents.{Holds, Widths, Holds-batch}
use lite_query.Execution.Operator.Stream.{Yields}
use lite_query.Execution.Operator.Chunk.{
  emit_rows, values_op, values-Yields, drop_all, drop-drop, emit-end, emit-ChunkOf,
}

module _ {F : Type 0} where
  -- One call of Values: the batch holds the next 1024 rows, or those that are left, and the next call
  -- goes on behind them.
  pub record HandsOut (schema : Schema) (rows : List (Row F)) (cursor : ℕ)
      (out : Result (Batch F × ℕ)) : Type 0 where
    pub result : Batch F
    pub next : ℕ
    pub done : out ≡ ok (result, next)
    pub holds : Holds result schema (take 1024 (drop cursor rows))
    pub left : drop next rows ≡ drop 1024 (drop cursor rows)

  -- Values over rows as wide as its schema produces all of them, in order, and each call hands out the
  -- next 1024 rows, or those that are left.
  pub values-HandsOut :
      (schema : Schema) (rows : List (Row F))
      → Widths (length schema) rows
      → Yields (values_op schema rows) 0 rows
        × ((cursor : ℕ) → HandsOut schema rows cursor (emit_rows schema rows cursor))
  values-HandsOut schema rows w = (values-Yields schema rows w, call)
    where
      take-min : (k n : ℕ) (l : List (Row F)) → n ≡ min k (length l) → take n l ≡ take k l
      take-min zero zero l e = refl
      take-min zero (suc n) l e = absurd (omega (arith, e))
      take-min (suc k) zero [] e = refl
      take-min (suc k) (suc n) [] e = refl
      take-min (suc k) zero (row ∷ l) e = absurd (omega (arith, e))
      take-min (suc k) (suc n) (row ∷ l) e = ap (λ t. row ∷ t) (take-min k n l (omega (arith, e)))

      drop-min : (k n : ℕ) (l : List (Row F)) → n ≡ min k (length l) → drop n l ≡ drop k l
      drop-min zero zero l e = refl
      drop-min zero (suc n) l e = absurd (omega (arith, e))
      drop-min (suc k) zero [] e = refl
      drop-min (suc k) (suc n) [] e = refl
      drop-min (suc k) zero (row ∷ l) e = absurd (omega (arith, e))
      drop-min (suc k) (suc n) (row ∷ l) e = drop-min k n l (omega (arith, e))

      call : (cursor : ℕ) → HandsOut schema rows cursor (emit_rows schema rows cursor)
      call cursor = elim (Bool-cases (leb (length rows) cursor)) [
        | inl e ↦
            let gone = drop_all cursor rows (leb→le _ _ e) in
            record {
              result = batch schema;
              next = cursor;
              done = emit-end schema rows cursor e;
              holds = rw gone (Holds-batch schema);
              left = gone ∙ ap (drop 1024) (sym gone);
            }
        | inr e ↦
            let end : ℕ = min (cursor + default_batch_size) (length rows) in
            let before : cursor < length rows = ground arith in
            let (b, done, holds) = (emit-ChunkOf schema rows cursor w).inside before in
            let size : end - cursor ≡ min 1024 (length (drop cursor rows)) =
              omega (arith, length-drop {0} cursor rows) in
            record {
              result = b;
              next = end;
              done = done;
              holds = rw (sym (take-min 1024 (end - cursor) (drop cursor rows) size)) holds;
              left =
                  ap (λ (n : ℕ). drop n rows) (omega arith)
                  ∙ sym (drop-drop (end - cursor) cursor rows)
                  ∙ drop-min 1024 (end - cursor) (drop cursor rows) size;
            }
      ]
