-- ===== src/Execution/Operator/Chunk.antt =====
-- src/execution/physical_plan.cpp: the operators that hold all their rows (Values, and Sort, Distinct
-- and HashJoin once they are built) hand them out from a cursor, a batch of 1024 at a time.
pub mod Batches
use lite_query.Prelude.{
  ℕ, zero, suc, ◌+◌, ◌-◌, ◌≤◌, ◌<◌, min, ◌≡◌, refl, sym, ap, ◌∙◌, arith, true, false, leb, leb→le,
  drop-nil, Option, none, some, List, [], ◌∷◌, ◌++◌, length, get_elem?, take, drop, append_assoc,
  append-nil, length-drop, length-take, take-append-drop, if◌then◌else◌, Bool-cases, inl, inr,
}
use lite_query.Prelude.Result.{Result, ok, err, undefined, ◌>>=◌}
use lite_query.Types.Value.{Row}
use lite_query.Types.Schema.{Schema}
use lite_query.Types.Batch.{Batch, batch, append_row, default_batch_size}
use lite_query.Types.Batch.Contents.{
  Holds, Widths, Holds-batch, append_row-Holds, extended, get_elem?-drop,
}
use lite_query.Execution.Operator.{Operator}
use lite_query.Execution.Operator.Stream.{Yields, eos, more, Added}

module _ {F : Type 0} where
  abbrev row_or_undefined : Option (Row F) → Result (Row F)
  row_or_undefined none = err undefined
  row_or_undefined (some row) = ok row

  -- `for (size_t i = cursor_; i < end; ++i) out.appendRow(rows_[i]);` with `n` rounds left.
  unfoldable pub append_range : List (Row F) → ℕ → ℕ → Batch F → Result (Batch F)
  append_range rows zero i out = ok out
  append_range rows (suc n) i out = do
    row ← row_or_undefined (get_elem? rows i)
    out' ← append_row out row
    append_range rows n (suc i) out'

  -- `end = std::min(cursor_ + kDefaultBatchSize, rows_.size())`
  unfoldable pub emit_rows : Schema → List (Row F) → ℕ → Result (Batch F × ℕ)
  unfolding append_range batch
  emit_rows schema rows cursor =
      let end = min (cursor + default_batch_size) (length rows) in
      let chunk = do out ← append_range rows (end - cursor) cursor (batch schema); ok (out, end)
      in if leb (length rows) cursor then ok (batch schema, cursor) else chunk

  -- Values: the cursor is the only member that changes.
  abbrev pub values_op : Schema → List (Row F) → Operator F ℕ
  values_op schema rows = record { schema = schema; next = emit_rows schema rows }

  pub Widths-drop : (n : ℕ) (rows : List (Row F)) (i : ℕ) → Widths n rows → Widths n (drop i rows)
  Widths-drop n rows zero w = w
  Widths-drop n [] (suc i) w = w
  Widths-drop n (row ∷ rows) (suc i) w = Widths-drop n rows i w.1

  append_range-Added :
      (schema : Schema) (rows todo : List (Row F)) (n i : ℕ) (out : Batch F) (done : List (Row F))
      → Holds out schema done
      → drop i rows ≡ todo
      → Widths (length schema) todo
      → n ≤ length todo
      → Added schema (append_range rows n i out) (done ++ take n todo)
  unfolding append_range
  append_range-Added schema rows todo zero i out done h e w le = record {
    result = out;
    done = refl;
    holds = rw append-nil h;
  }
  append_range-Added schema rows [] (suc n) i out done h e w le = absurd (omega arith)
  append_range-Added schema rows (row ∷ todo) (suc n) i out done h e w le =
      let (g, next) = get_elem?-drop rows i e in
      let (q, k) = append_row-Holds done row h w.0 in
      rw (g, q, sym (append_assoc done (row ∷ []) (take n todo)))
        (append_range-Added schema rows todo n (suc i) (extended out schema (done ++ row ∷ []))
          (done ++ row ∷ []) k next w.1 (omega arith))

  drop-drop : (m n : ℕ) (rows : List (Row F)) → drop m (drop n rows) ≡ drop (n + m) rows
  drop-drop m zero rows = ap (λ (k : ℕ). drop k rows) (omega arith)
  drop-drop m (suc n) [] = drop-nil m ∙ sym (drop-nil (suc n + m))
  drop-drop m (suc n) (row ∷ rows) =
      let e : suc (n + m) ≡ suc n + m = omega arith in
      drop-drop m n rows ∙ ap (λ (k : ℕ). drop k (row ∷ rows)) e

  drop_all : (i : ℕ) (rows : List (Row F)) → length rows ≤ i → drop i rows ≡ []
  drop_all i [] h = drop-nil i
  drop_all zero (row ∷ rows) h = absurd (omega arith)
  drop_all (suc i) (row ∷ rows) h = drop_all i rows (omega arith)

  emit-end :
      (schema : Schema) (rows : List (Row F)) (cursor : ℕ)
      → leb (length rows) cursor ≡ true
      → emit_rows schema rows cursor ≡ ok (batch schema, cursor)
  unfolding emit_rows
  emit-end schema rows cursor h = rw h

  emit-chunk :
      (schema : Schema) (rows : List (Row F)) (cursor : ℕ) {out : Batch F}
      → leb (length rows) cursor ≡ false
      → append_range rows
          (min (cursor + default_batch_size) (length rows) - cursor)
          cursor
          (batch schema)
        ≡ ok out
      → emit_rows schema rows cursor ≡ ok (out, min (cursor + default_batch_size) (length rows))
  unfolding emit_rows
  emit-chunk schema rows cursor h e = rw (h, e)

  -- One call of an operator whose only member is a cursor over `rows`: at the end an empty batch, and
  -- before it the next rows, at most 1024.
  pub record ChunkOf (schema : Schema) (rows : List (Row F)) (cursor : ℕ)
      (out : Result (Batch F × ℕ)) : Type 0 where
    pub at_end : length rows ≤ cursor → (b : Batch F) × (out ≡ ok (b, cursor)) × (b.num_rows ≡ 0)
    pub inside :
        cursor < length rows
        → (b : Batch F) × (out ≡ ok (b, min (cursor + default_batch_size) (length rows)))
          × Holds b schema
              (take (min (cursor + default_batch_size) (length rows) - cursor) (drop cursor rows))

  cursor-Yields_bounded :
      (op : Operator F ℕ) (rows : List (Row F))
      → ((cursor : ℕ) → ChunkOf op.schema rows cursor (op.next cursor))
      → (k cursor : ℕ) → length rows - cursor < k
      → Yields op cursor (drop cursor rows)
  cursor-Yields_bounded op rows call zero cursor h = absurd (omega arith)
  cursor-Yields_bounded op rows call (suc k) cursor h =
      elim (Bool-cases (leb (length rows) cursor)) [
        | inl e ↦
            let (b, done, z) = (call cursor).at_end (leb→le _ _ e) in
            rw (drop_all cursor rows (leb→le _ _ e)) (eos b cursor done z)
        | inr e ↦
            let end : ℕ = min (cursor + default_batch_size) (length rows) in
            let d : ℕ = end - cursor in
            let before : cursor < length rows = ground arith in
            let (b, done, holds) = (call cursor).inside before in
            more b end (take d (drop cursor rows)) (drop end rows) done holds
              (omega (arith, length-take {0} d (drop cursor rows), length-drop {0} cursor rows))
              (cursor-Yields_bounded op rows call k end (omega arith))
              (sym (take-append-drop d (drop cursor rows))
                ∙ ap (λ l. take d (drop cursor rows) ++ l)
                    (drop-drop d cursor rows ∙ ap (λ (n : ℕ). drop n rows) (omega arith)))
      ]

  pub cursor-Yields :
      (op : Operator F ℕ) (rows : List (Row F))
      → ((cursor : ℕ) → ChunkOf op.schema rows cursor (op.next cursor))
      → Yields op 0 rows
  cursor-Yields op rows call =
      cursor-Yields_bounded op rows call (suc (length rows)) 0 (omega arith)

  emit-ChunkOf :
      (schema : Schema) (rows : List (Row F)) (cursor : ℕ)
      → Widths (length schema) rows
      → ChunkOf schema rows cursor (emit_rows schema rows cursor)
  unfolding batch
  emit-ChunkOf schema rows cursor w = record {
    at_end = λ le. (batch schema, emit-end schema rows cursor (ground arith), refl);
    inside = λ before.
        let d : ℕ = min (cursor + default_batch_size) (length rows) - cursor in
        let fits : d ≤ length (drop cursor rows) = omega (arith, length-drop {0} cursor rows) in
        let chunk =
          append_range-Added schema rows (drop cursor rows) d cursor (batch schema) []
            (Holds-batch schema) refl (Widths-drop (length schema) rows cursor w) fits in
        (chunk.result, emit-chunk schema rows cursor (ground arith) chunk.done, chunk.holds);
  }

  -- Values over rows as wide as its schema produces all of them, in order.
  pub values-Yields :
      (schema : Schema) (rows : List (Row F))
      → Widths (length schema) rows
      → Yields (values_op schema rows) 0 rows
  values-Yields schema rows w =
      cursor-Yields (values_op schema rows) rows (λ cursor. emit-ChunkOf schema rows cursor w)
