-- ===== src/Execution/Operator/Stream.antt =====
-- What it means for an operator to produce a list of rows, and that draining it gives those rows.
use lite_query.Prelude.{
  inr, inl, subst, ℕ, zero, suc, ◌<◌, ◌≡◌, refl, sym, ap, ◌∙◌, arith, true, false, List, [], ◌∷◌,
  ◌++◌, length, append-nil, append_assoc, length-append,
}
use lite_query.Prelude.Result.{Result, ok, ◌>>=◌, >>=-eq-ok, ok-injective, Result-cases}
use lite_query.Types.Value.{Row}
use lite_query.Types.Schema.{Schema}
use lite_query.Types.Batch.{Batch, batch, is_empty, append_row}
use lite_query.Types.Batch.Contents.{
  Holds, Widths, Holds-batch, extended, append_row-Holds, for_each_row-Holds, fold_result,
}
use lite_query.Execution.Operator.{Operator, drain_loop, drain, collect_loop, consume_loop}

-- From the state `s` on, the operator produces exactly `rows`, in batches none of which is empty, and
-- then an empty batch.
pub data Yields {F S : Type 0} (op : Operator F S) : S → List (Row F) → Type 0 where
  eos : {s : S} (b : Batch F) (s' : S) → op.next s ≡ ok (b, s') → b.num_rows ≡ 0 → Yields op s []
  more :
      {s : S} {all : List (Row F)} (b : Batch F) (s' : S) (rows rest : List (Row F))
      → op.next s ≡ ok (b, s')
      → Holds b op.schema rows
      → 0 < length rows
      → Yields op s' rest
      → all ≡ rows ++ rest
      → Yields op s all

-- A call that answers as another state's call does starts the same stream.
pub same_next-Yields :
    {F S : Type 0} (op : Operator F S) {s s' : S} {rows : List (Row F)}
    → op.next s ≡ op.next s'
    → Yields op s' rows
    → Yields op s rows
same_next-Yields op e (eos b s'' h z) = eos b s'' (e ∙ h) z
same_next-Yields op e (more b s'' rows rest h hb p y split) =
    more b s'' rows rest (e ∙ h) hb p y split

pub is_empty-zero : {F : Type 0} (b : Batch F) → b.num_rows ≡ 0 → is_empty b ≡ true
unfolding is_empty
is_empty-zero b h = ground arith

module _ {F : Type 0} {b : Batch F} {s : Schema} where
  pub is_empty-cons : (rows : List (Row F)) → Holds b s rows → 0 < length rows → is_empty b ≡ false
  unfolding is_empty
  is_empty-cons rows h p = ground (arith, h.count)

-- What a batch has become when rows were added to it.
pub record Added {F : Type 0} (s : Schema) (out : Result (Batch F)) (rows : List (Row F))
    : Type 0 where
  pub result : Batch F
  pub done : out ≡ ok result
  pub holds : Holds result s rows

module _ {F : Type 0} (s : Schema) where
  pub fold-append_row :
      (b : Batch F) (done rows : List (Row F))
      → Holds b s done
      → Widths (length s) rows
      → Added s (fold_result append_row b rows) (done ++ rows)
  fold-append_row b done [] h w = record { result = b; done = refl; holds = rw append-nil h }
  fold-append_row b done (row ∷ rows) h w =
      let (e, k) = append_row-Holds done row h w.0 in
      rw e (
        rw (sym (append_assoc done (row ∷ []) rows))
          (fold-append_row (extended b s (done ++ row ∷ [])) (done ++ row ∷ []) rows k w.1))

module _ {F S : Type 0} (op : Operator F S) where
  -- Draining an operator that produces `rows` returns a batch of the operator's schema that holds
  -- those rows in order; as many rounds as rows, and one, are enough.
  drain_loop-Yields :
      (f : ℕ) {s : S} {rows : List (Row F)} (all : Batch F) (done : List (Row F))
      → Yields op s rows
      → length rows < f
      → Holds all op.schema done
      → Added op.schema (drain_loop op f s all) (done ++ rows)
  unfolding drain_loop
  drain_loop-Yields zero all done y h k = absurd (omega arith)
  drain_loop-Yields (suc f) all done (eos b s' e z) h k =
      rw (e, is_empty-zero b z) (record { result = all; done = refl; holds = rw append-nil k })
  drain_loop-Yields (suc f) all done (more {all = total} b s' rows rest e hb p y split) h k =
      let one = fold-append_row op.schema all done rows k hb.widths in
      let fewer : length rest < f = omega (arith, ap length split, length-append {0} rows rest) in
      rw
        (
          e,
          is_empty-cons rows hb p,
          for_each_row-Holds append_row rows all hb,
          one.done,
          split,
          sym (append_assoc done rows rest),
        )
        (drain_loop-Yields f one.result (done ++ rows) y fewer one.holds)

  -- Draining an operator that produces `rows` returns a batch of the operator's schema that holds
  -- exactly those rows, in order; as many rounds as there are rows, and one more, are enough.
  pub drain-Yields :
      (fuel : ℕ) {s : S} {rows : List (Row F)}
      → Yields op s rows
      → length rows < fuel
      → Added op.schema (drain op fuel s) rows
  unfolding drain
  drain-Yields fuel y h = drain_loop-Yields fuel (batch op.schema) [] y h (Holds-batch op.schema)

  -- What the loop that collects rows returns: the rows so far and those of the operator.
  pub record Collected (out : Result (List (Row F) × S)) (rows : List (Row F)) : Type 0 where
    pub state : S
    pub done : out ≡ ok (rows, state)

  fold-push :
      (so_far rows : List (Row F))
      → fold_result (λ rs row. ok (rs ++ row ∷ [])) so_far rows ≡ ok (so_far ++ rows)
  fold-push so_far [] = rw append-nil
  fold-push so_far (row ∷ rows) = fold-push (so_far ++ row ∷ []) rows ∙ rw append_assoc

  -- Collecting the rows of an operator that produces `rows` adds exactly those behind the rows so far,
  -- in order; more rounds than there are rows are enough.
  pub collect_loop-Yields :
      (f : ℕ) {s : S} {rows : List (Row F)} (so_far : List (Row F))
      → Yields op s rows
      → length rows < f
      → Collected (collect_loop op f s so_far) (so_far ++ rows)
  unfolding collect_loop
  collect_loop-Yields zero so_far y h = absurd (omega arith)
  collect_loop-Yields (suc f) so_far (eos b s' e z) h =
      rw (e, is_empty-zero b z) (record { state = s'; done = rw append-nil })
  collect_loop-Yields (suc f) so_far (more b s' rows rest e hb p y split) h =
      let fewer : length rest < f = omega (arith, ap length split, length-append {0} rows rest) in
      rw
        (
          e,
          is_empty-cons rows hb p,
          for_each_row-Holds (λ rs row. ok (rs ++ row ∷ [])) rows so_far hb,
          fold-push so_far rows,
          split,
          sym (append_assoc so_far rows rest),
        )
        (collect_loop-Yields f (so_far ++ rows) y fewer)

module _ {ℓ} {F S : Type 0} {A : Type ℓ} (op : Operator F S) (body : A → Row F → Result A) where
  fold_result-append :
      (a : A) (xs ys : List (Row F))
      → fold_result body a (xs ++ ys) ≡ (fold_result body a xs >>= (λ a'. fold_result body a' ys))
  fold_result-append a [] ys = refl
  fold_result-append a (x ∷ xs) ys = elim (Result-cases (body a x)) [
    | inl (a', e) ↦ rw e (fold_result-append a' xs ys)
    | inr (f, e) ↦ rw e refl
  ]

  -- The rows of the child are folded in order; more rounds than there are rows are enough. What the
  -- body throws ends the loop.
  pub consume_loop-Yields :
      (f : ℕ) {s : S} {rows : List (Row F)} (a : A) {a' : A}
      → Yields op s rows
      → length rows < f
      → fold_result body a rows ≡ ok a'
      → (t : S) × (consume_loop op body f s a ≡ ok (a', t))
  unfolding consume_loop
  consume_loop-Yields zero a y h e = absurd (omega arith)
  consume_loop-Yields (suc f) a (eos b s' e z) h done =
      (s', rw (e, is_empty-zero b z) (ap (λ k. ok (k, s')) (ok-injective done)))
  consume_loop-Yields (suc f) a {a'} (more b s' rows rest e hb p y split) h done =
      let fewer : length rest < f = omega (arith, ap length split, length-append {0} rows rest) in
      let (mid, first, then) = >>=-eq-ok (fold_result body a rows) _ (
        sym (fold_result-append a rows rest)
        ∙ (subst (λ l. fold_result body a l ≡ ok a') split done)) in
      let (t, q) = consume_loop-Yields f mid y fewer then in
      (t, rw (e, is_empty-cons rows hb p, for_each_row-Holds body rows a hb, first) q)
