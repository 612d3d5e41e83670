-- ===== src/Execution/Operator/Filter.antt =====
-- src/execution/physical_plan.cpp, Filter: keep the rows for which the predicate is true.
use lite_query.Prelude.{
  ℕ, zero, suc, ◌+◌, ◌<◌, ◌≡◌, refl, sym, ap, subst, ◌∙◌, arith, Bool, true, false, List, [], ◌∷◌,
  ◌++◌, length, filter, length-append, append_assoc, append-nil, if◌then◌else◌, Bool-cases, inl,
  inr,
}
use lite_query.Prelude.Result.{Result, ok, err, out_of_fuel, ◌>>=◌}
use lite_query.Types.Floats.{Floats}
use lite_query.Types.Value.{Row}
use lite_query.Types.Batch.{Batch, batch, is_empty, append_row, for_each_row}
use lite_query.Types.Batch.Contents.{
  Holds, Widths, Holds-batch, append_row-Holds, extended, for_each_row-Holds, fold_result,
}
use lite_query.Parser.Ast.{Expr}
use lite_query.Execution.Eval.{evaluate_predicate}
use lite_query.Execution.Operator.{Operator}
use lite_query.Execution.Operator.Stream.{Yields, eos, more, is_empty-zero, is_empty-cons, Added}

module _ {F S : Type 0} ⦃fl : Floats F⦄ (child : Operator F S) (predicate : Expr F) where
  -- The body of the inner loop.
  unfoldable pub filter_row : Batch F → Row F → Result (Batch F)
  filter_row out row = do
    kept ← evaluate_predicate predicate child.schema row
    if kept then append_row out row else ok out

  -- The outer loop: batches of the child, until one has a surviving row.
  unfoldable pub filter_next : ℕ → S → Result (Batch F × S)
  unfolding filter_row is_empty batch
  filter_next zero s = err out_of_fuel
  filter_next (suc f) s = do
    r ← child.next s
    if is_empty r.0 then ok (batch child.schema, r.1) else do
      out ← for_each_row r.0 filter_row (batch child.schema)
      if is_empty out then filter_next f r.1 else ok (out, r.1)

  -- Filter, with fuel for its loop.
  abbrev pub filter_op : ℕ → Operator F S
  filter_op fuel = record { schema = child.schema; next = filter_next fuel }

  -- The predicate evaluates on each of the rows, to the value of `p`.
  abbrev pub Evaluates : (Row F → Bool) → List (Row F) → Type 0
  Evaluates p [] = Unit {0}
  Evaluates p (row ∷ rows) =
      (evaluate_predicate predicate child.schema row ≡ ok (p row)) × Evaluates p rows

module _ {F S : Type 0} ⦃fl : Floats F⦄ (child : Operator F S) (predicate : Expr F)
    (p : Row F → Bool) where
  filter-append : (xs ys : List (Row F)) → filter p (xs ++ ys) ≡ filter p xs ++ filter p ys
  filter-append [] ys = refl
  filter-append (x ∷ xs) ys = elim (Bool-cases (p x)) [
    | inl e ↦ rw e (ap (λ l. x ∷ l) (filter-append xs ys))
    | inr e ↦ rw e (filter-append xs ys)
  ]

  Evaluates-split :
      (xs ys : List (Row F))
      → Evaluates child predicate p (xs ++ ys)
      → Evaluates child predicate p xs × Evaluates child predicate p ys
  Evaluates-split [] ys h = (tt, h)
  Evaluates-split (x ∷ xs) ys h = let (a, b) = Evaluates-split xs ys h.1 in ((h.0, a), b)

  fold-filter_row :
      (b : Batch F) (done rows : List (Row F))
      → Holds b child.schema done
      → Widths (length child.schema) rows
      → Evaluates child predicate p rows
      → Added child.schema (fold_result (filter_row child predicate) b rows) (done ++ filter p rows)
  unfolding filter_row
  fold-filter_row b done [] h w e = record { result = b; done = refl; holds = rw append-nil h }
  fold-filter_row b done (row ∷ rows) h w e = elim (Bool-cases (p row)) [
    | inl t ↦
        let (q, k) = append_row-Holds done row h w.0 in
        rw (e.0, t, q, sym (append_assoc done (row ∷ []) (filter p rows)))
          (fold-filter_row (extended b child.schema (done ++ row ∷ [])) (done ++ row ∷ []) rows k
            w.1 e.1)
    | inr t ↦ rw (e.0, t) (fold-filter_row b done rows h w.1 e.1)
  ]

  -- What one call of `next` finds: the end, or a batch of survivors and the child's later rows.
  data First (s : S) (rows : List (Row F)) : Type 0 where
    ended :
        (b : Batch F) (s' : S)
        → ((f : ℕ) → length rows < f → filter_next child predicate f s ≡ ok (b, s'))
        → b.num_rows ≡ 0
        → filter p rows ≡ []
        → First s rows
    found :
        (b : Batch F) (s' : S) (kept rest : List (Row F))
        → ((f : ℕ) → length rows < f → filter_next child predicate f s ≡ ok (b, s'))
        → Holds b child.schema kept
        → 0 < length kept
        → Yields child s' rest
        → Evaluates child predicate p rest
        → length rest < length rows
        → filter p rows ≡ kept ++ filter p rest
        → First s rows

  -- One round of the outer loop, at a batch that holds rows.
  next-batch :
      (f : ℕ) {s : S} (b : Batch F) (s' : S) (rows : List (Row F)) {out : Batch F}
      → child.next s ≡ ok (b, s')
      → Holds b child.schema rows
      → 0 < length rows
      → fold_result (filter_row child predicate) (batch child.schema) rows ≡ ok out
      → filter_next child predicate (suc f) s
        ≡ (if is_empty out then filter_next child predicate f s' else ok (out, s'))
  unfolding filter_next
  next-batch f b s' rows e hb pos h = rw (
    e,
    is_empty-cons rows hb pos,
    for_each_row-Holds (filter_row child predicate) rows (batch child.schema) hb,
    h,
  )

  module _ (s : S) (all : List (Row F)) (b : Batch F) (s' : S) (rows rest : List (Row F))
      (out : Batch F)
      (round : (f : ℕ)
        → filter_next child predicate (suc f) s
          ≡ (if is_empty out then filter_next child predicate f s' else ok (out, s')))
      (fits : length all ≡ length rows + length rest) (pos : 0 < length rows) where
    pass_over :
        {r : Result (Batch F × S)}
        → is_empty out ≡ true
        → ((f : ℕ) → length rest < f → filter_next child predicate f s' ≡ r)
        → (f : ℕ) → length all < f
        → filter_next child predicate f s ≡ r
    pass_over e k zero h = absurd (omega arith)
    pass_over e k (suc f) h = round f ∙ rw e (k f (omega arith))

    stop_at :
        is_empty out ≡ false
        → (f : ℕ) → length all < f
        → filter_next child predicate f s ≡ ok (out, s')
    stop_at e zero h = absurd (omega arith)
    stop_at e (suc f) h = round f ∙ rw e

    filter-all : all ≡ rows ++ rest → filter p all ≡ filter p rows ++ filter p rest
    filter-all e = rw e (filter-append rows rest)

    -- Behind a batch of the child: its survivors, or what comes after it.
    First-batch :
        (kept : List (Row F))
        → filter p rows ≡ kept
        → Holds out child.schema kept
        → all ≡ rows ++ rest
        → Yields child s' rest
        → Evaluates child predicate p rest
        → First s' rest
        → First s all
    First-batch [] k hold split y et (ended b2 s2 e2 z2 nothing) =
        ended b2 s2 (pass_over (is_empty-zero out hold.count) e2) z2
          (filter-all split ∙ rw (k, nothing))
    First-batch [] k hold split y et (found b2 s2 kept2 rest2 e2 hb2 pos2 y2 ev2 less2 split2) =
        found b2 s2 kept2 rest2 (pass_over (is_empty-zero out hold.count) e2) hb2 pos2 y2 ev2
          (omega arith) (filter-all split ∙ rw k split2)
    First-batch (x ∷ kept) k hold split y et ih =
        found out s' (x ∷ kept) rest (stop_at (is_empty-cons (x ∷ kept) hold (omega arith))) hold
          (omega arith) y et (omega arith) (filter-all split ∙ rw k)

  next-end :
      {s : S} {b : Batch F} {s' : S}
      → child.next s ≡ ok (b, s')
      → b.num_rows ≡ 0
      → (f : ℕ) → 0 < f
      → filter_next child predicate f s ≡ ok (batch child.schema, s')
  unfolding filter_next
  next-end e z zero h = absurd (omega arith)
  next-end {b} e z (suc f) h = rw (e, is_empty-zero b z)

  First-Yields :
      {s : S} {rows : List (Row F)}
      → Yields child s rows
      → Evaluates child predicate p rows
      → First s rows
  unfolding batch
  First-Yields {s} (eos b s' e z) ev = ended (batch child.schema) s' (next-end e z) refl refl
  First-Yields {s} (more {all = total} b s' rows rest e hb pos y split) ev =
      let (er, et) = Evaluates-split rows rest (subst (Evaluates child predicate p) split ev) in
      let one =
        fold-filter_row (batch child.schema) [] rows (Holds-batch child.schema) hb.widths er in
      First-batch s total b s' rows rest one.result (λ f. next-batch f b s' rows e hb pos one.done)
        (ap length split ∙ length-append rows rest) pos (filter p rows) refl one.holds split y et
        (First-Yields y et)

  filter-Yields_bounded :
      (fuel n : ℕ) {s : S} {rows : List (Row F)}
      → First s rows
      → length rows < n
      → length rows < fuel
      → Yields (filter_op child predicate fuel) s (filter p rows)
  filter-Yields_bounded fuel zero y h k = absurd (omega arith)
  filter-Yields_bounded fuel (suc n) (ended b s' e z nothing) h k =
      rw nothing (eos b s' (e fuel k) z)
  filter-Yields_bounded fuel (suc n) (found b s' kept rest e hb pos y ev less split) h k =
      more b s' kept (filter p rest) (e fuel k) hb pos
        (filter-Yields_bounded fuel n (First-Yields y ev) (omega arith) (omega arith)) split

  -- Filter over a child that produces `rows`, on all of which the predicate evaluates, produces the
  -- rows for which it is true, in order; more rounds than there are rows are enough for its loop.
  pub filter-Yields :
      (fuel : ℕ) {s : S} {rows : List (Row F)}
      → Yields child s rows
      → Evaluates child predicate p rows
      → length rows < fuel
      → Yields (filter_op child predicate fuel) s (filter p rows)
  filter-Yields fuel {rows} y ev h =
      filter-Yields_bounded fuel (suc (length rows)) (First-Yields y ev) (omega arith) h
