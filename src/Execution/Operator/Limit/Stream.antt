-- ===== src/Execution/Operator/Limit/Stream.antt =====
-- Limit produces the rows behind the offset, up to the limit.
use lite_query.Prelude.{
  ℕ, zero, suc, ◌+◌, ◌-◌, ◌<◌, ◌≡◌, refl, sym, ap, ap₂, take, ◌∙◌, subst, arith, false, List, [],
  ◌∷◌, ◌++◌, length, drop, Bool-cases, inl, inr, if◌then◌else◌, append_assoc, append-nil,
  length-append, not,
}
use lite_query.Prelude.Int.{ℤ, pos, negsuc, pos_part}
use lite_query.Prelude.Result.{Result, ok}
use lite_query.Types.Value.{Row}
use lite_query.Types.Schema.{Schema}
use lite_query.Types.Batch.{Batch, batch, is_empty}
use lite_query.Types.Batch.Contents.{
  Holds, Widths, Holds-batch, append_row-Holds, extended, get_row-Holds, get_elem?-drop,
}
use lite_query.Execution.Operator.{Operator}
use lite_query.Execution.Operator.Stream.{Yields, eos, more, is_empty-zero, is_empty-cons}
use lite_query.Execution.Operator.Limit.{
  skipping, reached, Progress, LimitState, limit_rows, limit_loop, limit_next, limit_op,
  limit_start,
}
use lite_query.Execution.Operator.Limit.Window.{
  pick, emitted_after, skipped_after, pick-append, pick-reached, pick-window, up_to, remaining,
}

-- What the loop over a batch has done: the rows picked are out, and the counters are behind them.
record Ran {F : Type 0} (s : Schema) (result : Result (Progress F)) (rows : List (Row F)) (e k : ℕ)
    : Type 0 where
  progress : Progress F
  done : result ≡ ok progress
  holds : Holds progress.out s rows
  emitted : progress.emitted ≡ e
  skipped : progress.skipped ≡ k

module _ {F : Type 0} (limit offset : ℤ) where
  limit_rows-Ran :
      {b : Batch F} {s : Schema} (rows todo : List (Row F)) (r : ℕ) (out : List (Row F))
      (a : Progress F)
      → Holds b s rows
      → drop r rows ≡ todo
      → Widths (length s) todo
      → Holds a.out s out
      → Ran s
          (limit_rows limit offset b (length todo) r a)
          (out ++ pick limit offset a.emitted a.skipped todo)
          (emitted_after limit offset a.emitted a.skipped todo)
          (skipped_after limit offset a.emitted a.skipped todo)
  unfolding limit_rows pick emitted_after skipped_after
  limit_rows-Ran rows [] r out a hb e w ha = record {
    progress = a;
    done = refl;
    holds = rw append-nil ha;
    emitted = refl;
    skipped = refl;
  }
  limit_rows-Ran {b} {s} rows (row ∷ todo) r out a hb e w ha =
      elim (Bool-cases (skipping offset a.skipped)) [
        | inl t ↦ rw t (
            limit_rows-Ran rows todo (suc r) out (record a { skipped = suc a.skipped }) hb
              (get_elem?-drop rows r e).1 w.1 ha)
        | inr t ↦ elim (Bool-cases (reached limit a.emitted)) [
          | inl q ↦
              rw (t, q)
                (record {
                  progress = a;
                  done = refl;
                  holds = rw append-nil ha;
                  emitted = refl;
                  skipped = refl;
                })
          | inr q ↦
              let (d, h) = append_row-Holds out row ha w.0 in
              rw
                (
                  t,
                  q,
                  get_row-Holds rows r hb (get_elem?-drop rows r e).0,
                  d,
                  sym (
                      append_assoc out (row ∷ [])
                        (pick limit offset (suc a.emitted) a.skipped todo)),
                )
                (limit_rows-Ran rows todo (suc r) (out ++ row ∷ [])
                  (record a { out = extended a.out s (out ++ row ∷ []); emitted = suc a.emitted })
                  hb (get_elem?-drop rows r e).1 w.1 h)
        ]
      ]

module _ {F S : Type 0} (child : Operator F S) (limit offset : ℤ) where
  -- What the loop of one call finds: nothing more, or a batch, and the child and counters behind it.
  data First (st : LimitState S) (rows : List (Row F)) : Type 0 where
    ended :
        (b : Batch F) (st' : LimitState S)
        → ((f : ℕ) → length rows < f → limit_loop child limit offset f st ≡ ok (b, st'))
        → b.num_rows ≡ 0
        → pick limit offset st.emitted st.skipped rows ≡ []
        → First st rows
    found :
        (b : Batch F) (st' : LimitState S) (kept rest : List (Row F))
        → ((f : ℕ) → length rows < f → limit_loop child limit offset f st ≡ ok (b, st'))
        → Holds b child.schema kept
        → 0 < length kept
        → Yields child st'.child rest
        → length rest < length rows
        → pick limit offset st.emitted st.skipped rows
          ≡ kept ++ pick limit offset st'.emitted st'.skipped rest
        → First st rows

  -- One round of the loop, at a batch that holds rows.
  abbrev after : Progress F → S → LimitState S
  after a s' = record { child = s'; emitted = a.emitted; skipped = a.skipped }

  abbrev Round : LimitState S → S → Progress F → Type 0
  Round st s' a =
      (f : ℕ)
      → limit_loop child limit offset (suc f) st ≡ (
          if not (is_empty a.out)
          then ok (a.out, after a s')
          else if reached limit a.emitted
          then ok (batch child.schema, after a s')
          else limit_loop child limit offset f (after a s'))

  next-batch :
      (st : LimitState S) (b : Batch F) (s' : S) (rows : List (Row F))
      → child.next st.child ≡ ok (b, s')
      → Holds b child.schema rows
      → 0 < length rows
      → (a : Progress F)
      → limit_rows limit offset b
          (length rows)
          0
          (record { out = batch child.schema; emitted = st.emitted; skipped = st.skipped })
        ≡ ok a
      → Round st s' a
  unfolding limit_loop
  next-batch st b s' rows e hb p a h f = rw (e, is_empty-cons rows hb p, hb.count, h)

  next-end :
      (st : LimitState S) {b : Batch F} {s' : S}
      → child.next st.child ≡ ok (b, s')
      → b.num_rows ≡ 0
      → (f : ℕ) → 0 < f
      → limit_loop child limit offset f st ≡ ok (batch child.schema, record st { child = s' })
  unfolding limit_loop
  next-end st e z zero h = absurd (omega arith)
  next-end st {b} e z (suc f) h = rw (e, is_empty-zero b z)

  module _ (st : LimitState S) (all rows rest : List (Row F)) (s' : S) (a : Progress F)
      (round : Round st s' a) (fits : length all ≡ length rows + length rest)
      (some_rows : 0 < length rows)
      (later : pick limit offset st.emitted st.skipped all
        ≡ pick limit offset st.emitted st.skipped rows
          ++ pick limit offset a.emitted a.skipped rest) where
    at_round :
        {r : Result (Batch F × LimitState S)}
        → ((f : ℕ)
            → length rest < f
            → (if not (is_empty a.out)
                then ok (a.out, after a s')
                else if reached limit a.emitted
                then ok (batch child.schema, after a s')
                else limit_loop child limit offset f (after a s'))
              ≡ r)
        → (f : ℕ) → length all < f
        → limit_loop child limit offset f st ≡ r
    at_round k zero h = absurd (omega arith)
    at_round k (suc f) h = round f ∙ k f (omega arith)

    First-batch :
        (kept : List (Row F))
        → pick limit offset st.emitted st.skipped rows ≡ kept
        → Holds a.out child.schema kept
        → Yields child s' rest
        → First (after a s') rest
        → First st all
    unfolding batch
    First-batch (x ∷ kept) k hold y ih =
        found a.out (after a s') (x ∷ kept) rest
          (at_round (λ f h. rw (is_empty-cons (x ∷ kept) hold (omega arith)))) hold (omega arith) y
          (omega arith) (later ∙ rw k)
    First-batch [] k hold y ih = elim (Bool-cases (reached limit a.emitted)) [
      | inl q ↦
          ended (batch child.schema) (after a s')
            (at_round (λ f h. rw (is_empty-zero a.out hold.count, q))) refl
            (later ∙ rw (k, pick-reached limit offset a.emitted a.skipped rest q))
      | inr q ↦ First-skip q ih
    ]
      where
        First-skip : reached limit a.emitted ≡ false → First (after a s') rest → First st all
        First-skip q (ended b2 st2 e2 z2 nothing) =
            ended b2 st2 (at_round (λ f h. rw (is_empty-zero a.out hold.count, q) (e2 f h))) z2
              (later ∙ rw (k, nothing))
        First-skip q (found b2 st2 kept2 rest2 e2 hb2 pos2 y2 less2 split2) =
            found b2 st2 kept2 rest2
              (at_round (λ f h. rw (is_empty-zero a.out hold.count, q) (e2 f h))) hb2 pos2 y2
              (omega arith) (later ∙ rw k split2)

  First-Yields :
      (e k : ℕ) {s : S} {rows : List (Row F)}
      → Yields child s rows
      → First (record { child = s; emitted = e; skipped = k }) rows
  unfolding batch
  First-Yields e k {s} (eos b s' q z) =
      ended (batch child.schema) (record { child = s'; emitted = e; skipped = k })
        (next-end (record { child = s; emitted = e; skipped = k }) q z) refl (unfold pick in refl)
  First-Yields e k {s} (more {all = total} b s' rows rest q hb p y split) =
      let st : LimitState S = record { child = s; emitted = e; skipped = k } in
      let run =
        limit_rows-Ran limit offset rows rows 0 []
          (record { out = batch child.schema; emitted = e; skipped = k }) hb refl hb.widths
          (Holds-batch child.schema) in
      First-batch st total rows rest s' run.progress
        (next-batch st b s' rows q hb p run.progress run.done)
        (ap length split ∙ length-append rows rest) p
        (rw (split, run.emitted, run.skipped) (pick-append limit offset e k rows rest))
        (pick limit offset e k rows) refl run.holds y
        (First-Yields run.progress.emitted run.progress.skipped y)

  -- A call that has not reached the limit, where what follows it is known.
  call-Yields :
      (fuel n : ℕ) {st : LimitState S} {rows : List (Row F)}
      → ((st' : LimitState S) (rest : List (Row F))
          → Yields child st'.child rest
          → length rest < n
          → length rest < fuel
          → Yields
              (limit_op child limit offset fuel)
              st'
              (pick limit offset st'.emitted st'.skipped rest))
      → First st rows
      → reached limit st.emitted ≡ false
      → length rows < suc n
      → length rows < fuel
      → Yields (limit_op child limit offset fuel) st (pick limit offset st.emitted st.skipped rows)
  unfolding limit_next
  call-Yields fuel n ih (ended b st' e z nothing) r h q =
      rw nothing (eos b st' (rw (r, e fuel q)) z)
  call-Yields fuel n ih (found b st' kept rest e hb p y less split) r h q =
      more b st' kept (pick limit offset st'.emitted st'.skipped rest) (rw (r, e fuel q)) hb p
        (ih st' rest y (omega arith) (omega arith)) split

  limit-Yields_bounded :
      (fuel n : ℕ) (st : LimitState S) (rows : List (Row F))
      → Yields child st.child rows
      → length rows < n
      → length rows < fuel
      → Yields (limit_op child limit offset fuel) st (pick limit offset st.emitted st.skipped rows)
  unfolding limit_next batch
  limit-Yields_bounded fuel zero st rows y h q = absurd (omega arith)
  limit-Yields_bounded fuel (suc n) st rows y h q = elim (Bool-cases (reached limit st.emitted)) [
    | inl r ↦
        rw (pick-reached limit offset st.emitted st.skipped rows r)
          (eos (batch child.schema) st (rw r) refl)
    | inr r ↦
        call-Yields fuel n (λ st' rest y' h' q'. limit-Yields_bounded fuel n st' rest y' h' q')
          (First-Yields st.emitted st.skipped y) r h q
  ]

  -- Limit over a child that produces `rows` produces the rows behind the first `offset` ones, at most
  -- `limit` of them; all, if `limit` is negative. More rounds than there are rows are enough.
  pub limit-Yields :
      (fuel : ℕ) (s : S) (rows : List (Row F))
      → Yields child s rows
      → length rows < fuel
      → Yields
          (limit_op child limit offset fuel)
          (limit_start child limit offset s)
          (up_to limit (drop (pos_part offset) rows))
  limit-Yields fuel s rows y h =
      subst (Yields (limit_op child limit offset fuel) (limit_start child limit offset s))
        (pick-window limit offset 0 0 rows ∙ at_start limit)
        (limit-Yields_bounded fuel (suc (length rows)) (limit_start child limit offset s) rows y
          (omega arith) h)
    where
      at_start :
          (l : ℤ)
          → remaining l 0 (drop (pos_part offset - 0) rows) ≡ up_to l (drop (pos_part offset) rows)
      at_start (negsuc n) = ap (λ (d : ℕ). drop d rows) (omega arith)
      at_start (pos n) = ap₂ (λ (d m : ℕ). take m (drop d rows)) (omega arith) (omega arith)
