-- ===== src/Execution/Operator/Limit/Window.antt =====
-- The rows that the counters of Limit let through, as a function of the list of rows.
use lite_query.Prelude.{
  ℕ, zero, suc, ◌-◌, ◌≤◌, ◌<◌, ◌≡◌, refl, sym, ap, ◌∙◌, arith, true, false, List, [], ◌∷◌, ◌++◌,
  take, drop, Bool-cases, inl, inr, if◌then◌else◌, take-nil, drop-nil,
}
use lite_query.Prelude.Int.{ℤ, pos, negsuc, pos_part}
use lite_query.Types.Value.{Row}
use lite_query.Execution.Operator.Limit.{skipping, reached}

module _ {F : Type 0} where
  -- The rows that a limit lets through: all of them if it is negative.
  abbrev pub up_to : ℤ → List (Row F) → List (Row F)
  up_to (pos n) rows = take n rows
  up_to (negsuc n) rows = rows

  abbrev pub remaining : ℤ → ℕ → List (Row F) → List (Row F)
  remaining (pos n) e rows = take (n - e) rows
  remaining (negsuc n) e rows = rows

  remaining-nil : (l : ℤ) (e : ℕ) → remaining l e [] ≡ []
  remaining-nil (pos n) e = take-nil (n - e)
  remaining-nil (negsuc n) e = refl

  remaining-reached :
      (l : ℤ) (e : ℕ) (rows : List (Row F)) → reached l e ≡ true → remaining l e rows ≡ []
  unfolding reached
  remaining-reached (pos n) e rows h =
      let z : n - e ≡ 0 = ground arith in ap (λ (m : ℕ). take m rows) z
  remaining-reached (negsuc n) e rows h = absurd (ground arith)

  remaining-cons :
      (l : ℤ) (e : ℕ) (row : Row F) (rows : List (Row F))
      → reached l e ≡ false
      → remaining l e (row ∷ rows) ≡ row ∷ remaining l (suc e) rows
  unfolding reached
  remaining-cons (pos n) e row rows h =
      let z : n - e ≡ suc (n - suc e) = ground arith in ap (λ (m : ℕ). take m (row ∷ rows)) z
  remaining-cons (negsuc n) e row rows h = refl

skipping→lt : (offset : ℤ) (k : ℕ) → skipping offset k ≡ true → k < pos_part offset
unfolding skipping
skipping→lt offset k h = ground arith

not_skipping→le : (offset : ℤ) (k : ℕ) → skipping offset k ≡ false → pos_part offset ≤ k
unfolding skipping
not_skipping→le offset k h = ground arith

module _ {F : Type 0} (limit offset : ℤ) where
  unfoldable pub pick : ℕ → ℕ → List (Row F) → List (Row F)
  pick e k [] = []
  pick e k (row ∷ rows) =
      if skipping offset k
      then pick e (suc k) rows
      else if reached limit e
      then []
      else row ∷ pick (suc e) k rows

  -- The counters behind those rows.
  unfoldable pub emitted_after : ℕ → ℕ → List (Row F) → ℕ
  emitted_after e k [] = e
  emitted_after e k (row ∷ rows) =
      if skipping offset k
      then emitted_after e (suc k) rows
      else if reached limit e
      then e
      else emitted_after (suc e) k rows

  unfoldable pub skipped_after : ℕ → ℕ → List (Row F) → ℕ
  skipped_after e k [] = k
  skipped_after e k (row ∷ rows) =
      if skipping offset k
      then skipped_after e (suc k) rows
      else if reached limit e
      then k
      else skipped_after (suc e) k rows

  pick-stop :
      (e k : ℕ) (rows : List (Row F))
      → skipping offset k ≡ false
      → reached limit e ≡ true
      → pick e k rows ≡ []
  unfolding pick
  pick-stop e k [] s r = refl
  pick-stop e k (row ∷ rows) s r = rw (s, r)

  -- Two lists in a row: the counters carry over.
  pub pick-append :
      (e k : ℕ) (xs ys : List (Row F))
      → pick e k (xs ++ ys) ≡ pick e k xs ++ pick (emitted_after e k xs) (skipped_after e k xs) ys
  unfolding pick emitted_after skipped_after
  pick-append e k [] ys = refl
  pick-append e k (x ∷ xs) ys = elim (Bool-cases (skipping offset k)) [
    | inl s ↦ rw s (pick-append e (suc k) xs ys)
    | inr s ↦ elim (Bool-cases (reached limit e)) [
      | inl r ↦ rw (s, r) (sym (pick-stop e k ys s r))
      | inr r ↦ rw (s, r) (ap (λ l. x ∷ l) (pick-append (suc e) k xs ys))
    ]
  ]

  -- Past the limit nothing more is picked.
  pub pick-reached : (e k : ℕ) (rows : List (Row F)) → reached limit e ≡ true → pick e k rows ≡ []
  unfolding pick
  pick-reached e k [] r = refl
  pick-reached e k (row ∷ rows) r = elim (Bool-cases (skipping offset k)) [
    | inl s ↦ rw s (pick-reached e (suc k) rows r)
    | inr s ↦ rw (s, r)
  ]

  drop-step :
      (d : ℕ) (row : Row F) (rows : List (Row F)) → 0 < d → drop d (row ∷ rows) ≡ drop (d - 1) rows
  drop-step zero row rows h = absurd (omega arith)
  drop-step (suc d) row rows h = ap (λ (n : ℕ). drop n rows) (omega arith)

  drop_none : (d : ℕ) (rows : List (Row F)) → d ≡ 0 → drop d rows ≡ rows
  drop_none zero rows h = refl
  drop_none (suc d) rows h = absurd (omega arith)

  -- The rows picked are those behind the offset, up to the limit.
  pub pick-window :
      (e k : ℕ) (rows : List (Row F))
      → pick e k rows ≡ remaining limit e (drop (pos_part offset - k) rows)
  unfolding pick
  pick-window e k [] = rw (drop-nil, remaining-nil)
  pick-window e k (row ∷ rows) = elim (Bool-cases (skipping offset k)) [
    | inl s ↦
        rw (s, drop-step (pos_part offset - k) row rows (omega (arith, skipping→lt offset k s)))
          (pick-window e (suc k) rows
            ∙ ap (λ (d : ℕ). remaining limit e (drop d rows)) (omega arith))
    | inr s ↦
        let z : pos_part offset - k ≡ 0 = omega (arith, not_skipping→le offset k s) in
        rw (s, drop_none (pos_part offset - k) (row ∷ rows) z)
          (elim (Bool-cases (reached limit e)) [
            | inl r ↦ rw (r, remaining-reached limit e (row ∷ rows) r)
            | inr r ↦
                rw (r, remaining-cons limit e row rows r)
                  (ap (λ l. row ∷ l)
                    (pick-window (suc e) k rows
                      ∙ ap (remaining limit (suc e)) (drop_none (pos_part offset - k) rows z)))
          ])
  ]
