-- ===== src/Execution/Operator/Join/Pairs.antt =====
-- src/execution/physical_plan.cpp, HashJoin::computeResult: what the rows of a join are, by the
-- relation that its condition decides, and that the loops find them.
use lite_query.Prelude.{
  ℕ, zero, suc, ◌≡◌, refl, sym, ap, ◌∙◌, arith, Bool, true, false, not, ◌||◌, List, [], ◌∷◌, ◌++◌,
  map, length, replicate, set, filter, append_assoc, append-nil, length-append, if◌then◌else◌,
  Bool-cases, inl, inr,
}
use lite_query.Prelude.Result.{Result, ok}
use lite_query.Types.Value.{Row, null}
use lite_query.Parser.Ast.{JoinType}
use lite_query.Execution.Operator.Join.{
  null, keeps_left, keeps_right, null_row, probe_right, probe_left, emit_unmatched, join_rows,
}

abbrev pub any {ℓ} : {A : Type ℓ} → (A → Bool) → List A → Bool
any p [] = false
any p (x ∷ xs) = p x || any p xs

-- What stands for the side that has no row.
unfoldable pub nulls : {F : Type 0} → ℕ → Row F
nulls zero = []
nulls (suc n) = null ∷ nulls n

module _ {F : Type 0} (matches : Row F → Row F → Bool) where
  -- The rows for one left row: itself beside each of its matches; in an outer join beside NULLs, when
  -- there are none.
  unfoldable pub pairs_of : Bool → ℕ → List (Row F) → Row F → List (Row F)
  unfolding nulls
  pairs_of outer rcols right_rows l =
      map (λ r. l ++ r) (filter (matches l) right_rows)
      ++ (if any (matches l) right_rows then [] else if outer then (l ++ nulls rcols) ∷ [] else [])

  unfoldable pub all_pairs : Bool → ℕ → List (Row F) → List (Row F) → List (Row F)
  unfolding pairs_of
  all_pairs outer rcols right_rows [] = []
  all_pairs outer rcols right_rows (l ∷ rows) =
      pairs_of outer rcols right_rows l ++ all_pairs outer rcols right_rows rows

  -- The right rows that none of the left rows matches, beside NULLs.
  unfoldable pub unmatched_pairs : ℕ → List (Row F) → List (Row F) → List (Row F)
  unfolding nulls
  unmatched_pairs lcols left_rows right_rows =
      map (λ r. nulls lcols ++ r) (filter (λ r. not (any (λ l. matches l r) left_rows)) right_rows)

  -- The join of two lists of rows, by its type.
  unfoldable pub join_spec : JoinType → ℕ → ℕ → List (Row F) → List (Row F) → List (Row F)
  unfolding all_pairs unmatched_pairs
  join_spec JoinType.inner lcols rcols ls rs = all_pairs false rcols rs ls
  join_spec JoinType.cross lcols rcols ls rs = all_pairs false rcols rs ls
  join_spec JoinType.left lcols rcols ls rs = all_pairs true rcols rs ls
  join_spec JoinType.right lcols rcols ls rs =
      all_pairs false rcols rs ls ++ unmatched_pairs lcols ls rs
  join_spec JoinType.full lcols rcols ls rs =
      all_pairs true rcols rs ls ++ unmatched_pairs lcols ls rs

null_row-nulls : (F : Type 0) (n : ℕ) → null_row {F = F} n ≡ nulls n
unfolding null_row nulls
null_row-nulls F zero = refl
null_row-nulls F (suc n) = ap (λ k. null ∷ k) (null_row-nulls F n)

-- The condition decides the relation on a left row and right rows, and on two lists of rows.
abbrev pub DecidesRow :
    {F : Type 0}
    → (Row F → Row F → Result Bool)
    → (Row F → Row F → Bool)
    → Row F
    → List (Row F)
    → Type 0
DecidesRow test matches l [] = Unit {0}
DecidesRow test matches l (r ∷ rows) =
    (test l r ≡ ok (matches l r)) × DecidesRow test matches l rows

abbrev pub Decides :
    {F : Type 0}
    → (Row F → Row F → Result Bool)
    → (Row F → Row F → Bool)
    → List (Row F)
    → List (Row F)
    → Type 0
Decides test matches [] right_rows = Unit {0}
Decides test matches (l ∷ rows) right_rows =
    DecidesRow test matches l right_rows × Decides test matches rows right_rows

or_true : (b : Bool) → (b || true) ≡ true
or_true true = refl
or_true false = refl

or_false : (b : Bool) → (b || false) ≡ b
or_false true = refl
or_false false = refl

ap₃ {ℓ} :
    {A B C D : Type ℓ} (f : A → B → C → D) {a a' : A} {b b' : B} {c c' : C}
    → a ≡ a'
    → b ≡ b'
    → c ≡ c'
    → f a b c ≡ f a' b' c'
ap₃ f p q r = cc

set-middle {ℓ} :
    {A : Type ℓ} (xs : List A) (y v : A) (ys : List A)
    → set (xs ++ y ∷ ys) (length xs) v ≡ xs ++ v ∷ ys
set-middle [] y v ys = refl
set-middle (x ∷ xs) y v ys = ap (λ l. x ∷ l) (set-middle xs y v ys)

any-snoc {ℓ} :
    {A : Type ℓ} (p : A → Bool) (xs : List A) (y : A) → any p (xs ++ y ∷ []) ≡ (any p xs || p y)
any-snoc p [] y = elim (Bool-cases (p y)) [ inl e ↦ rw e refl | inr e ↦ rw e refl ]
any-snoc p (x ∷ xs) y = elim (Bool-cases (p x)) [
  | inl e ↦ rw e refl
  | inr e ↦ rw e (any-snoc p xs y)
]

module _ {F : Type 0} (test : Row F → Row F → Result Bool) (matches : Row F → Row F → Bool) where
  -- `rightMatched_` once the left rows `ls` are probed.
  abbrev marks : List (Row F) → List (Row F) → List Bool
  marks ls right_rows = map (λ r. any (λ l. matches l r) ls) right_rows

  marks-none :
      (right_rows : List (Row F)) → replicate (length right_rows) false ≡ marks [] right_rows
  marks-none [] = refl
  marks-none (r ∷ rows) = ap (λ l. false ∷ l) (marks-none rows)

  probe_right_lem :
      (done : List (Row F)) (l : Row F) (rows : List (Row F)) (before : List Bool) (ri : ℕ)
      (result : List (Row F)) (hit : Bool)
      → DecidesRow test matches l rows
      → length before ≡ ri
      → probe_right test l rows ri (record {
        result = result;
        left_matched = hit;
        right_matched = before ++ marks done rows;
      })
        ≡ ok (record {
          result = result ++ map (λ r. l ++ r) (filter (matches l) rows);
          left_matched = hit || any (matches l) rows;
          right_matched = before ++ marks (done ++ l ∷ []) rows;
        })
  unfolding probe_right
  probe_right_lem done l [] before ri result hit d e = elim (Bool-cases hit) [
    | inl h ↦ rw (h, append-nil result)
    | inr h ↦ rw (h, append-nil result)
  ]
  probe_right_lem done l (r ∷ rows) before ri result hit d e =
      let m : Bool = any (λ k. matches k r) done in
      let next : (b : Bool) → length (before ++ b ∷ []) ≡ suc ri =
        λ b. omega (arith, length-append before (b ∷ []), e) in
      let later = marks (done ++ l ∷ []) rows in
      elim (Bool-cases (matches l r)) [
        | inl h ↦
            let ih =
              probe_right_lem done l rows (before ++ true ∷ []) (suc ri) (result ++ (l ++ r) ∷ [])
                true d.1 (next true) in
            let there : set (before ++ m ∷ marks done rows) ri true
                ≡ (before ++ true ∷ []) ++ marks done rows =
              rw (sym e) (
                set-middle before m true (marks done rows)
                ∙ sym (append_assoc before (true ∷ []) (marks done rows))) in
            rw (d.0, h, there, ih)
              (ap₃ (λ a b c. ok (record { result = a; left_matched = b; right_matched = c }))
                (append_assoc result ((l ++ r) ∷ []) (map (λ k. l ++ k) (filter (matches l) rows)))
                (sym (or_true hit))
                (append_assoc before (true ∷ []) later
                  ∙ ap (λ b. before ++ b ∷ later)
                      (sym (any-snoc (λ k. matches k r) done l ∙ rw h (or_true m)))))
        | inr h ↦
            let ih =
              probe_right_lem done l rows (before ++ m ∷ []) (suc ri) result hit d.1 (next m) in
            rw (d.0, h, sym (append_assoc before (m ∷ []) (marks done rows)), ih)
              (ap₃ (λ a b c. ok (record { result = a; left_matched = b; right_matched = c })) refl
                refl
                (append_assoc before (m ∷ []) later
                  ∙ ap (λ b. before ++ b ∷ later)
                      (sym (any-snoc (λ k. matches k r) done l ∙ rw h (or_false m)))))
      ]

module _ {F : Type 0} (test : Row F → Row F → Result Bool) (matches : Row F → Row F → Bool)
    (kind : JoinType) (rcols : ℕ) (right_rows : List (Row F)) where
  -- What the outer loop does behind the inner one.
  pairs-pick :
      (l : Row F) (result : List (Row F)) (pairs : List (Row F)) (found keeps : Bool)
      → (if found
          then result ++ pairs
          else if keeps
          then (result ++ pairs) ++ (l ++ null_row rcols) ∷ []
          else result ++ pairs)
        ≡ result ++ (pairs ++ (if found then [] else if keeps then (l ++ nulls rcols) ∷ [] else []))
  pairs-pick l result pairs true keeps = ap (λ k. result ++ k) (sym (append-nil pairs))
  pairs-pick l result pairs false true =
      rw (null_row-nulls F rcols) (append_assoc result pairs ((l ++ nulls rcols) ∷ []))
  pairs-pick l result pairs false false = ap (λ k. result ++ k) (sym (append-nil pairs))

  probe_left_lem :
      (done rows : List (Row F)) (result : List (Row F))
      → Decides test matches rows right_rows
      → probe_left test kind rcols right_rows rows result (marks test matches done right_rows)
        ≡ ok (
          result ++ all_pairs matches (keeps_left kind) rcols right_rows rows,
          marks test matches (done ++ rows) right_rows,
        )
  unfolding probe_left all_pairs pairs_of
  probe_left_lem done [] result d = rw (append-nil result, append-nil done)
  probe_left_lem done (l ∷ rows) result d =
      let found = any (matches l) right_rows in
      let pairs = map (λ r. l ++ r) (filter (matches l) right_rows) in
      let tail = if found then [] else if keeps_left kind then (l ++ nulls rcols) ∷ [] else [] in
      let inner = probe_right_lem test matches done l right_rows [] 0 result false d.0 refl in
      let ih = probe_left_lem (done ++ l ∷ []) rows (result ++ (pairs ++ tail)) d.1 in
      rw (inner, pairs-pick l result pairs found (keeps_left kind), ih)
        (ap₃ (λ a b (c : Unit {0}). ok (a, b))
          (append_assoc result (pairs ++ tail)
            (all_pairs matches (keeps_left kind) rcols right_rows rows))
          (ap (λ k. marks test matches k right_rows) (append_assoc done (l ∷ []) rows)) refl)

module _ {F : Type 0} (matches : Row F → Row F → Bool) (lcols : ℕ) (left_rows : List (Row F)) where
  emit_unmatched_lem :
      (right_rows result : List (Row F))
      → emit_unmatched lcols right_rows
          (map (λ r. any (λ l. matches l r) left_rows) right_rows)
          result
        ≡ ok (result ++ unmatched_pairs matches lcols left_rows right_rows)
  unfolding emit_unmatched unmatched_pairs
  emit_unmatched_lem [] result = rw (append-nil result)
  emit_unmatched_lem (r ∷ rows) result = elim (Bool-cases (any (λ l. matches l r) left_rows)) [
    | inl e ↦ rw e (emit_unmatched_lem rows result)
    | inr e ↦
        rw (e, null_row-nulls F lcols)
          (emit_unmatched_lem rows (result ++ (nulls lcols ++ r) ∷ [])
            ∙ ap ok (
                append_assoc result ((nulls lcols ++ r) ∷ [])
                  (unmatched_pairs matches lcols left_rows rows)))
  ]

module _ {F : Type 0} (test : Row F → Row F → Result Bool) (matches : Row F → Row F → Bool) where
  -- What the loops find of a join that keeps no unmatched right row, and of one that does.
  without :
      (kind : JoinType) (lcols rcols : ℕ) (ls rs : List (Row F))
      → Decides test matches ls rs
      → keeps_right kind ≡ false
      → join_rows test kind lcols rcols ls rs ≡ ok (all_pairs matches (keeps_left kind) rcols rs ls)
  unfolding join_rows
  without kind lcols rcols ls rs d e =
      rw (marks-none test matches rs, probe_left_lem test matches kind rcols rs [] ls [] d, e) refl

  with_unmatched :
      (kind : JoinType) (lcols rcols : ℕ) (ls rs : List (Row F))
      → Decides test matches ls rs
      → keeps_right kind ≡ true
      → join_rows test kind lcols rcols ls rs
        ≡ ok
            (all_pairs matches (keeps_left kind) rcols rs ls ++ unmatched_pairs matches lcols ls rs)
  unfolding join_rows
  with_unmatched kind lcols rcols ls rs d e =
      rw (marks-none test matches rs, probe_left_lem test matches kind rcols rs [] ls [] d, e)
        (emit_unmatched_lem matches lcols ls rs (all_pairs matches (keeps_left kind) rcols rs ls))

  -- Where the condition decides a relation on the pairs of rows, the loops find exactly the rows of
  -- the join by that relation, in order: the pairs of related rows, for LEFT and FULL with the left
  -- rows that have no partner among them, and for RIGHT and FULL with such right rows behind them.
  pub join_rows-join_spec :
      (kind : JoinType) (lcols rcols : ℕ) (left_rows right_rows : List (Row F))
      → Decides test matches left_rows right_rows
      → join_rows test kind lcols rcols left_rows right_rows
        ≡ ok (join_spec matches kind lcols rcols left_rows right_rows)
  unfolding join_spec keeps_left keeps_right
  join_rows-join_spec JoinType.inner lcols rcols ls rs d =
      without JoinType.inner lcols rcols ls rs d refl
  join_rows-join_spec JoinType.left lcols rcols ls rs d =
      without JoinType.left lcols rcols ls rs d refl
  join_rows-join_spec JoinType.right lcols rcols ls rs d =
      with_unmatched JoinType.right lcols rcols ls rs d refl
  join_rows-join_spec JoinType.full lcols rcols ls rs d =
      with_unmatched JoinType.full lcols rcols ls rs d refl
  join_rows-join_spec JoinType.cross lcols rcols ls rs d =
      without JoinType.cross lcols rcols ls rs d refl
