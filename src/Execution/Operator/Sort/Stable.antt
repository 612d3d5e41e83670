-- ===== src/Execution/Operator/Sort/Stable.antt =====
-- std::stable_sort, as Sort uses it: by a strict weak ordering it gives a stable rearrangement in order.
use mathlib.Core.List.{Perm}
use mathlib.Core.List.Perm
use lite_query.Prelude.{
  All, subst, and_true, ◌≡◌, refl, sym, ◌∙◌, Bool, true, false, false≢true, not, ◌&&◌, Bool-cases,
  inl, inr, List, [], ◌∷◌, filter,
}
use lite_query.Prelude.Result.{>>=-eq-ok, ok-injective, Result, ok}
use lite_query.Execution.Operator.Sort.{insert_stable, stable_sort}

-- The comparator answers as `lt` does on the rows that P holds of, and `lt` is a strict weak ordering
-- of those.
pub record Ordering {ℓ} {A : Type ℓ} (P : A → Type ℓ) (less : A → A → Result Bool)
    (lt : A → A → Bool) : Type ℓ where
  pub answers : (a b : A) → P a → P b → less a b ≡ ok (lt a b)
  pub asymmetric : (a b : A) → P a → P b → lt a b ≡ true → lt b a ≡ false
  -- incomparability carries over: what is not less than what is not less is not less
  pub cotransitive :
      (a b c : A) → P a → P b → P c → lt a b ≡ false → lt b c ≡ false → lt a c ≡ false

-- Neither is less than the other.
abbrev pub tied {ℓ} : {A : Type ℓ} → (A → A → Bool) → A → A → Bool
tied lt a b = not (lt a b) && not (lt b a)

abbrev pub Above {ℓ} : {A : Type ℓ} → (A → A → Bool) → A → List A → Type 0
Above lt x [] = Unit {0}
Above lt x (y ∷ ys) = (lt y x ≡ false) × Above lt x ys

-- No row is less than one before it.
abbrev pub Ascending {ℓ} : {A : Type ℓ} → (A → A → Bool) → List A → Type 0
Ascending lt [] = Unit {0}
Ascending lt (x ∷ xs) = Above lt x xs × Ascending lt xs

-- A rearrangement in order, in which tied rows keep their order.
pub record StablySorted {ℓ} {A : Type ℓ} (P : A → Type ℓ) (lt : A → A → Bool) (rows out : List A)
    : Type ℓ where
  pub perm : Perm out rows
  pub ascending : Ascending lt out
  pub stable : (z : A) → P z → filter (tied lt z) out ≡ filter (tied lt z) rows

not_true : (b : Bool) → not b ≡ true → b ≡ false
not_true true h = absurd (false≢true h)
not_true false h = refl

module _ {ℓ κ} {A : Type ℓ} (Q : A → Type κ) (less : A → A → Result Bool) where
  insert_stable-All :
      (x : A) (l out : List A) → Q x → All Q l → insert_stable less x l ≡ ok out → All Q out
  unfolding insert_stable
  insert_stable-All x [] out qx ql e = subst (All Q) (ok-injective e) (qx, ql)
  insert_stable-All x (y ∷ l) out qx ql e =
      let (b, decided, k) = >>=-eq-ok (less y x) _ e in
      elim (Bool-cases b) [
        | inl t ↦
            let (rest, put, q) = >>=-eq-ok (insert_stable less x l) _ (rw t at k) in
            subst (All Q) (ok-injective q) (ql.0, insert_stable-All x l rest qx ql.1 put)
        | inr f ↦ subst (All Q) (ok-injective (rw f at k)) (qx, ql)
      ]

  -- Whatever holds of all rows holds of all rows sorted.
  pub stable_sort-All :
      (rows out : List A) → All Q rows → stable_sort less rows ≡ ok out → All Q out
  unfolding stable_sort
  stable_sort-All [] out q e = subst (All Q) (ok-injective e) q
  stable_sort-All (x ∷ rows) out q e =
      let (sorted, first, k) = >>=-eq-ok (stable_sort less rows) _ e in
      insert_stable-All x sorted out q.0 (stable_sort-All rows sorted q.1 first) k

module _ {ℓ} {A : Type ℓ} (P : A → Type ℓ) (less : A → A → Result Bool) (lt : A → A → Bool)
    (o : Ordering P less lt) where
  Above-trans :
      (x y : A) (l : List A) → P x → P y → All P l → lt y x ≡ false → Above lt y l → Above lt x l
  Above-trans x y [] px py pl h a = tt
  Above-trans x y (z ∷ l) px py pl h a =
      (o.cotransitive z y x pl.0 py px a.0 h, Above-trans x y l px py pl.1 h a.1)

  -- A row that is less than x is not tied with what x is tied with.
  tied-apart :
      (x y z : A) → P x → P y → P z → lt y x ≡ true → tied lt z x ≡ true → tied lt z y ≡ false
  tied-apart x y z px py pz h t = elim (Bool-cases (lt z y)) [
    | inl e ↦ rw e refl
    | inr e ↦ elim (Bool-cases (lt y z)) [
      | inl f ↦ rw (e, f) refl
      | inr f ↦
          let below : lt z x ≡ false =
            not_true (lt z x) (and_true (not (lt z x)) (not (lt x z)) t).0 in
          absurd (false≢true (sym (o.cotransitive y z x py pz px f below) ∙ h))
    ]
  ]

  record Insertion (x : A) (l : List A) (out : Result (List A)) : Type ℓ where
    pub result : List A
    pub done : out ≡ ok result
    pub perm : Perm result (x ∷ l)
    pub all : All P result
    pub above : (w : A) → P w → lt x w ≡ false → Above lt w l → Above lt w result
    pub ascending : Ascending lt result
    pub stable : (z : A) → P z → filter (tied lt z) result ≡ filter (tied lt z) (x ∷ l)

  insert_stable-Insertion :
      (x : A) (l : List A) → P x → All P l → Ascending lt l → Insertion x l (insert_stable less x l)
  unfolding insert_stable
  insert_stable-Insertion x [] px pl s = record {
    result = x ∷ [];
    done = refl;
    perm = Perm.rfl;
    all = (px, pl);
    above = λ w pw h a. (h, tt);
    ascending = (tt, tt);
    stable = λ z pz. refl;
  }
  insert_stable-Insertion x (y ∷ l) px pl s = elim (Bool-cases (lt y x)) [
    | inl h ↦
        let ih = insert_stable-Insertion x l px pl.1 s.1 in
        record {
          result = y ∷ ih.result;
          done = rw (o.answers y x pl.0 px, h, ih.done) refl;
          perm = Perm.trans (Perm.cons y ih.perm) (Perm.swap x y l);
          all = (pl.0, ih.all);
          above = λ w pw q a. (a.0, ih.above w pw q a.1);
          ascending = (ih.above y pl.0 (o.asymmetric y x pl.0 px h) s.0, ih.ascending);
          stable = λ z pz. elim (Bool-cases (tied lt z x)) [
            | inl t ↦ rw (t, tied-apart x y z px pl.0 pz h t) (rw t at (ih.stable z pz))
            | inr t ↦ rw (t, rw t at (ih.stable z pz)) refl
          ];
        }
    | inr h ↦ record {
      result = x ∷ y ∷ l;
      done = rw (o.answers y x pl.0 px, h) refl;
      perm = Perm.rfl;
      all = (px, pl);
      above = λ w pw q a. (q, a);
      ascending = ((h, Above-trans x y l px pl.0 pl.1 h s.0), s);
      stable = λ z pz. refl;
    }
  ]

  filter-cons :
      (p : A → Bool) (x : A) (l m : List A)
      → filter p l ≡ filter p m
      → filter p (x ∷ l) ≡ filter p (x ∷ m)
  filter-cons p x l m h = rw h refl

  pub record Sorting (rows : List A) (out : Result (List A)) : Type ℓ where
    pub result : List A
    pub done : out ≡ ok result
    pub all : All P result
    pub sorted : StablySorted P lt rows result

  -- By a strict weak ordering the sort ends without an exception, with a rearrangement of the rows in
  -- order, in which tied rows keep their order.
  pub stable_sort-StablySorted : (rows : List A) → All P rows → Sorting rows (stable_sort less rows)
  unfolding stable_sort
  stable_sort-StablySorted [] h = record {
    result = [];
    done = refl;
    all = h;
    sorted = record { perm = Perm.rfl; ascending = tt; stable = λ z pz. refl };
  }
  stable_sort-StablySorted (x ∷ rows) h =
      let tail = stable_sort-StablySorted rows h.1 in
      let put = insert_stable-Insertion x tail.result h.0 tail.all tail.sorted.ascending in
      record {
        result = put.result;
        done = rw tail.done put.done;
        all = put.all;
        sorted = record {
          perm = Perm.trans put.perm (Perm.cons x tail.sorted.perm);
          ascending = put.ascending;
          stable = λ z pz.
              put.stable z pz
              ∙ filter-cons (tied lt z) x tail.result rows (tail.sorted.stable z pz);
        };
      }
