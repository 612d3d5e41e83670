-- ===== src/Execution/Like/Matching.antt =====
-- What it means for a text to match a LIKE pattern, with no search order in it.
use lite_query.Prelude.{
  ℕ, ◌≡◌, ◌≢◌, refl, ◌⊎◌, ◌↔◌, inl, inr, Bool, true, false, arith, ◌==◌, Bytes, [], ◌∷◌, Bool-cases,
}
use lite_query.Execution.Like.{norm, only_percent}

module _ (ci : Bool) where
  -- A pattern byte that is not `%` stands for this byte.
  abbrev pub Accepts : ℕ → ℕ → Type 0
  Accepts x c = (x ≡ b'_') ⊎ (norm ci x ≡ norm ci c)

  -- `_` is any byte, `%` any run of bytes, and any other byte itself, up to case if `ci` is set.
  pub data Likes : Bytes → Bytes → Type 0 where
    done : Likes [] []
    char : {x c : ℕ} {p s : Bytes} → x ≢ b'%' → Accepts x c → Likes p s → Likes (x ∷ p) (c ∷ s)
    leave : {x : ℕ} {p s : Bytes} → x ≡ b'%' → Likes p s → Likes (x ∷ p) s
    take : {x c : ℕ} {p s : Bytes} → x ≡ b'%' → Likes (x ∷ p) s → Likes (x ∷ p) (c ∷ s)

  pub char_inv :
      {x c : ℕ} {p s : Bytes} → x ≢ b'%' → Likes (x ∷ p) (c ∷ s) → Accepts x c × Likes p s
  char_inv n (char ne a d) = (a, d)
  char_inv n (leave e d) = absurd (n e)
  char_inv n (take e d) = absurd (n e)

  pub star_at_end : {x : ℕ} {p : Bytes} → Likes (x ∷ p) [] → Likes p []
  star_at_end (leave e d) = d

  pub must_take :
      {x c : ℕ} {p s : Bytes}
      → x ≡ b'%'
      → Likes (x ∷ p) (c ∷ s)
      → ¬ Likes p (c ∷ s)
      → Likes (x ∷ p) s
  must_take e (char ne a d) n = absurd (ne e)
  must_take e (leave _ d) n = absurd (n d)
  must_take e (take _ d) n = d

  pub two_stars :
      {x y : ℕ} {p s : Bytes} → x ≡ b'%' → y ≡ b'%' → Likes (x ∷ y ∷ p) s → Likes (y ∷ p) s
  two_stars ex ey (char ne a d) = absurd (ne ex)
  two_stars ex ey (leave _ d) = d
  two_stars ex ey (take _ d) = take ey (two_stars ex ey d)

  -- Behind a `%` the greedy choice loses nothing.
  pub drop_char :
      {x y c : ℕ} {p : Bytes} (s : Bytes)
      → x ≡ b'%'
      → y ≢ b'%'
      → Likes (x ∷ y ∷ p) (c ∷ s)
      → Likes (x ∷ p) s
  drop_char s ex ny (char ne a d) = absurd (ne ex)
  drop_char s ex ny (leave e d) = leave e (char_inv ny d).1
  drop_char [] ex ny (take e d) = absurd (no_end ny (star_at_end d))
    where
      no_end : {y : ℕ} {p : Bytes} → y ≢ b'%' → ¬ Likes (y ∷ p) []
      no_end n (leave e d) = n e
  drop_char (c ∷ s) ex ny (take e d) = take e (drop_char s ex ny d)

  -- The byte test of the code is sound: a `%` that it takes literally is a run of one byte.
  pub accepted : {x c : ℕ} {p s : Bytes} → Accepts x c → Likes p s → Likes (x ∷ p) (c ∷ s)
  accepted {x} a d = elim (Bool-cases (x == b'%')) [
    | inl e ↦ take (omega (arith, percent x e)) (leave (percent x e) d)
    | inr e ↦ char (not_percent x e) a d
  ]
    where
      percent : (x : ℕ) → (x == b'%') ≡ true → x ≡ b'%'
      percent x e = ground arith

      not_percent : (x : ℕ) → (x == b'%') ≡ false → x ≢ b'%'
      not_percent x e = ground arith

  only_percent→Likes : (p : Bytes) → only_percent p ≡ true → Likes p []
  unfolding only_percent
  only_percent→Likes [] h = done
  only_percent→Likes (x ∷ p) h = elim (Bool-cases (x == b'%')) [
    | inl e ↦ leave (ground arith) (only_percent→Likes p (rw e at h))
    | inr e ↦ cc
  ]

  Likes→only_percent : {p : Bytes} → Likes p [] → only_percent p ≡ true
  unfolding only_percent
  Likes→only_percent done = refl
  Likes→only_percent (leave e d) = rw e (Likes→only_percent d)

  pub only_percent_iff : (p : Bytes) → (only_percent p ≡ true) ↔ Likes p []
  only_percent_iff p = (only_percent→Likes p, Likes→only_percent)
