-- ===== src/Execution/Like/Decision.antt =====
-- likeMatch stops within its fuel; what it accepts matches, and on a text with no `%` byte it accepts
-- whatever matches.
use lite_query.Prelude.{
  ℕ, zero, suc, ◌+◌, ◌*◌, ◌≤◌, ◌<◌, ◌≡◌, ◌≢◌, refl, sym, subst, ap, ◌∙◌, ◌-◌, ◌↔◌, inl, inr, Bool,
  true, false, ◌||◌, arith, ◌==◌, Bytes, none, some, [], ◌∷◌, length, Bool-cases, false≢true,
}
use lite_query.Prelude.Result.{Result, ok, err}
use lite_query.Types.Schema.{to_lower}
use lite_query.Execution.Like.{norm, Star, Round, retry, only_percent, like_loop, like_match}
use lite_query.Execution.Like.Matching.{
  Accepts, Likes, leave, take, char_inv, star_at_end, must_take, two_stars, drop_char, accepted,
  only_percent_iff,
}

-- The text holds no `%` byte.
abbrev pub NoPercent : Bytes → Type 0
NoPercent [] = Unit {0}
NoPercent (c ∷ s) = (c ≢ b'%') × NoPercent s

-- The run ended with an answer; `true` proves G, and under C `false` refutes it.
abbrev pub Decides : Type 0 → Type 0 → Result Bool → Type 0
Decides C G (ok true) = G
Decides C G (ok false) = C → ¬ G
Decides C G (err e) = ⊥

ok-Decides : (C G : Type 0) (b : Bool) → (b ≡ true → G) → (C → G → b ≡ true) → Decides C G (ok b)
ok-Decides C G true s k = s refl
ok-Decides C G false s k = λ c g. false≢true (k c g)

Accepts-test :
    (ci : Bool) (x c : ℕ) → ((x == b'_') || (norm ci x == norm ci c)) ≡ true → Accepts ci x c
Accepts-test ci x c h = ground arith

refuses_test :
    (ci : Bool) (x c : ℕ) → ((x == b'_') || (norm ci x == norm ci c)) ≡ false → ¬ Accepts ci x c
refuses_test ci x c h a = ground arith

-- Only `%` itself is folded to `%`.
percent-Accepts : (ci : Bool) (x c : ℕ) → x ≡ b'%' → Accepts ci x c → c ≡ b'%'
unfolding norm
percent-Accepts ci x c e a = ground arith

module _ (ci : Bool) (C G : Type 0) (k : ℕ) where
  -- What the saved star means; `m` bounds the text that is left to retry.
  abbrev Saved : ℕ → Bytes → Bytes → Star → Type 0
  Saved m p s none = C → G → Likes ci p s
  Saved m p s (some (bp, bs)) =
      (Likes ci (b'%' ∷ bp) bs → G)
      × (C → G → Likes ci (b'%' ∷ bp) bs)
      × (C → Likes ci bp bs → Likes ci p s)
      × (C → NoPercent bs)
      × (length s ≤ length bs)
      × (length bs ≤ m)
      × (length bp < k)

  record Inv (f m : ℕ) (p s : Bytes) (star : Star) : Type 0 where
    now : Likes ci p s → G
    later : C → G → Likes ci (b'%' ∷ p) s
    saved : Saved m p s star
    clean : C → NoPercent s
    text_bound : length s ≤ m
    pattern_bound : length p < k
    fuel : m * k + length p < f

  Inv-restart :
      {f m : ℕ} {p s : Bytes}
      → (Likes ci (b'%' ∷ p) s → G)
      → (C → G → Likes ci (b'%' ∷ p) s)
      → (C → NoPercent s)
      → length s ≤ m
      → length p < k
      → m * k + length p < f
      → Inv f m p s (some (p, s))
  Inv-restart to from cl hs hp hf = record {
    now = λ d. to (leave refl d);
    later = from;
    saved = (to, from, λ _ d. d, cl, omega arith, hs, hp);
    clean = cl;
    text_bound = hs;
    pattern_bound = hp;
    fuel = hf;
  }

  Saved-char :
      (m x c : ℕ) (p s : Bytes) (star : Star)
      → (C → x ≢ b'%')
      → Saved m (x ∷ p) (c ∷ s) star
      → Saved m p s star
  Saved-char m x c p s none n h = λ cl g. (char_inv ci (n cl) (h cl g)).1
  Saved-char m x c p s (some (bp, bs)) n (to, from, down, cl, shorter, hs, hp) =
      (to, from, λ h d. (char_inv ci (n h) (down h d)).1, cl, omega arith, hs, hp)

  Inv-char :
      {f m : ℕ} (x c : ℕ) (p s : Bytes) (star : Star)
      → Inv (suc f) m (x ∷ p) (c ∷ s) star
      → Accepts ci x c
      → Inv f m p s star
  Inv-char {m} x c p s star i a =
      let plain : C → x ≢ b'%' = λ h e. (i.clean h).0 (percent-Accepts ci x c e a) in
      record {
        now = λ d. i.now (accepted ci a d);
        later = λ h g. drop_char ci s refl (plain h) (i.later h g);
        saved = Saved-char m x c p s star plain i.saved;
        clean = λ h. (i.clean h).1;
        text_bound = omega arith;
        pattern_bound = omega arith;
        fuel = omega arith;
      }

  abbrev Next : ℕ → Round → Type 0
  Next f next = (m : ℕ) (p s : Bytes) (star : Star) → Inv f m p s star → Decides C G (next p s star)

  -- After a mismatch the `%` has to take a byte: `m` falls, which pays for the pattern once more.
  retry-Decides :
      {f c : ℕ} {p s : Bytes} (m : ℕ) (star : Star) (next : Round)
      → Next f next
      → Inv (suc f) m p (c ∷ s) star
      → (C → ¬ Likes ci p (c ∷ s))
      → Decides C G (retry star next)
  unfolding retry
  retry-Decides m none next ih i no_match = λ h g. no_match h (i.saved h g)
  retry-Decides m (some (bp, [])) next ih i no_match = absurd (omega arith)
  retry-Decides zero (some (bp, x ∷ bs)) next ih i no_match = absurd (omega arith)
  retry-Decides (suc m) (some (bp, x ∷ bs)) next ih i no_match =
      let (to, from, down, cl, _, _, _) = i.saved in
      ih m bp bs (some (bp, bs)) (
        Inv-restart (λ d. to (take refl d))
          (λ h g. must_take ci refl (from h g) (λ d. no_match h (down h d))) (λ h. (cl h).1)
          (omega arith) (omega arith) (omega arith))

  Inv-mark :
      {f m : ℕ} (x c : ℕ) (p s : Bytes) (star : Star)
      → Inv (suc f) m (x ∷ p) (c ∷ s) star
      → x ≡ b'%'
      → Inv f m p (c ∷ s) (some (p, c ∷ s))
  Inv-mark x c p s star i e =
      Inv-restart (λ d. i.now (subst (λ (y : ℕ). Likes ci (y ∷ p) (c ∷ s)) (sym e) d))
        (λ h g. subst (λ (y : ℕ). Likes ci (y ∷ p) (c ∷ s)) e (two_stars ci refl e (i.later h g)))
        i.clean (omega arith) (omega arith) (omega arith)

  -- A pattern byte that is neither accepted nor `%` matches nothing here.
  mismatch :
      (x c : ℕ) (p s : Bytes)
      → ((x == b'_') || (norm ci x == norm ci c)) ≡ false
      → (x == b'%') ≡ false
      → ¬ Likes ci (x ∷ p) (c ∷ s)
  mismatch x c p s a e d = refuses_test ci x c a (char_inv ci (ground arith) d).0

  loop-Decides : (f : ℕ) → Next f (like_loop ci f)
  unfolding like_loop
  loop-Decides zero m p s star i = absurd (omega arith)
  loop-Decides (suc f) m p [] star i =
      let (sound, complete) = only_percent_iff ci p in
      ok-Decides C G (only_percent p) (λ h. i.now (sound h))
        (λ h g. complete (star_at_end ci (i.later h g)))
  loop-Decides (suc f) m [] (c ∷ s) star i =
      retry-Decides m star (like_loop ci f) (loop-Decides f) i (λ h d. elim d [ ])
  loop-Decides (suc f) m (x ∷ p) (c ∷ s) star i =
      elim (Bool-cases ((x == b'_') || (norm ci x == norm ci c))) [
        | inl a ↦ rw a (loop-Decides f m p s star (Inv-char x c p s star i (Accepts-test ci x c a)))
        | inr a ↦ elim (Bool-cases (x == b'%')) [
          | inl e ↦
              rw (a, e)
                (loop-Decides f m p (c ∷ s) (some (p, c ∷ s))
                  (Inv-mark x c p s star i (ground arith)))
          | inr e ↦
              rw (a, e)
                (retry-Decides m star (like_loop ci f) (loop-Decides f) i
                  (λ h. mismatch x c p s a e))
        ]
      ]

-- The loop from its start decides whether `text` matches.
fresh-Decides :
    (ci : Bool) (f : ℕ) (pattern text : Bytes)
    → length text * (length pattern + 1) + length pattern < f
    → Decides (NoPercent text) (Likes ci pattern text) (like_loop ci f pattern text none)
fresh-Decides ci f pattern text h =
    loop-Decides ci (NoPercent text) (Likes ci pattern text) (length pattern + 1) f (length text)
      pattern text none
      (record {
        now = λ d. d;
        later = λ c d. leave refl d;
        saved = λ c d. d;
        clean = λ c. c;
        text_bound = omega arith;
        pattern_bound = omega arith;
        fuel = h;
      })

start-Decides :
    (ci : Bool) (pattern text : Bytes)
    → Decides
        (NoPercent text)
        (Likes ci pattern text)
        (like_loop ci ((length text + 1) * (length pattern + 1)) pattern text none)
start-Decides ci pattern text =
    fresh-Decides ci ((length text + 1) * (length pattern + 1)) pattern text (omega arith)

-- The round at a `%` byte on both sides takes it literally.
literal_round :
    (ci : Bool) (f : ℕ) (pattern text : Bytes)
    → like_loop ci (suc f) (b'%' ∷ pattern) (b'%' ∷ text) none ≡ like_loop ci f pattern text none
unfolding like_loop norm to_lower
literal_round true f pattern text = refl
literal_round false f pattern text = refl

first_round :
    (ci : Bool) (f : ℕ) (pattern text : Bytes)
    → 0 < f
    → like_loop ci f (b'%' ∷ pattern) (b'%' ∷ text) none ≡ like_loop ci (f - 1) pattern text none
first_round ci zero pattern text h = absurd (omega arith)
first_round ci (suc f) pattern text h =
    literal_round ci f pattern text ∙ ap (λ (n : ℕ). like_loop ci n pattern text none) (omega arith)

Decides-total : (C G : Type 0) (r : Result Bool) → Decides C G r → (b : Bool) × (r ≡ ok b)
Decides-total C G (ok b) d = (b, refl)
Decides-total C G (err e) d = absurd d

Decides-true : (C G : Type 0) (r : Result Bool) → Decides C G r → r ≡ ok true → G
Decides-true C G (ok true) d e = d
Decides-true C G (ok false) d e = cc
Decides-true C G (err x) d e = cc

Decides-false : (C G : Type 0) (r : Result Bool) → Decides C G r → C → G → r ≡ ok true
Decides-false C G (ok true) d c g = refl
Decides-false C G (ok false) d c g = absurd (d c g)
Decides-false C G (err x) d c g = absurd d

-- likeMatch stops within its fuel, on every text and pattern, with an answer; and when the answer is
-- true, the text matches the pattern.
pub like_match_sound :
    (text pattern : Bytes) (ci : Bool)
    → ((b : Bool) × (like_match text pattern ci ≡ ok b))
      × (like_match text pattern ci ≡ ok true → Likes ci pattern text)
unfolding like_match
like_match_sound text pattern ci = (
  Decides-total _ _ _ (start-Decides ci pattern text),
  Decides-true _ _ _ (start-Decides ci pattern text),
)

-- On a text with no `%` byte likeMatch answers true exactly when the text matches the pattern.
pub like_match_iff :
    (text pattern : Bytes) (ci : Bool)
    → NoPercent text
    → (like_match text pattern ci ≡ ok true) ↔ Likes ci pattern text
unfolding like_match
like_match_iff text pattern ci clean = (
  Decides-true _ _ _ (start-Decides ci pattern text),
  Decides-false _ _ _ (start-Decides ci pattern text) clean,
)

-- The byte test comes first: with a `%` byte at the front of the text, a `%` at the front of the
-- pattern stands for that byte alone. The rest of the text holds no `%`.
pub percent_is_literal :
    (text pattern : Bytes) (ci : Bool)
    → NoPercent text
    → (like_match (b'%' ∷ text) (b'%' ∷ pattern) ci ≡ ok true) ↔ Likes ci pattern text
unfolding like_match
percent_is_literal text pattern ci clean =
    let fuel : ℕ = (length (b'%' ∷ text) + 1) * (length (b'%' ∷ pattern) + 1) in
    let start = fresh-Decides ci (fuel - 1) pattern text (omega arith) in
    let first : like_loop ci fuel (b'%' ∷ pattern) (b'%' ∷ text) none
        ≡ like_loop ci (fuel - 1) pattern text none =
      first_round ci fuel pattern text (omega arith) in
    rw first (Decides-true _ _ _ start, Decides-false _ _ _ start clean)
