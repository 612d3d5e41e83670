-- ===== src/Parser/Lexer/Ahead.antt =====
-- src/parser/lexer.cpp, Lexer: the cursor only moves forward over the source.
use lite_query.Prelude.{
  ℕ, zero, suc, ◌+◌, ◌<◌, ◌≡◌, refl, sym, ap, ◌∙◌, arith, Bool, true, false, ◌&&◌, ◌==◌,
  if◌then◌else◌, Bytes, [], ◌∷◌, ◌++◌, append_assoc, length, length-append, Bool-cases, inl, inr,
}
use lite_query.Parser.Lexer.{
  Lexer, behind, advance, advance_to, skip_while, is_digit, is_space, skip_whitespace, skip_digits,
  comment_loop,
}
use lite_query.Parser.Lexer.Scan.{scan_fraction, skip_sign, quoted_loop}

-- The cursor `l'` is `l` after some bytes of the source.
pub record Ahead (l l' : Lexer) : Type 0 where
  pub consumed : Bytes
  pub text : l.rest ≡ consumed ++ l'.rest
  pub moved : l'.pos ≡ l.pos + length consumed

Ahead-refl : (l : Lexer) → Ahead l l
Ahead-refl l = record { consumed = []; text = refl; moved = omega arith }

pub Ahead-trans : {a b c : Lexer} → Ahead a b → Ahead b c → Ahead a c
Ahead-trans {a} {b} {c} h k = record {
  consumed = h.consumed ++ k.consumed;
  text =
      h.text ∙ ap (λ t. h.consumed ++ t) k.text ∙ sym (append_assoc h.consumed k.consumed c.rest);
  moved = omega (arith, h.moved, k.moved, length-append h.consumed k.consumed);
}

behind-Ahead : (c : ℕ) (rest : Bytes) (l : Lexer) → l.rest ≡ c ∷ rest → Ahead l (behind c rest l)
behind-Ahead c rest l e = elim (Bool-cases (c == 10)) [
  | inl h ↦ rw h (record { consumed = c ∷ []; text = e; moved = omega arith })
  | inr h ↦ rw h (record { consumed = c ∷ []; text = e; moved = omega arith })
]

pub behind-passed : (c : ℕ) (rest : Bytes) (l : Lexer) → l.pos < (behind c rest l).pos
behind-passed c rest l = elim (Bool-cases (c == 10)) [
  | inl h ↦ rw h (omega arith)
  | inr h ↦ rw h (omega arith)
]

pub behind-rest : (c : ℕ) (rest : Bytes) (l : Lexer) → (behind c rest l).rest ≡ rest
behind-rest c rest l = elim (Bool-cases (c == 10)) [ inl h ↦ rw h refl | inr h ↦ rw h refl ]

pub advance-Ahead : (l : Lexer) → Ahead l (advance l)
unfolding advance
advance-Ahead l = by_rest l.rest refl
  where
    by_rest : (bs : Bytes) → l.rest ≡ bs → Ahead l (advance_to bs l)
    by_rest [] e = Ahead-refl l
    by_rest (c ∷ rest) e = behind-Ahead c rest l e

if-Ahead : (b : Bool) {l x y : Lexer} → Ahead l x → Ahead l y → Ahead l (if b then x else y)
if-Ahead true h k = h
if-Ahead false h k = k

if-first :
    {B : Type 0} (b : Bool) {l : Lexer} (x y : Lexer × B)
    → Ahead l x.0
    → Ahead l y.0
    → Ahead l (if b then x else y).0
if-first true x y h k = h
if-first false x y h k = k

pub skip_while-Ahead :
    (test : ℕ → Bool) (bs : Bytes) (l : Lexer) → l.rest ≡ bs → Ahead l (skip_while test bs l)
unfolding skip_while
skip_while-Ahead test [] l e = Ahead-refl l
skip_while-Ahead test (c ∷ rest) l e =
    if-Ahead (test c)
      (Ahead-trans (behind-Ahead c rest l e)
        (skip_while-Ahead test rest (behind c rest l) (behind-rest c rest l)))
      (Ahead-refl l)

pub skip_whitespace-Ahead : (l : Lexer) → Ahead l (skip_whitespace l)
unfolding skip_whitespace
skip_whitespace-Ahead l = skip_while-Ahead is_space l.rest l refl

pub skip_digits-Ahead : (l : Lexer) → Ahead l (skip_digits l)
unfolding skip_digits
skip_digits-Ahead l = skip_while-Ahead is_digit l.rest l refl

two-Ahead :
    (c d : ℕ) (rest : Bytes) (l : Lexer)
    → l.rest ≡ c ∷ d ∷ rest
    → Ahead l (behind d rest (behind c (d ∷ rest) l))
two-Ahead c d rest l e =
    Ahead-trans (behind-Ahead c (d ∷ rest) l e)
      (behind-Ahead d rest (behind c (d ∷ rest) l) (behind-rest c (d ∷ rest) l))

pub comment_loop-Ahead :
    (bs : Bytes) (l : Lexer) (depth : ℕ) → l.rest ≡ bs → Ahead l (comment_loop bs l depth).0
unfolding comment_loop
comment_loop-Ahead bs l zero e = Ahead-refl l
comment_loop-Ahead [] l (suc depth) e = Ahead-refl l
comment_loop-Ahead (c ∷ []) l (suc depth) e = behind-Ahead c [] l e
comment_loop-Ahead (c ∷ d ∷ rest) l (suc depth) e =
    let l' = behind c (d ∷ rest) l in
    let l'' = behind d rest l' in
    let both = two-Ahead c d rest l e in
    let deeper =
      Ahead-trans both (comment_loop-Ahead rest l'' (suc (suc depth)) (behind-rest d rest l')) in
    let closed = Ahead-trans both (comment_loop-Ahead rest l'' depth (behind-rest d rest l')) in
    let on =
      Ahead-trans (behind-Ahead c (d ∷ rest) l e)
        (comment_loop-Ahead (d ∷ rest) l' (suc depth) (behind-rest c (d ∷ rest) l)) in
    if-first ((c == b'/') && (d == b'*')) _ _ deeper
      (if-first ((c == b'*') && (d == b'/')) _ _ closed on)

pub quoted_loop-Ahead :
    (q : ℕ) (bs : Bytes) (l : Lexer) → l.rest ≡ bs → Ahead l (quoted_loop q bs l).0
unfolding quoted_loop
quoted_loop-Ahead q [] l e = Ahead-refl l
quoted_loop-Ahead q (c ∷ []) l e = behind-Ahead c [] l e
quoted_loop-Ahead q (c ∷ d ∷ rest) l e =
    let l' = behind c (d ∷ rest) l in
    let first = behind-Ahead c (d ∷ rest) l e in
    let escaped =
      Ahead-trans (two-Ahead c d rest l e)
        (quoted_loop-Ahead q rest (behind d rest l') (behind-rest d rest l')) in
    let on = Ahead-trans first (quoted_loop-Ahead q (d ∷ rest) l' (behind-rest c (d ∷ rest) l)) in
    if-first (c == q) _ _ (if-first (d == q) _ _ escaped first) on

pub scan_fraction-Ahead : (l : Lexer) → Ahead l (scan_fraction l).0
unfolding scan_fraction
scan_fraction-Ahead l =
    if-first _ _ _ (Ahead-trans (advance-Ahead l) (skip_digits-Ahead (advance l))) (Ahead-refl l)

pub skip_sign-Ahead : (l : Lexer) → Ahead l (skip_sign l)
unfolding skip_sign
skip_sign-Ahead l = if-Ahead _ (advance-Ahead l) (Ahead-refl l)
