-- ===== src/Parser/Lexer/Literals.antt =====
-- src/parser/lexer.cpp, scanString and Token::stringValue: a quoted text is one token with that text.
use lite_query.Prelude.{
  ◌<◌, ℕ, suc, ◌+◌, ◌-◌, ◌≡◌, refl, sym, ap, ap₂, ◌∙◌, subst, arith, Bool, true, false, ◌==◌,
  if◌then◌else◌, Bool-cases, inl, inr, Bytes, [], ◌∷◌, ◌++◌, append_assoc, length, length-append,
  take-append_length, take, drop, get_or,
}
use lite_query.Prelude.Result.{ok}
use lite_query.Parser.Token.{TokenKind}
use lite_query.Parser.Lexer.{
  Token, LexResult, Lexer, behind, advance, unescape, string_value, current_location,
}
use lite_query.Parser.Lexer.Scan.{quoted_loop, scan_string}

-- A text as it is written between quotes: each quote twice.
unfoldable pub escape : Bytes → Bytes
escape [] = []
escape (c ∷ s) = if c == 39 then 39 ∷ 39 ∷ escape s else c ∷ escape s

unescape_nil : unescape [] ≡ []
unfolding unescape
unescape_nil = refl

unescape-other : (c : ℕ) (t : Bytes) → (c == 39) ≡ false → unescape (c ∷ t) ≡ c ∷ unescape t
unfolding unescape
unescape-other c [] h = refl
unescape-other c (b ∷ t) h = rw h refl

unescape-pair : (t : Bytes) → unescape (39 ∷ 39 ∷ t) ≡ 39 ∷ unescape t
unfolding unescape
unescape-pair t = refl

unescape-escape : (s : Bytes) → unescape (escape s) ≡ s
unfolding escape
unescape-escape [] = unescape_nil
unescape-escape (c ∷ s) = elim (Bool-cases (c == 39)) [
  | inl e ↦ rw e (unescape-pair (escape s) ∙ ap₂ (λ x y. x ∷ y) (ground arith) (unescape-escape s))
  | inr e ↦ rw e (unescape-other c (escape s) e ∙ ap (λ t. c ∷ t) (unescape-escape s))
]

behind-pos : (c : ℕ) (rest : Bytes) (l : Lexer) → (behind c rest l).pos ≡ suc l.pos
behind-pos c rest l = elim (Bool-cases (c == 10)) [ inl h ↦ rw h refl | inr h ↦ rw h refl ]

-- Where the loop ends behind `size` bytes, with the closing quote, before `rest`.
record Closed (r : Lexer × Bool) (pos size : ℕ) (rest : Bytes) : Type 0 where
  closed : r.1 ≡ true
  moved : r.0.pos ≡ pos + size
  left : r.0.rest ≡ rest

loop-other :
    (c : ℕ) (t : Bytes) (l : Lexer)
    → (c == 39) ≡ false
    → 0 < length t
    → quoted_loop 39 (c ∷ t) l ≡ quoted_loop 39 t (behind c t l)
unfolding quoted_loop
loop-other c [] l h k = absurd (omega (arith, k))
loop-other c (d ∷ rest) l h k = rw h refl

loop-pair :
    (t : Bytes) (l : Lexer)
    → quoted_loop 39 (39 ∷ 39 ∷ t) l ≡ quoted_loop 39 t (behind 39 t (behind 39 (39 ∷ t) l))
unfolding quoted_loop
loop-pair t l = refl

loop-close :
    (rest : Bytes) (l : Lexer)
    → (get_or rest 0 0 == 39) ≡ false
    → Closed (quoted_loop 39 (39 ∷ rest) l) l.pos 1 rest
unfolding quoted_loop
loop-close [] l h = record { closed = refl; moved = omega arith; left = refl }
loop-close (d ∷ rest) l h = rw h (record { closed = refl; moved = omega arith; left = refl })

quoted_loop-escape :
    (s rest : Bytes) (l : Lexer)
    → (get_or rest 0 0 == 39) ≡ false
    → Closed (quoted_loop 39 (escape s ++ (39 ∷ rest)) l) l.pos (length (escape s) + 1) rest
unfolding escape
quoted_loop-escape [] rest l h = loop-close rest l h
quoted_loop-escape (c ∷ s) rest l h =
    let t = escape s ++ (39 ∷ rest) in
    elim (Bool-cases (c == 39)) [
      | inl e ↦
          let ih = quoted_loop-escape s rest (behind 39 t (behind 39 (39 ∷ t) l)) h in
          rw e (
            rw (loop-pair t l)
              (record { closed = ih.closed; moved = omega (arith, ih.moved); left = ih.left }))
      | inr e ↦
          let ih = quoted_loop-escape s rest (behind c t l) h in
          let some_left : 0 < length t = omega (arith, length-append (escape s) (39 ∷ rest)) in
          rw e (
            rw (loop-other c t l e some_left) (record {
              closed = ih.closed;
              moved = omega (arith, ih.moved, behind-pos c t l);
              left = ih.left;
            }))
    ]

inside : (e : Bytes) → take (length (39 ∷ (e ++ 39 ∷ [])) - 2) (drop 1 (39 ∷ (e ++ 39 ∷ []))) ≡ e
inside e =
    ap (λ n. take n (e ++ 39 ∷ [])) (omega (arith, length-append e (39 ∷ [])))
    ∙ take-append_length e (39 ∷ [])

-- The text of the token, cut out of the source.
quoted :
    (e rest source : Bytes) (n : ℕ)
    → source ≡ 39 ∷ (e ++ (39 ∷ rest))
    → n ≡ length e + 2
    → take n source ≡ 39 ∷ (e ++ 39 ∷ [])
quoted e rest source n h k =
    let split : source ≡ (39 ∷ (e ++ 39 ∷ [])) ++ rest =
      h ∙ ap (λ t. 39 ∷ t) (sym (append_assoc e (39 ∷ []) rest)) in
    let size : n ≡ length (39 ∷ (e ++ 39 ∷ [])) = omega (arith, k, length-append e (39 ∷ [])) in
    ap₂ take size split ∙ take-append_length (39 ∷ (e ++ 39 ∷ [])) rest

advance-byte : (c : ℕ) (t : Bytes) (l : Lexer) → l.rest ≡ c ∷ t → advance l ≡ behind c t l
unfolding advance
advance-byte c t l e = rw e refl

-- What scanning a literal leaves: one token more, whose text in the source gives back `s`, and the
-- cursor behind the closing quote.
pub record Literal (s rest : Bytes) (from : Lexer) (out : LexResult) (r : Lexer × LexResult)
    : Type 0 where
  pub token : Token
  pub added : r.1 ≡ record out { tokens = out.tokens ++ token ∷ [] }
  pub starts : token.start ≡ from.pos
  pub value : string_value (take token.size from.rest) token ≡ ok s
  pub left : r.0.rest ≡ rest

-- Of every text, written between quotes with its quotes doubled and not followed by a further quote,
-- scanString makes one LIT_STRING token without an error, whose stringValue is the text, and stops
-- behind the closing quote.
pub scan_string-escape :
    (s rest : Bytes) (from : Lexer) (out : LexResult)
    → from.rest ≡ 39 ∷ (escape s ++ (39 ∷ rest))
    → (get_or rest 0 0 == 39) ≡ false
    → Literal s rest from out (scan_string from (advance from) out)
unfolding scan_string string_value
scan_string-escape s rest from out e h =
    let text = escape s ++ (39 ∷ rest) in
    let l = behind 39 text from in
    let c = quoted_loop-escape s rest l h in
    let size = (quoted_loop 39 text l).0.pos - from.pos in
    let cut = quoted (escape s) rest from.rest size e (omega (arith, c.moved)) in
    subst (λ m. Literal s rest from out (scan_string from m out))
      (sym (advance-byte 39 text from e))
      (record {
        token = record {
          kind = TokenKind.lit_string;
          start = from.pos;
          size = size;
          location = current_location l;
        };
        added = rw c.closed refl;
        starts = refl;
        value = ap ok (
            ap (λ t. unescape (take (length t - 2) (drop 1 t))) cut
            ∙ ap unescape (inside (escape s))
            ∙ unescape-escape s);
        left = rw c.closed c.left;
      })
