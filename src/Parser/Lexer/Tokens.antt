-- ===== src/Parser/Lexer/Tokens.antt =====
-- src/parser/lexer.cpp, Lexer::tokenize: it ends, and its tokens are pieces of the source in order.
use lite_query.Prelude.{
  ℕ, zero, suc, ◌+◌, ◌≤◌, ◌<◌, ◌≡◌, refl, sym, ap, ◌∙◌, subst, arith, Bytes, List, [], ◌∷◌, ◌++◌,
  length, length-append, ◌⊎◌, inl, inr,
}
use lite_query.Prelude.Result.{ok}
use lite_query.Parser.Token.{TokenKind}
use lite_query.Parser.Lexer.{
  Token, LexError, LexResult, Lexer, lexer, current_location, skip_whitespace,
}
use lite_query.Parser.Lexer.Scan.{at_byte, lex_one, tokenize_loop, tokenize}
use lite_query.Parser.Lexer.Ahead.{Ahead, skip_whitespace-Ahead}
use lite_query.Parser.Lexer.Progress.{Scanned, lex_one-Scanned}

-- The tokens are pieces of the source between `a` and `b` that are not empty, each behind the one
-- before it.
abbrev pub Pieces : ℕ → List Token → ℕ → Type 0
Pieces a [] b = a ≤ b
Pieces a (t ∷ tokens) b = (a ≤ t.start) × (0 < t.size) × Pieces (t.start + t.size) tokens b

Pieces-later :
    (a : ℕ) (tokens : List Token) {b c : ℕ} → Pieces a tokens b → b ≤ c → Pieces a tokens c
Pieces-later a [] p h = omega (arith, p, h)
Pieces-later a (t ∷ tokens) p h = (p.0, p.1, Pieces-later (t.start + t.size) tokens p.2 h)

Pieces-snoc :
    (a : ℕ) (tokens : List Token) (t : Token) {b : ℕ}
    → Pieces a tokens b
    → b ≤ t.start
    → 0 < t.size
    → Pieces a (tokens ++ t ∷ []) (t.start + t.size)
Pieces-snoc a [] t p h k = (omega (arith, p, h), k, omega arith)
Pieces-snoc a (u ∷ tokens) t p h k = (p.0, p.1, Pieces-snoc (u.start + u.size) tokens t p.2 h k)

-- The bytes behind the cursor and those before it are the source's.
Ahead-total : {l l' : Lexer} → Ahead l l' → l'.pos + length l'.rest ≡ l.pos + length l.rest
Ahead-total {l} {l'} h = omega (arith, h.moved, ap length h.text, length-append h.consumed l'.rest)

Scanned-Pieces :
    {from : Lexer} {out : LexResult} {r : Lexer × LexResult}
    → Scanned from out r
    → Pieces 0 out.tokens from.pos
    → Pieces 0 r.1.tokens r.0.pos
Scanned-Pieces {from} {out} {r} s p = elim s.kept [
  | inl same ↦
      subst (λ ts. Pieces 0 ts r.0.pos) (sym same)
        (Pieces-later 0 out.tokens p (omega (arith, s.past.passed)))
  | inr (t, same, start, end) ↦
      subst (λ ts. Pieces 0 ts r.0.pos) (sym same)
        (Pieces-later 0 (out.tokens ++ t ∷ [])
          (Pieces-snoc 0 out.tokens t p (omega (arith, start))
            (omega (arith, start, end, s.past.passed)))
          (omega (arith, end)))
]

bytes-cases : (bs : Bytes) → (bs ≡ []) ⊎ ((c : ℕ) × (rest : Bytes) × (bs ≡ c ∷ rest))
bytes-cases [] = inl refl
bytes-cases (c ∷ rest) = inr (c, rest, refl)

-- What the loop ends with.
record Ended (n fuel : ℕ) (l : Lexer) (out : LexResult) : Type 0 where
  cursor : Lexer
  result : LexResult
  done : tokenize_loop fuel l out ≡ ok (cursor, result)
  end : cursor.pos ≡ n
  pieces : Pieces 0 result.tokens n

loop-end :
    (fuel : ℕ) (l : Lexer) (out : LexResult)
    → (skip_whitespace l).rest ≡ []
    → tokenize_loop (suc fuel) l out ≡ ok (skip_whitespace l, out)
unfolding tokenize_loop
loop-end fuel l out e =
    let l' = skip_whitespace l in
    ap
      (λ bs.
        at_byte bs (ok (l', out))
          (λ c. tokenize_loop fuel (lex_one c l' out).0 (lex_one c l' out).1))
      e

loop-round :
    (fuel : ℕ) (l : Lexer) (out : LexResult) (c : ℕ) (rest : Bytes)
    → (skip_whitespace l).rest ≡ c ∷ rest
    → tokenize_loop (suc fuel) l out
      ≡ tokenize_loop fuel
          (lex_one c (skip_whitespace l) out).0
          (lex_one c (skip_whitespace l) out).1
unfolding tokenize_loop
loop-round fuel l out c rest e =
    let l' = skip_whitespace l in
    ap
      (λ bs.
        at_byte bs (ok (l', out))
          (λ c. tokenize_loop fuel (lex_one c l' out).0 (lex_one c l' out).1))
      e

tokenize_loop-Ended :
    (n fuel : ℕ) (l : Lexer) (out : LexResult)
    → length l.rest < fuel
    → l.pos + length l.rest ≡ n
    → Pieces 0 out.tokens l.pos
    → Ended n fuel l out
unfolding tokenize_loop
tokenize_loop-Ended n zero l out h total p = absurd (omega arith)
tokenize_loop-Ended n (suc fuel) l out h total p =
    let l' = skip_whitespace l in
    let skipped = skip_whitespace-Ahead l in
    let total' = Ahead-total skipped in
    let p' : Pieces 0 out.tokens l'.pos =
      Pieces-later 0 out.tokens p (omega (arith, skipped.moved)) in
    elim (bytes-cases l'.rest) [
      | inl e ↦ record {
        cursor = l';
        result = out;
        done = loop-end fuel l out e;
        end = omega (arith, total, total', ap length e);
        pieces = Pieces-later 0 out.tokens p' (omega (arith, total, total'));
      }
      | inr (c, rest, e) ↦
          let r = lex_one c l' out in
          let s = lex_one-Scanned l' out c rest e in
          let moved = Ahead-total s.past.ahead in
          let ih =
            tokenize_loop-Ended n fuel r.0 r.1
              (omega (arith, h, total', moved, s.past.passed, skipped.moved))
              (omega (arith, total, total', moved)) (Scanned-Pieces s p') in
          record {
            cursor = ih.cursor;
            result = ih.result;
            done = loop-round fuel l out c rest e ∙ ih.done;
            end = ih.end;
            pieces = ih.pieces;
          }
    ]

-- What tokenize answers: some tokens and the end of the file.
pub record Tokenized (source : Bytes) : Type 0 where
  pub tokens : List Token
  pub last : Token
  pub errors : List LexError
  pub done : tokenize source ≡ ok (record { tokens = tokens ++ last ∷ []; errors = errors })
  pub pieces : Pieces 0 tokens (length source)
  pub ends : (last.kind ≡ TokenKind.end_of_file) × (last.start ≡ length source) × (last.size ≡ 0)

-- Of every source tokenize returns, whatever the bytes are. The last token is END_OF_FILE, at the end
-- of the source; the tokens before it are pieces of the source that are not empty, in its order, and
-- no two of them overlap.
pub tokenize-Tokenized : (source : Bytes) → Tokenized source
unfolding tokenize lexer
tokenize-Tokenized source =
    let e =
      tokenize_loop-Ended (length source) (suc (length source)) (lexer source)
        (record { tokens = []; errors = [] }) (omega arith) (omega arith) (omega arith) in
    record {
      tokens = e.result.tokens;
      last = record {
        kind = TokenKind.end_of_file;
        start = e.cursor.pos;
        size = 0;
        location = current_location e.cursor;
      };
      errors = e.result.errors;
      done = rw e.done refl;
      pieces = e.pieces;
      ends = (refl, e.end, refl);
    }
