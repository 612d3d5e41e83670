-- ===== src/Parser/Lexer/Progress.antt =====
-- src/parser/lexer.cpp, Lexer: every round of tokenize moves the cursor over the source.
use lite_query.Prelude.{
  ℕ, zero, suc, ◌+◌, ◌-◌, ◌<◌, ◌≡◌, refl, arith, Bool, true, false, ◌&&◌, ◌||◌, ◌==◌, if◌then◌else◌,
  Bytes, codes, [], ◌∷◌, ◌++◌, Option, none, some, ◌⊎◌, inl, inr,
}
use lite_query.Parser.Token.{TokenKind}
use lite_query.Parser.Lexer.{
  SourceLocation, Token, LexResult, Lexer, peek, advance, current_location, is_digit, is_alpha,
  is_word, not_newline, skip_line_comment, skip_digits, comment_result, skip_block_comment,
}
use lite_query.Parser.Lexer.Scan.{
  add_token, add_error_token, skip_sign, starts_exponent, scan_exponent, scan_number, quoted_loop,
  scan_string, scan_quoted_ident, scan_ident_or_keyword, scan_dollar_param, single_kind, matched,
  required, lex_less, lex_minus, lex_dot, lex_other, lex_single, lex_one,
}
use lite_query.Parser.Lexer.Ahead.{
  Ahead-trans, behind-passed, advance-Ahead, skip_while-Ahead, skip_digits-Ahead,
  comment_loop-Ahead, quoted_loop-Ahead, scan_fraction-Ahead, skip_sign-Ahead, Ahead,
}

-- The cursor has passed at least one byte of the token.
pub record Past (from l : Lexer) : Type 0 where
  pub ahead : Ahead from l
  pub passed : from.pos < l.pos

further : {from l l' : Lexer} → Past from l → Ahead l l' → Past from l'
further p h = record { ahead = Ahead-trans p.ahead h; passed = omega (arith, p.passed, h.moved) }

-- What a scanner that started at `from` leaves: a cursor further on, and the tokens so far with at
-- most one more, the piece of the source from `from` to the cursor.
pub record Scanned (from : Lexer) (out : LexResult) (r : Lexer × LexResult) : Type 0 where
  pub past : Past from r.0
  pub kept :
      (r.1.tokens ≡ out.tokens)
      ⊎ ((t : Token) × (r.1.tokens ≡ out.tokens ++ t ∷ [])
          × (t.start ≡ from.pos)
          × (t.start + t.size ≡ r.0.pos))

if-Scanned :
    (b : Bool) {from : Lexer} {out : LexResult} (x y : Lexer × LexResult)
    → Scanned from out x
    → Scanned from out y
    → Scanned from out (if b then x else y)
if-Scanned true x y h k = h
if-Scanned false x y h k = k

module _ (from : Lexer) (out : LexResult) where
  token-Scanned :
      (kind : TokenKind) (loc : SourceLocation) (l : Lexer)
      → Past from l
      → Scanned from out (add_token kind from loc l out)
  token-Scanned kind loc l p = record {
    past = p;
    kept = inr (
      record { kind = kind; start = from.pos; size = l.pos - from.pos; location = loc },
      refl,
      refl,
      omega (arith, p.passed),
    );
  }

  error-Scanned :
      (message : Bytes) (loc : SourceLocation) (l : Lexer)
      → Past from l
      → Scanned from out (add_error_token message from loc l out)
  error-Scanned message loc l p = record {
    past = p;
    kept = inr (
      record { kind = TokenKind.error; start = from.pos; size = l.pos - from.pos; location = loc },
      refl,
      refl,
      omega (arith, p.passed),
    );
  }

  exponent-Scanned :
      (loc : SourceLocation) (part : Lexer × Bool)
      → Past from part.0
      → Scanned from out (scan_exponent from loc part out)
  unfolding scan_exponent
  exponent-Scanned loc part p =
      let sign = skip_sign (advance part.0) in
      let exponent =
        further p (Ahead-trans (advance-Ahead part.0) (skip_sign-Ahead (advance part.0))) in
      if-Scanned (starts_exponent part.0) _ _
        (if-Scanned (is_digit (peek sign 0)) _ _
          (token-Scanned TokenKind.lit_float loc (skip_digits sign)
            (further exponent (skip_digits-Ahead sign)))
          (error-Scanned (codes "Malformed exponent in numeric literal") loc sign exponent))
        (token-Scanned (if part.1 then TokenKind.lit_float else TokenKind.lit_integer) loc part.0 p)

  module _ (l : Lexer) (p : Past from l) where
    digits-Past : Past from (skip_digits l)
    digits-Past = further p (skip_digits-Ahead l)

    matched-Scanned :
        (expected : ℕ) (both alone : TokenKind)
        → Scanned from out (matched expected both alone from l out)
    unfolding matched
    matched-Scanned expected both alone =
        if-Scanned (peek l 0 == expected) _ _
          (token-Scanned both _ (advance l) (further p (advance-Ahead l)))
          (token-Scanned alone _ l p)

    required-Scanned :
        (expected : ℕ) (both : TokenKind) (message : Bytes)
        → Scanned from out (required expected both message from l out)
    unfolding required
    required-Scanned expected both message =
        if-Scanned (peek l 0 == expected) _ _
          (token-Scanned both _ (advance l) (further p (advance-Ahead l)))
          (error-Scanned message _ l p)

    scan_number-Scanned : Scanned from out (scan_number from l out)
    unfolding scan_number
    scan_number-Scanned =
        exponent-Scanned _ _ (further digits-Past (scan_fraction-Ahead (skip_digits l)))

    quoted-Scanned :
        (q : ℕ) (kind : TokenKind) (message : Bytes) (loc : SourceLocation)
        → Scanned from out (
            if (quoted_loop q l.rest l).1
            then add_token kind from loc (quoted_loop q l.rest l).0 out
            else add_error_token message from loc (quoted_loop q l.rest l).0 out)
    quoted-Scanned q kind message loc =
        let done = further p (quoted_loop-Ahead q l.rest l refl) in
        if-Scanned _ _ _ (token-Scanned kind loc _ done) (error-Scanned message loc _ done)

    word-Scanned : Scanned from out (scan_ident_or_keyword from l out)
    unfolding scan_ident_or_keyword
    word-Scanned = token-Scanned _ _ _ (further p (skip_while-Ahead is_word l.rest l refl))

    dollar-Scanned : Scanned from out (scan_dollar_param from l out)
    unfolding scan_dollar_param
    dollar-Scanned = if-Scanned _ _ _ (token-Scanned _ _ _ digits-Past) (error-Scanned _ _ l p)

    less-Scanned : Scanned from out (lex_less from l out)
    unfolding lex_less
    less-Scanned =
        if-Scanned _ _ _ (token-Scanned _ _ _ (further p (advance-Ahead l)))
          (matched-Scanned b'>' _ _)

    dot-Scanned : Scanned from out (lex_dot from l out)
    unfolding lex_dot
    dot-Scanned = if-Scanned _ _ _ (token-Scanned _ _ _ digits-Past) (token-Scanned _ _ l p)

  minus-Scanned : (l : Lexer) → Past from l → Scanned from out (lex_minus from l out)
  unfolding lex_minus
  minus-Scanned l p =
      if-Scanned _ _ _ (matched-Scanned (advance l) (further p (advance-Ahead l)) b'>' _ _)
        (token-Scanned _ _ l p)

  other-Scanned : (c : ℕ) (l : Lexer) → Past from l → Scanned from out (lex_other c from l out)
  unfolding lex_other scan_string scan_quoted_ident
  other-Scanned c l p = if-Scanned (c == b'<') _ _ (less-Scanned l p) (
      if-Scanned (c == b'>') _ _ (matched-Scanned l p b'=' TokenKind.op_gte TokenKind.op_gt) (
        if-Scanned (c == b'!') _ _
          (required-Scanned l p b'=' TokenKind.op_neq (codes "Unexpected '!'; did you mean '!='?"))
          (if-Scanned (c == b'|') _ _
            (required-Scanned l p b'|' TokenKind.op_concat
              (codes "Single '|' is not valid; did you mean '||'?"))
            (if-Scanned (c == b'-') _ _ (minus-Scanned l p) (
              if-Scanned (c == b'/') _ _
                (token-Scanned TokenKind.op_slash (current_location from) l p)
                (if-Scanned (c == b':') _ _
                  (matched-Scanned l p b':' TokenKind.double_colon TokenKind.colon)
                  (if-Scanned (c == b'.') _ _ (dot-Scanned l p) (
                    if-Scanned (c == 39) _ _
                      (quoted-Scanned l p 39 TokenKind.lit_string
                        (codes "Unterminated string literal") (current_location l))
                      (if-Scanned (c == 34) _ _
                        (quoted-Scanned l p 34 TokenKind.ident
                          (codes "Unterminated quoted identifier") (current_location l))
                        (if-Scanned (is_digit c) _ _ (scan_number-Scanned l p) (
                          if-Scanned (c == b'$') _ _ (dollar-Scanned l p) (
                            if-Scanned (is_alpha c || (c == b'_')) _ _ (word-Scanned l p) (
                              error-Scanned (codes "Unexpected character '" ++ (c ∷ 39 ∷ []))
                                (current_location from) l p)))))))))))))

  single-Scanned :
      (kind : Option TokenKind) (c : ℕ) (l : Lexer)
      → Past from l
      → Scanned from out (lex_single kind c from l out)
  unfolding lex_single
  single-Scanned none c l p = other-Scanned c l p
  single-Scanned (some kind) c l p = token-Scanned kind _ l p

  comment-kept :
      (start : SourceLocation) (depth : ℕ) → (comment_result start out depth).tokens ≡ out.tokens
  comment-kept start zero = refl
  comment-kept start (suc depth) = refl

  block-Scanned : (l : Lexer) → Past from l → Scanned from out (skip_block_comment l out)
  unfolding skip_block_comment
  block-Scanned l p = record {
    past = further p (comment_loop-Ahead l.rest l 1 refl);
    kept = inl (comment-kept _ _);
  }

  line-Scanned : (l : Lexer) → Past from l → Scanned from out (skip_line_comment l, out)
  unfolding skip_line_comment
  line-Scanned l p = record {
    past = further p (skip_while-Ahead not_newline l.rest l refl);
    kept = inl refl;
  }

  first-Past : (c : ℕ) (rest : Bytes) → from.rest ≡ c ∷ rest → Past from (advance from)
  unfolding advance
  first-Past c rest e = record {
    ahead = advance-Ahead from;
    passed = rw e (behind-passed c rest from);
  }

  -- A round of tokenize, at a byte of the source, passes at least that byte and adds at most one
  -- token, which is what it has passed.
  pub lex_one-Scanned :
      (c : ℕ) (rest : Bytes) → from.rest ≡ c ∷ rest → Scanned from out (lex_one c from out)
  unfolding lex_one
  lex_one-Scanned c rest e =
      let p = first-Past c rest e in
      let l = advance from in
      if-Scanned ((c == b'-') && (peek l 0 == b'-')) _ _
        (line-Scanned (advance l) (further p (advance-Ahead l)))
        (if-Scanned ((c == b'/') && (peek l 0 == b'*')) _ _
          (block-Scanned (advance l) (further p (advance-Ahead l)))
          (single-Scanned (single_kind c) c l p))
