-- ===== src/Parser/Lexer/Scan.antt =====
-- src/parser/lexer.cpp, Lexer: the scanners of single tokens, and tokenize. `from` is the cursor at the
-- first byte of the token, which the caller has already passed in `l`.
use lite_query.Prelude.{
  ℕ, zero, suc, ◌-◌, Bool, true, false, ◌&&◌, ◌||◌, leb, ◌==◌, if◌then◌else◌, Bytes, codes, [], ◌∷◌,
  ◌++◌, map, length, take, Option, none, some,
}
use lite_query.Prelude.Result.{Result, ok, err, out_of_fuel, ◌>>=◌}
use lite_query.Parser.Token.{TokenKind, classify_keyword}
use lite_query.Parser.Lexer.{
  SourceLocation, LexResult, Lexer, lexer, peek, behind, advance, current_location, skip_while,
  is_digit, is_alpha, is_word, skip_whitespace, skip_line_comment, skip_digits, add_error,
  skip_block_comment,
}

abbrev pub add_token : TokenKind → Lexer → SourceLocation → Lexer → LexResult → Lexer × LexResult
add_token kind from location l out = (
  l,
  record out {
    tokens =
        out.tokens
        ++ record { kind = kind; start = from.pos; size = l.pos - from.pos; location = location }
          ∷ [];
  },
)

-- An error with a token of the kind ERROR.
abbrev pub add_error_token : Bytes → Lexer → SourceLocation → Lexer → LexResult → Lexer × LexResult
add_error_token message from location l out =
    add_token TokenKind.error from location l (add_error message location out)

abbrev is_sign : ℕ → Bool
is_sign c = (c == b'+') || (c == b'-')

-- The decimal part, if there is one, and whether there is.
unfoldable pub scan_fraction : Lexer → Lexer × Bool
unfolding peek is_digit advance skip_digits
scan_fraction l =
    if (peek l 0 == b'.') && is_digit (peek l 1)
    then (skip_digits (advance l), true)
    else (l, false)

unfoldable pub skip_sign : Lexer → Lexer
unfolding peek advance
skip_sign l = if is_sign (peek l 0) then advance l else l

unfoldable pub starts_exponent : Lexer → Bool
unfolding peek is_digit
starts_exponent l =
    ((peek l 0 == b'e') || (peek l 0 == b'E')) && (is_digit (peek l 1) || is_sign (peek l 1))

-- The exponent, if there is one, and the token.
unfoldable pub scan_exponent : Lexer → SourceLocation → Lexer × Bool → LexResult → Lexer × LexResult
unfolding skip_digits starts_exponent skip_sign advance peek is_digit
scan_exponent from loc part out =
    let exponent = skip_sign (advance part.0) in
    if starts_exponent part.0
    then (if is_digit (peek exponent 0)
        then add_token TokenKind.lit_float from loc (skip_digits exponent) out
        else add_error_token (codes "Malformed exponent in numeric literal") from loc exponent out)
    else add_token (if part.1 then TokenKind.lit_float else TokenKind.lit_integer) from loc part.0
        out

-- scanNumber
unfoldable pub scan_number : Lexer → Lexer → LexResult → Lexer × LexResult
unfolding current_location skip_digits scan_fraction scan_exponent
scan_number from l out = scan_exponent from (current_location l) (scan_fraction (skip_digits l)) out

-- The loop of scanString and of scanQuotedIdent: the cursor where it ends, and whether it met the
-- closing quote.
unfoldable pub quoted_loop : ℕ → Bytes → Lexer → Lexer × Bool
unfolding behind
quoted_loop q [] l = (l, false)
quoted_loop q (c ∷ []) l = (behind c [] l, c == q)
quoted_loop q (c ∷ d ∷ rest) l =
    let l' = behind c (d ∷ rest) l in
    let escaped = quoted_loop q rest (behind d rest l') in
    let on = quoted_loop q (d ∷ rest) l' in
    if c == q then (if d == q then escaped else (l', true)) else on

unfoldable pub scan_string : Lexer → Lexer → LexResult → Lexer × LexResult
unfolding current_location quoted_loop
scan_string from l out =
    let loc = current_location l in
    let done = quoted_loop 39 l.rest l in
    if done.1
    then add_token TokenKind.lit_string from loc done.0 out
    else add_error_token (codes "Unterminated string literal") from loc done.0 out

unfoldable pub scan_quoted_ident : Lexer → Lexer → LexResult → Lexer × LexResult
unfolding current_location quoted_loop
scan_quoted_ident from l out =
    let loc = current_location l in
    let done = quoted_loop 34 l.rest l in
    if done.1
    then add_token TokenKind.ident from loc done.0 out
    else add_error_token (codes "Unterminated quoted identifier") from loc done.0 out

-- toupper of <cctype>, in the "C" locale
abbrev pub upper : ℕ → ℕ
upper c = if leb b'a' c && leb c b'z' then c - 32 else c

-- scanIdentOrKeyword; the buffer for the upper-case copy has 64 bytes.
unfoldable pub scan_ident_or_keyword : Lexer → Lexer → LexResult → Lexer × LexResult
unfolding current_location skip_while is_word classify_keyword upper
scan_ident_or_keyword from l out =
    let loc = current_location l in
    let l' = skip_while is_word l.rest l in
    let raw = take (l'.pos - from.pos) from.rest in
    add_token (classify_keyword (map upper (take 63 raw))) from loc l' out

unfoldable pub scan_dollar_param : Lexer → Lexer → LexResult → Lexer × LexResult
unfolding current_location peek is_digit skip_digits
scan_dollar_param from l out =
    let loc = current_location l in
    if is_digit (peek l 0)
    then add_token TokenKind.dollar_num from loc (skip_digits l) out
    else add_error_token (codes "Bare '$' is not a valid token; did you mean $1?") from loc l out

-- The switch over the tokens of one character.
abbrev pub single_kind : ℕ → Option TokenKind
single_kind c =
    if c == b'('
    then some TokenKind.lparen
    else if c == b')'
    then some TokenKind.rparen
    else if c == b'['
    then some TokenKind.lbracket
    else if c == b']'
    then some TokenKind.rbracket
    else if c == b','
    then some TokenKind.comma
    else if c == b';'
    then some TokenKind.semicolon
    else if c == b'*'
    then some TokenKind.op_star
    else if c == b'+'
    then some TokenKind.op_plus
    else if c == b'%'
    then some TokenKind.op_percent
    else if c == b'^'
    then some TokenKind.op_caret
    else if c == b'='
    then some TokenKind.op_eq
    else if c == b'?'
    then some TokenKind.question
    else none

-- A second character that decides: `match(expected) ? both : alone`.
unfoldable pub matched : ℕ → TokenKind → TokenKind → Lexer → Lexer → LexResult → Lexer × LexResult
unfolding current_location peek advance
matched expected both alone from l out =
    if peek l 0 == expected
    then add_token both from (current_location from) (advance l) out
    else add_token alone from (current_location from) l out

-- A character that needs its second one.
unfoldable pub required : ℕ → TokenKind → Bytes → Lexer → Lexer → LexResult → Lexer × LexResult
unfolding current_location peek advance
required expected both message from l out =
    if peek l 0 == expected
    then add_token both from (current_location from) (advance l) out
    else add_error_token message from (current_location from) l out

unfoldable pub lex_less : Lexer → Lexer → LexResult → Lexer × LexResult
unfolding matched current_location peek advance
lex_less from l out =
    if peek l 0 == b'='
    then add_token TokenKind.op_lte from (current_location from) (advance l) out
    else matched b'>' TokenKind.op_neq TokenKind.op_lt from l out

unfoldable pub lex_minus : Lexer → Lexer → LexResult → Lexer × LexResult
unfolding matched current_location peek advance
lex_minus from l out =
    if peek l 0 == b'>'
    then matched b'>' TokenKind.op_arrow2 TokenKind.op_arrow from (advance l) out
    else add_token TokenKind.op_minus from (current_location from) l out

unfoldable pub lex_dot : Lexer → Lexer → LexResult → Lexer × LexResult
unfolding current_location peek is_digit skip_digits
lex_dot from l out =
    if is_digit (peek l 0)
    then add_token TokenKind.lit_float from (current_location from) (skip_digits l) out
    else add_token TokenKind.dot from (current_location from) l out

-- The operators of more than one character, the literals and the words.
unfoldable pub lex_other : ℕ → Lexer → Lexer → LexResult → Lexer × LexResult
unfolding lex_less matched required lex_minus lex_dot scan_string scan_quoted_ident scan_number
    scan_dollar_param scan_ident_or_keyword current_location is_digit is_alpha
lex_other c from l out =
    if c == b'<'
    then lex_less from l out
    else if c == b'>'
    then matched b'=' TokenKind.op_gte TokenKind.op_gt from l out
    else if c == b'!'
    then required b'=' TokenKind.op_neq (codes "Unexpected '!'; did you mean '!='?") from l out
    else if c == b'|'
    then required b'|' TokenKind.op_concat (codes "Single '|' is not valid; did you mean '||'?")
        from l out
    else if c == b'-'
    then lex_minus from l out
    else if c == b'/'
    then add_token TokenKind.op_slash from (current_location from) l out
    else if c == b':'
    then matched b':' TokenKind.double_colon TokenKind.colon from l out
    else if c == b'.'
    then lex_dot from l out
    else if c == 39
    then scan_string from l out
    else if c == 34
    then scan_quoted_ident from l out
    else if is_digit c
    then scan_number from l out
    else if c == b'$'
    then scan_dollar_param from l out
    else if is_alpha c || (c == b'_')
    then scan_ident_or_keyword from l out
    else add_error_token (codes "Unexpected character '" ++ (c ∷ 39 ∷ [])) from
        (current_location from) l out

unfoldable pub lex_single : Option TokenKind → ℕ → Lexer → Lexer → LexResult → Lexer × LexResult
unfolding current_location lex_other
lex_single none c from l out = lex_other c from l out
lex_single (some kind) c from l out = add_token kind from (current_location from) l out

-- The body of the loop of tokenize, behind the whitespace and at the byte `c`.
unfoldable pub lex_one : ℕ → Lexer → LexResult → Lexer × LexResult
unfolding advance peek skip_line_comment skip_block_comment lex_single single_kind
lex_one c from out =
    let l = advance from in
    if (c == b'-') && (peek l 0 == b'-')
    then (skip_line_comment (advance l), out)
    else if (c == b'/') && (peek l 0 == b'*')
    then skip_block_comment (advance l) out
    else lex_single (single_kind c) c from l out

-- `if (isAtEnd()) break;`, and the next byte.
abbrev pub at_byte {ℓ} : {A : Type ℓ} → Bytes → A → (ℕ → A) → A
at_byte [] end round = end
at_byte (c ∷ rest) end round = round c

unfoldable pub tokenize_loop : ℕ → Lexer → LexResult → Result (Lexer × LexResult)
unfolding skip_whitespace lex_one
tokenize_loop zero l out = err out_of_fuel
tokenize_loop (suc fuel) l out =
    let l' = skip_whitespace l in
    at_byte l'.rest (ok (l', out))
      (λ c. tokenize_loop fuel (lex_one c l' out).0 (lex_one c l' out).1)

-- tokenize: more rounds than there are bytes are enough.
unfoldable pub tokenize : Bytes → Result LexResult
unfolding tokenize_loop lexer current_location
tokenize source = do
  r ← tokenize_loop (suc (length source)) (lexer source) (record { tokens = []; errors = [] })
  ok (record (r.1) {
    tokens =
        r.1.tokens
        ++ record {
          kind = TokenKind.end_of_file;
          start = r.0.pos;
          size = 0;
          location = current_location r.0;
        }
          ∷ [];
  })
