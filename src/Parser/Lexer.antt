-- ===== src/Parser/Lexer.antt =====
-- src/parser/lexer.h and src/parser/lexer.cpp, Lexer: the cursor and what skips text.
pub mod Scan
pub mod Ahead
pub mod Progress
pub mod Tokens
pub mod Literals
use lite_query.Prelude.{
  drop, take, ℕ, zero, suc, ◌+◌, ◌-◌, ◌%◌, ◌^◌, Bool, true, false, not, ◌&&◌, ◌||◌, leb, ◌==◌,
  if◌then◌else◌, Bytes, codes, List, [], ◌∷◌, ◌++◌, length, take, drop, get_or, to_string_ℕ,
}
use lite_query.Prelude.Result.{Result, ok, err, logic_error}
use lite_query.Parser.Token.{TokenKind}

pub record SourceLocation : Type 0 where
  pub line : ℕ
  pub column : ℕ

unfoldable pub location_eq : SourceLocation → SourceLocation → Bool
location_eq a b = (a.line == b.line) && (a.column == b.column)

unfoldable pub location_to_string : SourceLocation → Bytes
unfolding to_string_ℕ
location_to_string l = to_string_ℕ l.line ++ (codes ":" ++ to_string_ℕ l.column)

-- `lexeme` is a view into the source: where it starts, and how long it is.
pub record Token : Type 0 where
  pub kind : TokenKind
  pub start : ℕ
  pub size : ℕ
  pub location : SourceLocation

pub record LexError : Type 0 where
  pub message : Bytes
  pub location : SourceLocation

pub record LexResult : Type 0 where
  pub tokens : List Token
  pub errors : List LexError

abbrev no_errors : List LexError → Bool
no_errors [] = true
no_errors (e ∷ errors) = false

-- LexResult::ok
unfoldable pub lex_ok : LexResult → Bool
unfolding no_errors
lex_ok r = no_errors r.errors

-- `rest` is `source_` from `pos_` on. Comments are always skipped.
pub record Lexer : Type 0 where
  pub rest : Bytes
  pub pos : ℕ
  pub line : ℕ
  pub column : ℕ

unfoldable pub lexer : Bytes → Lexer
lexer source = record { rest = source; pos = 0; line = 1; column = 1 }

unfoldable pub peek : Lexer → ℕ → ℕ
peek l offset = get_or l.rest offset 0

unfoldable pub is_at_end : Lexer → Bool
is_at_end l = elim l.rest [ [] ↦ true | c ∷ rest ↦ false ]

-- The cursor behind the byte `c`; `line_` and `column_` are uint32_t.
abbrev pub behind : ℕ → Bytes → Lexer → Lexer
behind c rest l =
    if c == 10
    then record { rest = rest; pos = suc l.pos; line = (l.line + 1) % 2 ^ 32; column = 1 }
    else record { rest = rest; pos = suc l.pos; line = l.line; column = (l.column + 1) % 2 ^ 32 }

abbrev pub advance_to : Bytes → Lexer → Lexer
advance_to [] l = l
advance_to (c ∷ rest) l = behind c rest l

-- advance, of which every call has made sure that it is not at the end.
unfoldable pub advance : Lexer → Lexer
unfolding advance_to
advance l = advance_to l.rest l

unfoldable pub current_location : Lexer → SourceLocation
current_location l = record { line = l.line; column = l.column }

-- `while (!isAtEnd() && test(peek())) advance();`, from the rest `bs` of the source on
unfoldable pub skip_while : (ℕ → Bool) → Bytes → Lexer → Lexer
unfolding behind
skip_while test [] l = l
skip_while test (c ∷ rest) l =
    let on = skip_while test rest (behind c rest l) in if test c then on else l

unfoldable pub is_digit : ℕ → Bool
is_digit c = leb b'0' c && leb c b'9'

unfoldable pub is_alpha : ℕ → Bool
is_alpha c = (leb b'A' c && leb c b'Z') || (leb b'a' c && leb c b'z')

abbrev pub is_space : ℕ → Bool
is_space c = (c == 32) || ((c == 9) || ((c == 13) || (c == 10)))

abbrev pub not_newline : ℕ → Bool
not_newline c = not (c == 10)

abbrev pub is_word : ℕ → Bool
unfolding is_alpha is_digit
is_word c = is_alpha c || (is_digit c || (c == b'_'))

unfoldable pub skip_whitespace : Lexer → Lexer
unfolding skip_while is_space
skip_whitespace l = skip_while is_space l.rest l

unfoldable pub skip_line_comment : Lexer → Lexer
unfolding skip_while not_newline
skip_line_comment l = skip_while not_newline l.rest l

unfoldable pub skip_digits : Lexer → Lexer
unfolding skip_while is_digit
skip_digits l = skip_while is_digit l.rest l

-- The loop of skipBlockComment: the cursor and the depth where it ends.
unfoldable pub comment_loop : Bytes → Lexer → ℕ → Lexer × ℕ
unfolding behind
comment_loop bs l zero = (l, zero)
comment_loop [] l (suc depth) = (l, suc depth)
comment_loop (c ∷ []) l (suc depth) = (behind c [] l, suc depth)
comment_loop (c ∷ d ∷ rest) l (suc depth) =
    let l' = behind c (d ∷ rest) l in
    let l'' = behind d rest l' in
    let deeper = comment_loop rest l'' (suc (suc depth)) in
    let closed = comment_loop rest l'' depth in
    let on = comment_loop (d ∷ rest) l' (suc depth) in
    if (c == b'/') && (d == b'*') then deeper else if (c == b'*') && (d == b'/') then closed else on

abbrev pub add_error : Bytes → SourceLocation → LexResult → LexResult
add_error message location out = record out {
  errors = out.errors ++ record { message = message; location = location } ∷ [];
}

abbrev comment_result : SourceLocation → LexResult → ℕ → LexResult
comment_result start out zero = out
comment_result start out (suc depth) = add_error (codes "Unterminated block comment") start out

unfoldable pub skip_block_comment : Lexer → LexResult → Lexer × LexResult
unfolding comment_loop comment_result current_location
skip_block_comment l out =
    let done = comment_loop l.rest l 1 in (done.0, comment_result (current_location l) out done.1)

-- The loop of Token::stringValue over what stands between the quotes.
unfoldable pub unescape : Bytes → Bytes
unescape [] = []
unescape (a ∷ []) = a ∷ []
unescape (a ∷ b ∷ rest) =
    let pair = unescape rest in
    let on = unescape (b ∷ rest) in if (a == 39) && (b == 39) then 39 ∷ pair else a ∷ on

abbrev is_string : TokenKind → Bool
is_string TokenKind.lit_string = true
is_string kind = false

-- Token::stringValue, on the text of the token; the assert is that of a release build.
unfoldable pub string_value : Bytes → Token → Result Bytes
unfolding is_string unescape
string_value lexeme t =
    if is_string t.kind
    then ok (unescape (take (length lexeme - 2) (drop 1 lexeme)))
    else err logic_error

-- The text of a token.
unfoldable pub lexeme_of : Bytes → Token → Bytes
lexeme_of source t = take t.size (drop t.start source)
