-- ===== src/Parser/Token/Keywords.antt =====
-- src/parser/lexer.cpp, keywordTable: its words against the names of the kinds.
use lite_query.Prelude.{
  bytes_eq-eq, and_true, Bool, true, ◌&&◌, ◌≡◌, refl, ◌∙◌, Bytes, bytes_eq, List, [], ◌∷◌,
  if◌then◌else◌, Bool-cases, false≢true, inl, inr,
}
use lite_query.Parser.Token.{
  TokenKind, is_keyword, is_literal, token_kind_name, keyword_table, find_keyword, or_ident,
  classify_keyword,
}

abbrev named : (Bytes × TokenKind) → Bool
unfolding is_keyword token_kind_name bytes_eq
named e = if is_keyword e.1 then bytes_eq (token_kind_name e.1) e.0 else is_literal e.1

abbrev all_named : List (Bytes × TokenKind) → Bool
unfolding is_keyword token_kind_name bytes_eq is_literal
all_named [] = true
all_named (e ∷ t) = named e && all_named t

table-named : all_named keyword_table ≡ true
unfolding all_named keyword_table
table-named = refl

-- Whether the entry found is a keyword that bears its word as its name.
find-named :
    (table : List (Bytes × TokenKind)) (word : Bytes)
    → all_named table ≡ true
    → is_keyword (or_ident (find_keyword table word)) ≡ true
    → token_kind_name (or_ident (find_keyword table word)) ≡ word
unfolding find_keyword is_keyword named all_named
find-named [] word n h = absurd (false≢true h)
find-named (entry ∷ table) word n h = elim (Bool-cases (bytes_eq entry.0 word)) [
  | inl e ↦
      let kept : is_keyword entry.1 ≡ true = rw e at h in
      let spelt : bytes_eq (token_kind_name entry.1) entry.0 ≡ true =
        rw kept at (and_true (named entry) (all_named table) n).0 in
      rw e (bytes_eq-eq (token_kind_name entry.1) entry.0 spelt ∙ bytes_eq-eq entry.0 word e)
  | inr e ↦ rw e (find-named table word (and_true (named entry) (all_named table) n).1 (rw e at h))
]

-- A word that the table makes a keyword is the name of that keyword's kind.
pub classify_keyword-token_kind_name :
    (word : Bytes)
    → is_keyword (classify_keyword word) ≡ true
    → token_kind_name (classify_keyword word) ≡ word
unfolding classify_keyword
classify_keyword-token_kind_name word h = find-named keyword_table word table-named h
