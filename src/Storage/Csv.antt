-- ===== src/Storage/Csv.antt =====
-- src/storage/csv_reader.h and src/storage/csv_reader.cpp: the records of a CSV text.
pub mod Grid
pub mod Inference
pub mod Load
use lite_query.Prelude.{
  ℕ, suc, Bool, true, false, ◌&&◌, ◌||◌, not, ◌==◌, if◌then◌else◌, Bytes, List, [], ◌∷◌, ◌++◌,
}

pub record CsvOptions : Type 0 where
  pub delimiter : ℕ
  pub has_header : Bool
  pub quote : ℕ
  pub infer_rows : ℕ

-- The variables of parseGrid.
pub record GridState : Type 0 where
  pub in_quotes : Bool
  pub field_started : Bool
  pub field : Bytes
  pub row : List Bytes
  pub rows : List (List Bytes)

abbrev pub end_field : GridState → GridState
end_field s = record s { row = s.row ++ s.field ∷ []; field = []; field_started = false }

abbrev pub end_row : GridState → GridState
end_row s = record (end_field s) { rows = s.rows ++ (s.row ++ s.field ∷ []) ∷ []; row = [] }

abbrev pub add_char : ℕ → GridState → GridState
add_char c s = record s { field = s.field ++ c ∷ [] }

abbrev pub next_is : ℕ → Bytes → Bool
next_is q [] = false
next_is q (c ∷ rest) = c == q

-- One character between quotes, and whether the next one is part of it (`++i`).
unfoldable pub quoted_char : CsvOptions → ℕ → Bool → GridState → GridState × Bool
quoted_char opts c doubled s =
    if c == opts.quote
    then (if doubled
        then (add_char opts.quote s, true)
        else (record s { in_quotes = false }, false))
    else (add_char c s, false)

-- One character outside quotes.
unfoldable pub plain_char : CsvOptions → ℕ → GridState → GridState
plain_char opts c s =
    if c == opts.quote
    then record s { in_quotes = true; field_started = true }
    else if c == opts.delimiter
    then record (end_field s) { field_started = true }
    else if c == 13
    then s
    else if c == 10
    then end_row s
    else record (add_char c s) { field_started = true }

-- The body of the loop, with the rest of the text behind the character.
unfoldable pub grid_char : CsvOptions → ℕ → Bytes → GridState → GridState × Bool
unfolding quoted_char plain_char
grid_char opts c rest s =
    if s.in_quotes
    then quoted_char opts c (next_is opts.quote rest) s
    else (plain_char opts c s, false)

-- The loop; `skip` says that the character has been taken together with the one before it.
unfoldable pub grid_loop : CsvOptions → Bytes → Bool → GridState → GridState
unfolding grid_char
grid_loop opts [] skip s = s
grid_loop opts (c ∷ rest) true s = grid_loop opts rest false s
grid_loop opts (c ∷ rest) false s = let r = grid_char opts c rest s in grid_loop opts rest r.1 r.0

abbrev pub is_nil {ℓ} : {A : Type ℓ} → List A → Bool
is_nil [] = true
is_nil (x ∷ xs) = false

-- The record of a text that does not end in a newline.
unfoldable pub flush : GridState → GridState
unfolding is_nil
flush s = if s.field_started || (not (is_nil s.field) || not (is_nil s.row)) then end_row s else s

-- `allEmpty && last.size() <= 1`
unfoldable pub blank_record : List Bytes → Bool
unfolding is_nil
blank_record [] = true
blank_record (f ∷ fields) = is_nil f && is_nil fields

-- The loop that drops blank records from the end.
unfoldable pub trim_rows : List (List Bytes) → List (List Bytes)
unfolding blank_record
trim_rows [] = []
trim_rows (row ∷ rows) =
    let kept = trim_rows rows in if is_nil kept && blank_record row then [] else row ∷ kept

abbrev pub skip_bom : Bytes → Bytes
skip_bom (a ∷ b ∷ c ∷ rest) =
    if (a == 239) && ((b == 187) && (c == 191)) then rest else a ∷ b ∷ c ∷ rest
skip_bom text = text

-- parseGrid
unfoldable pub parse_grid : CsvOptions → Bytes → List (List Bytes)
unfolding trim_rows flush grid_loop skip_bom
parse_grid opts text =
    trim_rows
      (flush (
        grid_loop opts (skip_bom text) false (record {
          in_quotes = false;
          field_started = false;
          field = [];
          row = [];
          rows = [];
        }))).rows
