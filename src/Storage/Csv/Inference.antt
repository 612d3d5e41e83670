-- ===== src/Storage/Csv/Inference.antt =====
-- src/storage/csv_reader.cpp: the types of the columns of a CSV text, and its cells as values.
pub mod Readable
use lite_query.Prelude.{
  ℕ, ◌+◌, ◌-◌, min, ◌≡◌, refl, Bool, true, false, false≢true, ◌&&◌, ◌||◌, leb, ◌==◌, if◌then◌else◌,
  Bool-cases, Option-cases, inl, inr, Bytes, Option, none, some, List, [], ◌∷◌, length, take, drop,
  get_elem?, All,
}
use lite_query.Prelude.Int.{ℤ}
use lite_query.Prelude.Result.{Result, ok, err, undefined}
use lite_query.Types.Value.{Value, null, int64, string}
use lite_query.Storage.Csv.{is_nil}

-- std::from_chars into an int64_t and std::stod, each on a whole text: `none` if it is no number, is
-- out of range, or has anything behind the number.
pub record Numerals (F : Type 0) : Type 0 where
  pub from_chars : Bytes → Option ℤ
  pub stod : Bytes → Option F

-- isspace of <cctype>, in the "C" locale
abbrev pub is_white : ℕ → Bool
is_white c = (c == 32) || (leb 9 c && leb c 13)

unfoldable pub is_blank : Bytes → Bool
unfolding is_white
is_blank [] = true
is_blank (c ∷ s) = is_white c && is_blank s

abbrev is_gap : ℕ → Bool
is_gap c = (c == 32) || (c == 9)

abbrev strip_front : Bytes → Bytes
strip_front [] = []
strip_front (c ∷ s) = if is_gap c then strip_front s else c ∷ s

abbrev strip_back : Bytes → Bytes
strip_back [] = []
strip_back (c ∷ s) = let rest = strip_back s in if is_nil rest && is_gap c then [] else c ∷ rest

-- `s.substr(a, b - a + 1)`, from the first to the last character that is no space or tab.
unfoldable pub strip : Bytes → Bytes
unfolding strip_front strip_back
strip s = strip_back (strip_front s)

pub data Inferred : Type 0 where
  int double text : Inferred

module _ {F : Type 0} (n : Numerals F) where
  unfoldable pub parses_as_int : Bytes → Option ℤ
  unfolding strip
  parses_as_int s = if is_nil (strip s) then none else n.from_chars (strip s)

  unfoldable pub parses_as_double : Bytes → Option F
  unfolding strip
  parses_as_double s = if is_nil (strip s) then none else n.stod (strip s)

  abbrev double_or_text : Option F → Inferred
  double_or_text none = Inferred.text
  double_or_text (some x) = Inferred.double

  abbrev int_or : Option ℤ → Inferred → Inferred
  int_or none t = t
  int_or (some i) t = Inferred.int

  -- What one cell that is not blank makes of the type so far.
  unfoldable pub infer_cell : Inferred → Bytes → Inferred
  unfolding parses_as_int parses_as_double
  infer_cell Inferred.int cell =
      int_or (parses_as_int cell) (double_or_text (parses_as_double cell))
  infer_cell Inferred.double cell = double_or_text (parses_as_double cell)
  infer_cell Inferred.text cell = Inferred.text

  -- `break` at the widest type
  abbrev pub until_text : Inferred → Inferred × Bool → Inferred × Bool
  until_text Inferred.text rest = (Inferred.text, true)
  until_text t rest = rest

  abbrev pub infer_at :
      Inferred → Bool → Option Bytes → (Inferred → Bool → Inferred × Bool) → Inferred × Bool
  unfolding is_blank infer_cell
  infer_at t saw none next = next t saw
  infer_at t saw (some cell) next =
      if is_blank cell
      then next t saw
      else until_text (infer_cell t cell) (next (infer_cell t cell) true)

  -- The loop over the rows: the type, and `sawAny`.
  unfoldable pub infer_loop : ℕ → List (List Bytes) → Inferred → Bool → Inferred × Bool
  unfolding infer_at
  infer_loop col [] t saw = (t, saw)
  infer_loop col (row ∷ rows) t saw =
      infer_at t saw (get_elem? row col) (λ t' saw'. infer_loop col rows t' saw')

  -- inferColumn
  unfoldable pub infer_column : List (List Bytes) → ℕ → ℕ → ℕ → Inferred
  unfolding infer_loop
  infer_column grid col start infer_rows =
      let limit = if infer_rows == 0 then length grid else min (length grid) (start + infer_rows) in
      let r = infer_loop col (take (limit - start) (drop start grid)) Inferred.int false in
      if r.1 then r.0 else Inferred.text

  abbrev int_or_undefined : Option ℤ → Result (Value F)
  int_or_undefined none = err undefined
  int_or_undefined (some i) = ok (int64 i)

  abbrev double_or_undefined : Option F → Result (Value F)
  double_or_undefined none = err undefined
  double_or_undefined (some x) = ok (Value.double x)

  -- cellToValue; the variable of a number that does not parse is read without a value. Where a number
  -- stands in front of other text the code has stored that number, and the model has `undefined` there
  -- too.
  unfoldable pub cell_to_value : Bytes → Inferred → Result (Value F)
  unfolding is_blank parses_as_int parses_as_double
  cell_to_value cell Inferred.int =
      if is_blank cell then ok null else int_or_undefined (parses_as_int cell)
  cell_to_value cell Inferred.double =
      if is_blank cell then ok null else double_or_undefined (parses_as_double cell)
  cell_to_value cell Inferred.text = if is_blank cell then ok null else ok (string cell)
