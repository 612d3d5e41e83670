-- ===== src/Execution/Operator/Distinct/Texts.antt =====
-- src/execution/physical_plan.cpp, rowKey: where the keys of rows of texts tell the rows apart.
use lite_query.Prelude.{
  arith, ◌≡◌, ◌≢◌, refl, sym, ap, ap₂, ◌∙◌, Option, none, some, Bytes, List, [], ◌∷◌, ◌++◌, map,
  All,
}
use lite_query.Prelude.{to_string_ℕ}
use lite_query.Types.Floats.{Floats}
use lite_query.Types.TypeId.{type_code}
use lite_query.Types.Value.{Value, null, string, to_string, type_id, is_null}
use lite_query.Execution.Operator.Distinct.{ℕ, cell_key, row_key}

-- A text without the byte that a cell's key begins with, or no text.
abbrev pub IsFree : Bytes → Type 0
IsFree x = All (λ c. c ≢ 1) x

abbrev pub IsFreeCell : Option Bytes → Type 0
IsFreeCell none = Unit {0}
IsFreeCell (some x) = IsFree x

abbrev pub text_cell : {F : Type 0} → Option Bytes → Value F
text_cell none = null
text_cell (some x) = string x

-- The rest of a key: it is at its end, or begins the next cell.
abbrev Starts : Bytes → Type 0
Starts [] = Unit {0}
Starts (c ∷ s) = c ≡ 1

head-injective : {c d : ℕ} {x y : Bytes} → c ∷ x ≡ d ∷ y → c ≡ d
head-injective h = cc

tail-injective : {c d : ℕ} {x y : Bytes} → c ∷ x ≡ d ∷ y → x ≡ y
tail-injective h = cc

[]≢∷ : {c : ℕ} {x : Bytes} → [] ≡ c ∷ x → ⊥
[]≢∷ h = cc

ends_there : (d : ℕ) (y r : Bytes) → d ≢ 1 → Starts r → r ≡ d ∷ y → ⊥
ends_there d y [] free s e = []≢∷ e
ends_there d y (c ∷ r) free s e = free (sym (head-injective e) ∙ s)

split_key :
    (x y r r' : Bytes)
    → IsFree x
    → IsFree y
    → Starts r
    → Starts r'
    → x ++ r ≡ y ++ r'
    → (x ≡ y) × (r ≡ r')
split_key [] [] r r' fx fy s s' e = (refl, e)
split_key [] (d ∷ y) r r' fx fy s s' e = absurd (ends_there d (y ++ r') r fy.0 s e)
split_key (c ∷ x) [] r r' fx fy s s' e = absurd (ends_there c (x ++ r) r' fx.0 s' (sym e))
split_key (c ∷ x) (d ∷ y) r r' fx fy s s' e =
    let (p, q) = split_key x y r r' fx.1 fy.1 s s' (tail-injective e) in
    (ap₂ (λ h t. h ∷ t) (head-injective e) p, q)

module _ (F : Type 0) ⦃fl : Floats F⦄ where
  abbrev key : List (Option Bytes) → Bytes
  unfolding row_key
  key cells = row_key {F = F} (map text_cell cells)

  key-Starts : (cells : List (Option Bytes)) → Starts (key cells)
  unfolding key row_key cell_key to_string type_code type_id is_null to_string_ℕ
  key-Starts [] = tt
  key-Starts (none ∷ cells) = refl
  key-Starts (some x ∷ cells) = refl

  -- On rows of texts and NULLs the key tells different rows apart, also of different widths, where no
  -- text holds the byte 1 that a cell's key begins with.
  pub row_key-texts :
      (xs ys : List (Option Bytes))
      → All IsFreeCell xs
      → All IsFreeCell ys
      → row_key {F = F} (map text_cell xs) ≡ row_key {F = F} (map text_cell ys)
      → xs ≡ ys
  unfolding row_key cell_key to_string type_code type_id is_null to_string_ℕ
  row_key-texts [] [] fx fy e = refl
  row_key-texts [] (none ∷ ys) fx fy e = absurd ([]≢∷ e)
  row_key-texts [] (some y ∷ ys) fx fy e = absurd ([]≢∷ e)
  row_key-texts (none ∷ xs) [] fx fy e = absurd ([]≢∷ (sym e))
  row_key-texts (some x ∷ xs) [] fx fy e = absurd ([]≢∷ (sym e))
  row_key-texts (none ∷ xs) (none ∷ ys) fx fy e =
      ap (λ l. none ∷ l) (row_key-texts xs ys fx.1 fy.1 (tail-injective (tail-injective e)))
  row_key-texts (none ∷ xs) (some y ∷ ys) fx fy e =
      absurd (omega (arith, head-injective (tail-injective e)))
  row_key-texts (some x ∷ xs) (none ∷ ys) fx fy e =
      absurd (omega (arith, head-injective (tail-injective e)))
  row_key-texts (some x ∷ xs) (some y ∷ ys) fx fy e =
      let (p, q) =
        split_key x y (key xs) (key ys) fx.0 fy.0 (key-Starts xs) (key-Starts ys)
          (tail-injective (tail-injective (tail-injective e))) in
      ap₂ (λ c l. some c ∷ l) p (row_key-texts xs ys fx.1 fy.1 q)
