-- ===== src/Storage/Bitmap/Flags.antt =====
-- src/storage/column.h, ValidityBitmap: the packed words behave as a list of flags.
use lite_query.Prelude.{
  ℕ, zero, suc, ◌+◌, ◌/◌, ◌%◌, ◌≤◌, ◌<◌, ◌≡◌, refl, sym, ap, ◌∙◌, arith, Bool, true, false, ◌||◌,
  leb, ◌==◌, if◌then◌else◌, Bool-cases, inl, inr, List, [], ◌∷◌, ◌++◌, length, length-append,
  length-set, get_elem?, get_elem?_bound, get_or, set, drop, some,
}
use lite_query.Prelude.Result.{ok}
use lite_query.Storage.Bitmap.{
  ValidityBitmap, empty_bitmap, bit, set_bit, push, is_valid, find_null, assign_raw,
}
use lite_query.Storage.Bitmap.Bits.{bit-set_bit, zero-bit}

module _ {ℓ} {A : Type ℓ} where
  get_or-append_default : (xs : List A) (i : ℕ) (d : A) → get_or (xs ++ d ∷ []) i d ≡ get_or xs i d
  get_or-append_default [] zero d = refl
  get_or-append_default [] (suc i) d = refl
  get_or-append_default (x ∷ xs) zero d = refl
  get_or-append_default (x ∷ xs) (suc i) d = get_or-append_default xs i d

  get_or-get_elem? :
      (xs : List A) (i : ℕ) (d : A) {a : A} → get_elem? xs i ≡ some a → get_or xs i d ≡ a
  get_or-get_elem? [] i d h = cc
  get_or-get_elem? (x ∷ xs) zero d h = cc
  get_or-get_elem? (x ∷ xs) (suc i) d h = get_or-get_elem? xs i d h

  get_or-set_same : (xs : List A) (i : ℕ) (v d : A) → i < length xs → get_or (set xs i v) i d ≡ v
  get_or-set_same [] i v d h = absurd (omega arith)
  get_or-set_same (x ∷ xs) zero v d h = refl
  get_or-set_same (x ∷ xs) (suc i) v d h = get_or-set_same xs i v d (omega arith)

  get_or-set_other :
      (xs : List A) (i j : ℕ) (v d : A) → (j == i) ≡ false → get_or (set xs i v) j d ≡ get_or xs j d
  get_or-set_other [] i j v d h = refl
  get_or-set_other (x ∷ xs) zero zero v d h = absurd (ground arith)
  get_or-set_other (x ∷ xs) zero (suc j) v d h = refl
  get_or-set_other (x ∷ xs) (suc i) zero v d h = refl
  get_or-set_other (x ∷ xs) (suc i) (suc j) v d h = get_or-set_other xs i j v d (ground arith)

get_or-append_true :
    (flags : List Bool) (i : ℕ)
    → get_or (flags ++ true ∷ []) i false ≡ ((i == length flags) || get_or flags i false)
get_or-append_true [] zero = refl
get_or-append_true [] (suc i) = ground arith
get_or-append_true (f ∷ flags) zero = ground arith
get_or-append_true (f ∷ flags) (suc i) =
    let same : (suc i == suc (length flags)) ≡ (i == length flags) = ground arith in
    rw same (get_or-append_true flags i)

abbrev pub has_null : List Bool → Bool
has_null [] = false
has_null (f ∷ flags) = if f then has_null flags else true

has_null-append :
    (flags : List Bool) (f : Bool)
    → has_null (flags ++ f ∷ []) ≡ (if f then has_null flags else true)
has_null-append [] f = refl
has_null-append (true ∷ flags) f = has_null-append flags f
has_null-append (false ∷ flags) true = refl
has_null-append (false ∷ flags) false = refl

-- The bitmap stands for these flags, one for each row.
pub record Tracks (b : ValidityBitmap) (flags : List Bool) : Type 0 where
  pub count : b.count ≡ length flags
  pub room : length b.words ≡ (length flags + 63) / 64
  -- also behind the last row, where all bits are clear
  pub bits : (i : ℕ) → bit (get_or b.words (i / 64) 0) (i % 64) ≡ get_or flags i false
  pub nulls : b.any_null ≡ has_null flags

pub empty-Tracks : Tracks empty_bitmap []
empty-Tracks = record { count = refl; room = refl; bits = λ i. zero-bit (i % 64); nulls = refl }

module _ (b : ValidityBitmap) (flags : List Bool) (h : Tracks b flags) where
  abbrev grown : List ℕ
  grown = if leb (length b.words) (b.count / 64) then b.words ++ 0 ∷ [] else b.words

  grown-same : (q : ℕ) → get_or grown q 0 ≡ get_or b.words q 0
  grown-same q = elim (Bool-cases (leb (length b.words) (b.count / 64))) [
    | inl e ↦ rw e (get_or-append_default b.words q 0)
    | inr e ↦ rw e refl
  ]

  length-grown : length grown ≡ (length flags + 64) / 64
  length-grown = elim (Bool-cases (leb (length b.words) (b.count / 64))) [
    | inl e ↦ rw e (ground (arith, length-append b.words (0 ∷ []), h.count, h.room))
    | inr e ↦ rw e (ground (arith, h.count, h.room))
  ]

  abbrev last_word : ℕ
  last_word = get_or grown (b.count / 64) 0

  abbrev marked : ℕ
  marked = set_bit last_word (b.count % 64)

  push_true-bits :
      (i : ℕ)
      → bit (get_or (set grown (b.count / 64) marked) (i / 64) 0) (i % 64)
        ≡ get_or (flags ++ true ∷ []) i false
  push_true-bits i = elim (Bool-cases (i / 64 == b.count / 64)) [
    | inl e ↦
        let q : i / 64 ≡ b.count / 64 = ground arith in
        let here : (i % 64 == b.count % 64) ≡ (i == length flags) = ground (arith, h.count) in
        let inside : b.count / 64 < length grown = omega (arith, length-grown, h.count) in
        ap (λ v. bit v (i % 64))
          (ap (λ (k : ℕ). get_or (set grown (b.count / 64) marked) k 0) q
            ∙ get_or-set_same grown (b.count / 64) marked 0 inside)
        ∙ bit-set_bit last_word (b.count % 64) (i % 64)
        ∙ ap (λ t. t || bit last_word (i % 64)) here
        ∙ ap (λ t. (i == length flags) || t)
            (ap (λ v. bit v (i % 64))
                (ap (λ (k : ℕ). get_or grown k 0) (sym q) ∙ grown-same (i / 64))
              ∙ h.bits i)
        ∙ sym (get_or-append_true flags i)
    | inr e ↦
        let other : (i == length flags) ≡ false = ground (arith, h.count) in
        ap (λ v. bit v (i % 64))
          (get_or-set_other grown (b.count / 64) (i / 64) marked 0 e ∙ grown-same (i / 64))
        ∙ h.bits i
        ∙ ap (λ t. t || get_or flags i false) (sym other)
        ∙ sym (get_or-append_true flags i)
  ]

  -- A bitmap that stands for a list of flags stands, after a push, for the list with the flag behind
  -- it.
  pub push-Tracks : (valid : Bool) → Tracks (push valid b) (flags ++ valid ∷ [])
  unfolding push
  push-Tracks true = record {
    count = omega (arith, h.count, length-append flags (true ∷ []));
    room =
        length-set grown (b.count / 64) marked
        ∙ omega (arith, length-grown, length-append flags (true ∷ []));
    bits = push_true-bits;
    nulls = h.nulls ∙ sym (has_null-append flags true);
  }
  push-Tracks false = record {
    count = omega (arith, h.count, length-append flags (false ∷ []));
    room = omega (arith, length-grown, length-append flags (false ∷ []));
    bits = λ i.
        ap (λ v. bit v (i % 64)) (grown-same (i / 64))
        ∙ h.bits i
        ∙ sym (get_or-append_default flags i false);
    nulls = sym (has_null-append flags false);
  }

module _ (words : List ℕ) (count : ℕ) (any_null : Bool) (flags : List Bool)
    (h : Tracks (record { words = words; count = count; any_null = any_null }) flags) where
  -- isValid reads the flag of the row, whatever the other members are.
  words-is_valid :
      (n : ℕ) (some_null : Bool) (i : ℕ)
      → i < length flags
      → is_valid (record { words = words; count = n; any_null = some_null }) i
        ≡ ok (get_or flags i false)
  unfolding is_valid
  words-is_valid n some_null i lt =
      let (w, e) = get_elem?_bound words (i / 64) (omega (arith, h.room)) in
      rw e (ap ok (ap (λ v. bit v (i % 64)) (sym (get_or-get_elem? words (i / 64) 0 e)) ∙ h.bits i))

  flag-drop :
      (i : ℕ) (xs : List Bool)
      → i < length xs
      → has_null (drop i xs) ≡ (if get_or xs i false then has_null (drop (suc i) xs) else true)
  flag-drop i [] lt = absurd (omega arith)
  flag-drop zero (x ∷ xs) lt = refl
  flag-drop (suc i) (x ∷ xs) lt = flag-drop i xs (omega arith)

  nothing-left : (i : ℕ) (xs : List Bool) → length xs ≤ i → has_null (drop i xs) ≡ false
  nothing-left zero [] le = refl
  nothing-left (suc i) [] le = refl
  nothing-left zero (x ∷ xs) le = absurd (omega arith)
  nothing-left (suc i) (x ∷ xs) le = nothing-left i xs (omega arith)

  find_null-flags :
      (c n i : ℕ)
      → n + i ≡ length flags
      → find_null (record { words = words; count = c; any_null = false }) n i
        ≡ ok (has_null (drop i flags))
  unfolding find_null
  find_null-flags c zero i e = ap ok (sym (nothing-left i flags (omega arith)))
  find_null-flags c (suc n) i e =
      rw
        (
          words-is_valid c false i (omega arith),
          find_null-flags c n (suc i) (omega arith),
          flag-drop i flags (omega arith),
        )
        (both (get_or flags i false))
    where
      both :
          (f : Bool)
          → (if f then ok (has_null (drop (suc i) flags)) else ok true)
            ≡ ok (if f then has_null (drop (suc i) flags) else true)
      both true = refl
      both false = refl

-- On a bitmap that stands for a list of flags isValid answers the flag of each row of the list, and
-- reads no word out of range.
pub is_valid-Tracks :
    (b : ValidityBitmap) (flags : List Bool) (i : ℕ)
    → Tracks b flags
    → i < length flags
    → is_valid b i ≡ ok (get_or flags i false)
is_valid-Tracks b flags i h lt =
    words-is_valid b.words b.count b.any_null flags h b.count b.any_null i lt

-- A bitmap that stands for a list of flags is restored exactly from its words and its size, the
-- member for NULLs included.
pub assign_raw-words :
    (b : ValidityBitmap) (flags : List Bool) → Tracks b flags → assign_raw b.words b.count ≡ ok b
unfolding assign_raw
assign_raw-words b flags h =
    let found =
      find_null-flags b.words b.count b.any_null flags h b.count b.count 0
        (omega (arith, h.count)) in
    rw (found, sym h.nulls) refl
