-- ===== src/Storage/Bitmap/Bits.antt =====
-- src/storage/column.h: the bits of a word when one more bit is set.
use native.Mathlib.Nat.{div-div-eq-div-mul}
use lite_query.Prelude.{
  ℕ, zero, suc, ◌+◌, ◌*◌, ◌/◌, ◌%◌, ◌^◌, ◌≡◌, refl, sym, ap, ◌∙◌, arith, false, ◌||◌, ◌==◌,
  Bool-cases, inl, inr,
}
use lite_query.Storage.Bitmap.{bit, set_bit}

power-suc : (j : ℕ) → 2 ^ suc j ≡ 2 * 2 ^ j
power-suc j = omega arith

bit-suc : (w j : ℕ) → bit w (suc j) ≡ bit (w / 2) j
unfolding bit
bit-suc w j =
    ap (λ (d : ℕ). d % 2 == 1)
      (ap (λ (d : ℕ). w / d) (power-suc j) ∙ sym (div-div-eq-div-mul w 2 (2 ^ j)))

bit-zero : (w : ℕ) → bit w 0 ≡ (w % 2 == 1)
unfolding bit
bit-zero w = ap (λ (d : ℕ). d % 2 == 1) (omega arith)

-- Where bit k is clear, adding 2^k sets it and no other.
bit-add_power : (k j w : ℕ) → bit w k ≡ false → bit (w + 2 ^ k) j ≡ ((j == k) || bit w j)
bit-add_power zero zero w h =
    let even : (w % 2 == 1) ≡ false = sym (bit-zero w) ∙ h in bit-zero (w + 1) ∙ ground arith
bit-add_power zero (suc j) w h =
    let even : (w % 2 == 1) ≡ false = sym (bit-zero w) ∙ h in
    let other : (suc j == 0) ≡ false = ground arith in
    let half : (w + 1) / 2 ≡ w / 2 = ground arith in
    rw other (bit-suc (w + 1) j ∙ ap (λ v. bit v j) half ∙ sym (bit-suc w j))
bit-add_power (suc k) zero w h =
    let other : (0 == suc k) ≡ false = ground arith in
    let same : (w + 2 ^ suc k) % 2 ≡ w % 2 = omega (arith, power-suc k) in
    rw other (bit-zero (w + 2 ^ suc k) ∙ ap (λ (v : ℕ). v == 1) same ∙ sym (bit-zero w))
bit-add_power (suc k) (suc j) w h =
    let half : (w + 2 ^ suc k) / 2 ≡ w / 2 + 2 ^ k = omega (arith, power-suc k) in
    let same : (suc j == suc k) ≡ (j == k) = ground arith in
    rw same (
      bit-suc (w + 2 ^ suc k) j
      ∙ ap (λ v. bit v j) half
      ∙ bit-add_power k j (w / 2) (sym (bit-suc w k) ∙ h)
      ∙ ap (λ b. (j == k) || b) (sym (bit-suc w j)))

-- Setting a bit sets it and no other.
pub bit-set_bit : (w k j : ℕ) → bit (set_bit w k) j ≡ ((j == k) || bit w j)
unfolding set_bit
bit-set_bit w k j = elim (Bool-cases (bit w k)) [
  | inl e ↦ elim (Bool-cases (j == k)) [
    | inl q ↦ let same : j ≡ k = ground arith in rw (e, q) (ap (λ v. bit w v) same ∙ e)
    | inr q ↦ rw (e, q) refl
  ]
  | inr e ↦ rw e (bit-add_power k j w e)
]

-- A word of zeros has no bit.
pub zero-bit : (j : ℕ) → bit 0 j ≡ false
zero-bit zero = bit-zero 0
zero-bit (suc j) = bit-suc 0 j ∙ zero-bit j
