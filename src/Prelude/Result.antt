-- ===== src/Prelude/Result.antt =====
-- The outcome of C++ code that may throw, or whose behaviour the standard leaves undefined.
use mathlib.Core.Path.{◌≡◌, refl}
use mathlib.Core.Logic.{◌⊎◌, inl, inr}
use mathlib.Core.List.{List, [], ◌∷◌}

-- The exceptions that the engine throws, by their classes, and `undefined` for what C++ leaves
-- undefined (an index out of range, an overflow of int64_t, a cast out of range).
pub data Fault : Type 0 where
  eval_error runtime_error bad_variant_access persistence_error bad_alloc logic_error csv_error
        undefined :
      Fault
  -- of the model only: a loop was given too little fuel
  out_of_fuel : Fault

pub data Result {ℓ} (A : Type ℓ) : Type ℓ where
  ok : A → Result A
  err : Fault → Result A

pub ok-injective {ℓ} : {A : Type ℓ} {a b : A} → ok a ≡ ok b → a ≡ b
ok-injective h = cc

module _ {ℓ κ} {A : Type ℓ} {B : Type κ} where
  infixl 5 ◌>>=◌
  abbrev pub ◌>>=◌ : Result A → (A → Result B) → Result B
  ok value >>= next = next value
  err fault >>= next = err fault

  -- A sequence that returns has returned from both of its parts.
  pub >>=-eq-ok :
      (first : Result A) (next : A → Result B) {out : B}
      → (first >>= next) ≡ ok out
      → (value : A) × (first ≡ ok value) × (next value ≡ ok out)
  >>=-eq-ok (ok value) next returned = (value, refl, returned)
  >>=-eq-ok (err fault) next returned = cc

module _ {ℓ κ} {A : Type ℓ} {B : Type κ} where
  -- A loop that stops at the first exception.
  abbrev pub map_result : (A → Result B) → List A → Result (List B)
  map_result f [] = ok []
  map_result f (x ∷ xs) = do y ← f x; ys ← map_result f xs; ok (y ∷ ys)

  -- Continuations that agree everywhere give the same bind.
  pub >>=-congr :
      (m : Result A) {f g : A → Result B} → ((a : A) → f a ≡ g a) → (m >>= f) ≡ (m >>= g)
  >>=-congr (ok a) h = h a
  >>=-congr (err e) h = refl

module _ {ℓ} {A : Type ℓ} where
  -- To split on an outcome and keep the equation.
  pub Result-cases : (r : Result A) → ((a : A) × (r ≡ ok a)) ⊎ ((e : Fault) × (r ≡ err e))
  Result-cases (ok a) = inl (a, refl)
  Result-cases (err e) = inr (e, refl)
