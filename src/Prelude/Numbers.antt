-- ===== src/Prelude/Numbers.antt =====
-- `std::to_string` of an unsigned number.
use Prim.Native.Nat.{ℕ, zero, suc, ◌+◌, ◌/◌, ◌%◌}
use mathlib.Core.List.{[], ◌∷◌}
use lite_query.Prelude.Tests.{ltb, if◌then◌else◌, Bytes}

-- The decimal digits of `n`, least significant last. `n + 1` rounds are enough: each divides by 10.
digits_from : ℕ → ℕ → Bytes → Bytes
digits_from zero n out = out
digits_from (suc f) n out =
    let rest = digits_from f (n / 10) ((n % 10 + b'0') ∷ out) in
    if ltb n 10 then (n + b'0') ∷ out else rest

unfoldable pub to_string_ℕ : ℕ → Bytes
unfolding digits_from
to_string_ℕ n = digits_from (n + 1) n []
