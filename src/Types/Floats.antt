-- ===== src/Types/Floats.antt =====
-- The C++ type `double` and the functions of <cmath> and <string> that the engine calls on it. They
-- are not the engine's own code, so the model takes them as one parameter, a record over the type of
-- doubles. A `float` is the double that it converts to.
use lite_query.Prelude.{ℕ, Bool, Option, Bytes}
use lite_query.Prelude.Int.{ℤ}

pub record Floats (F : Type 0) : Type 0 where
  -- static_cast<double>(int64_t), and 10.0, 0.0 as such casts
  pub of_int : ℤ → F
  -- static_cast<int64_t>(double): truncation, undefined (`none`) out of range
  pub to_int : F → Option ℤ
  pub flt : F → F → Bool
  pub fle : F → F → Bool
  pub feq : F → F → Bool
  pub fadd : F → F → F
  pub fsub : F → F → F
  pub fmul : F → F → F
  pub fdiv : F → F → F
  pub fmod : F → F → F
  pub pow : F → F → F
  pub fneg : F → F
  pub fabs : F → F
  pub round : F → F
  pub infinity : F
  -- std::to_string(double)
  pub to_text : F → Bytes
  -- memcpy between a double and a uint64_t
  pub bits : F → ℕ
  pub of_bits : ℕ → F
