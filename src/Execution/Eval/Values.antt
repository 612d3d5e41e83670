-- ===== src/Execution/Eval/Values.antt =====
-- src/execution/eval.cpp: comparison, truth values and arithmetic on values.
use lite_query.Prelude.{Bool, true, false, ◌&&◌, ◌||◌, not, if◌then◌else◌, Bytes, bytes_lt}
use lite_query.Prelude.Int.{ℤ, pos, negsuc, ◌+ℤ◌, ◌-ℤ◌, ◌*ℤ◌, rem_ℤ, ltb_ℤ, eqb_ℤ, fits}
use lite_query.Prelude.Result.{Result, ok, err, eval_error, undefined, ◌>>=◌}
use lite_query.Types.Floats.{Floats}
use lite_query.Types.TypeId.{type_is_integer, type_is_float, type_is_numeric}
use lite_query.Types.Value.{
  Value, null, bool, int64, double, string, is_null, type_id, to_int64, to_double,
}
use lite_query.Parser.Ast.{BinaryOp}

-- What compareValues returns: -1, 0, 1, and 2 if a side is NULL.
pub data Comparison : Type 0 where
  less equal greater unordered : Comparison

-- What truthiness returns: 0, 1, and 2 for NULL.
pub data Truth : Type 0 where
  is_false is_true unknown : Truth

unfoldable pub is_nonzero_int : ℤ → Bool
is_nonzero_int n = not (eqb_ℤ n (pos 0))

module _ {F : Type 0} where
  unfoldable pub is_numeric : Value F → Bool
  unfolding type_is_numeric type_id
  is_numeric v = type_is_numeric (type_id v)

  unfoldable pub both_integers : Value F → Value F → Bool
  unfolding type_is_integer type_id
  both_integers a b = type_is_integer (type_id a) && type_is_integer (type_id b)

  unfoldable pub bool_value : Truth → Value F
  bool_value is_false = bool false
  bool_value is_true = bool true
  bool_value unknown = null

unfoldable pub compare_ints : ℤ → ℤ → Comparison
compare_ints x y = if ltb_ℤ x y then less else if ltb_ℤ y x then greater else equal

unfoldable pub compare_strings : Bytes → Bytes → Comparison
unfolding bytes_lt
compare_strings a b = if bytes_lt a b then less else if bytes_lt b a then greater else equal

unfoldable pub compare_bools : Bool → Bool → Comparison
compare_bools true true = equal
compare_bools false false = equal
compare_bools false true = less
compare_bools true false = greater

module _ {F : Type 0} ⦃fl : Floats F⦄ where
  unfoldable pub is_nonzero_float : F → Bool
  is_nonzero_float x = not (fl.feq x (fl.of_int (pos 0)))

  unfoldable pub compare_floats : F → F → Comparison
  compare_floats x y = if fl.flt x y then less else if fl.flt y x then greater else equal

  -- The last two tests of compareValues, and its throw.
  unfoldable pub compare_others : Value F → Value F → Result Comparison
  unfolding compare_bools compare_strings
  compare_others (bool x) (bool y) = ok (compare_bools x y)
  compare_others (string x) (string y) = ok (compare_strings x y)
  compare_others _ _ = err eval_error

  unfoldable pub compare_values : Value F → Value F → Result Comparison
  unfolding is_null is_numeric both_integers to_int64 to_double compare_ints compare_floats
      compare_others
  compare_values a b =
      if is_null a || is_null b
      then ok unordered
      else if is_numeric a && is_numeric b
      then (if both_integers a b
          then (do x ← to_int64 a; y ← to_int64 b; ok (compare_ints x y))
          else (do x ← to_double a; y ← to_double b; ok (compare_floats x y)))
      else compare_others a b

  unfoldable pub truthiness : Value F → Result Truth
  unfolding is_null type_id type_is_integer type_is_float to_int64 to_double is_nonzero_int
      is_nonzero_float
  truthiness null = ok unknown
  truthiness (bool b) = ok (if b then is_true else is_false)
  truthiness v =
      if type_is_integer (type_id v)
      then (do n ← to_int64 v; ok (if is_nonzero_int n then is_true else is_false))
      else if type_is_float (type_id v)
      then (do x ← to_double v; ok (if is_nonzero_float x then is_true else is_false))
      else err eval_error

  -- An int64_t result: a signed overflow is undefined.
  unfoldable pub checked : ℤ → Result (Value F)
  checked n = if fits 63 n then ok (int64 n) else err undefined

  -- `a % b` of int64_t: NULL at 0, undefined if the quotient overflows.
  unfoldable pub checked_rem : ℤ → ℤ → Result (Value F)
  unfolding rem_ℤ
  checked_rem a b =
      if eqb_ℤ b (pos 0)
      then ok null
      else if eqb_ℤ b (negsuc 0) && not (fits 63 (pos 0 -ℤ a))
      then err undefined
      else ok (int64 (rem_ℤ a b))

  -- The switch over doubles.
  unfoldable pub float_arithmetic : BinaryOp → F → F → Result (Value F)
  unfolding is_nonzero_float
  float_arithmetic BinaryOp.add a b = ok (double (fl.fadd a b))
  float_arithmetic BinaryOp.sub a b = ok (double (fl.fsub a b))
  float_arithmetic BinaryOp.mul a b = ok (double (fl.fmul a b))
  float_arithmetic BinaryOp.div a b = ok (if is_nonzero_float b then double (fl.fdiv a b) else null)
  float_arithmetic BinaryOp.mod_op a b =
      ok (if is_nonzero_float b then double (fl.fmod a b) else null)
  float_arithmetic BinaryOp.pow a b = ok (double (fl.pow a b))
  float_arithmetic _ a b = err eval_error

  -- Both operands as doubles.
  unfoldable pub mixed_arithmetic : BinaryOp → Value F → Value F → Result (Value F)
  unfolding float_arithmetic to_double
  mixed_arithmetic op l r = do a ← to_double l; b ← to_double r; float_arithmetic op a b

  -- The switch over int64_t; the operators that it lacks go on to the doubles.
  unfoldable pub int_arithmetic : BinaryOp → Value F → Value F → Result (Value F)
  unfolding mixed_arithmetic checked checked_rem ◌+ℤ◌ ◌-ℤ◌ ◌*ℤ◌ to_int64
  int_arithmetic BinaryOp.add l r = do a ← to_int64 l; b ← to_int64 r; checked (a +ℤ b)
  int_arithmetic BinaryOp.sub l r = do a ← to_int64 l; b ← to_int64 r; checked (a -ℤ b)
  int_arithmetic BinaryOp.mul l r = do a ← to_int64 l; b ← to_int64 r; checked (a *ℤ b)
  int_arithmetic BinaryOp.mod_op l r = do a ← to_int64 l; b ← to_int64 r; checked_rem a b
  int_arithmetic op l r = mixed_arithmetic op l r

  unfoldable pub eval_arithmetic : BinaryOp → Value F → Value F → Result (Value F)
  unfolding is_null is_numeric both_integers int_arithmetic mixed_arithmetic
  eval_arithmetic op l r =
      if is_null l || is_null r
      then ok null
      else if not (is_numeric l) || not (is_numeric r)
      then err eval_error
      else if both_integers l r
      then int_arithmetic op l r
      else mixed_arithmetic op l r
