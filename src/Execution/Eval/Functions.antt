-- ===== src/Execution/Eval/Functions.antt =====
-- src/execution/eval.cpp: the scalar functions, over the outcomes of their arguments.
use lite_query.Prelude.{
  ℕ, ◌-◌, ◌&&◌, leb, if◌then◌else◌, map, Bytes, codes, bytes_eq, List, [], ◌∷◌, length, ◌==◌,
}
use lite_query.Prelude.Int.{ℤ, pos, ◌-ℤ◌, ltb_ℤ, to_unsigned, to_signed}
use lite_query.Prelude.Result.{Result, ok, err, eval_error, ◌>>=◌}
use lite_query.Types.Floats.{Floats}
use lite_query.Types.TypeId.{type_is_integer}
use lite_query.Types.Value.{
  Value, null, int64, double, string, is_null, type_id, to_int64, to_double, get_string,
}
use lite_query.Types.Schema.{to_lower}
use lite_query.Parser.Ast.{is_aggregate}
use lite_query.Execution.Eval.Values.{checked}
use lite_query.Execution.Eval.Operators.{Outcome}

-- toupper of <cctype>, in the "C" locale
unfoldable pub to_upper : ℕ → ℕ
to_upper c = if leb b'a' c && leb c b'z' then c - 32 else c

module _ {F : Type 0} ⦃fl : Floats F⦄ where
  unfoldable pub coalesce : List (Outcome F) → Outcome F
  unfolding is_null
  coalesce [] = ok null
  coalesce (arg ∷ args) = let rest = coalesce args in do v ← arg; if is_null v then rest else ok v

  -- ABS: std::abs(INT64_MIN) is undefined.
  unfoldable pub abs_value : Value F → Outcome F
  unfolding type_id type_is_integer to_int64 to_double checked ◌-ℤ◌
  abs_value v =
      if type_is_integer (type_id v)
      then (do n ← to_int64 v; checked (if ltb_ℤ n (pos 0) then pos 0 -ℤ n else n))
      else (do x ← to_double v; ok (double (fl.fabs x)))

  -- static_cast<int64_t> of the size.
  unfoldable pub length_value : Value F → Outcome F
  unfolding get_string to_signed to_unsigned
  length_value v = do s ← get_string v; ok (int64 (to_signed 64 (to_unsigned 64 (pos (length s)))))

  unfoldable pub map_string : (ℕ → ℕ) → Value F → Outcome F
  unfolding get_string
  map_string f v = do s ← get_string v; ok (string (map f s))

  -- static_cast<int>(arg(1).toInt64()), or 0 if there is no second argument.
  unfoldable pub round_places : List (Outcome F) → Result ℤ
  unfolding to_int64 to_unsigned to_signed
  round_places [] = ok (pos 0)
  round_places (arg ∷ args) = do v ← arg; n ← to_int64 v; ok (to_signed 32 (to_unsigned 32 n))

  unfoldable pub round_value : List (Outcome F) → Value F → Outcome F
  unfolding to_double round_places
  round_value rest v = do
    d ← to_double v
    nd ← round_places rest
    let f = fl.pow (fl.of_int (pos 10)) (fl.of_int nd)
    ok (double (fl.fdiv (fl.round (fl.fmul d f)) f))

  -- `Value v = arg(0); if (v.isNull()) return Value::null();` and then `k v`.
  abbrev pub on_arg : (Value F → Outcome F) → Outcome F → Outcome F
  on_arg k arg = do v ← arg; if is_null v then ok null else k v

  -- The functions of one argument, and ROUND.
  unfoldable pub call_first : Bytes → Outcome F → List (Outcome F) → Outcome F
  unfolding is_null bytes_eq abs_value length_value map_string round_value
  call_first fn arg rest =
      if bytes_eq fn (codes "ABS") && (length rest == 0)
      then on_arg abs_value arg
      else if bytes_eq fn (codes "LENGTH") && (length rest == 0)
      then on_arg length_value arg
      else if bytes_eq fn (codes "UPPER") && (length rest == 0)
      then on_arg (map_string to_upper) arg
      else if bytes_eq fn (codes "LOWER") && (length rest == 0)
      then on_arg (map_string to_lower) arg
      else if bytes_eq fn (codes "ROUND")
      then on_arg (round_value rest) arg
      else err eval_error

  unfoldable pub call_scalar : Bytes → List (Outcome F) → Outcome F
  unfolding call_first
  call_scalar fn [] = err eval_error
  call_scalar fn (arg ∷ rest) = call_first fn arg rest

  unfoldable pub eval_call : Bytes → List (Outcome F) → Outcome F
  unfolding is_aggregate bytes_eq coalesce call_scalar
  eval_call fn args =
      if is_aggregate fn
      then err eval_error
      else if bytes_eq fn (codes "COALESCE")
      then coalesce args
      else call_scalar fn args
