-- ===== src/Execution/Eval/Operators.antt =====
-- src/execution/eval.cpp: operators, BETWEEN, IN, CASE and CAST, over the
-- outcomes of the operands.
use lite_query.Prelude.{
  Bool, true, false, ◌||◌, not, if◌then◌else◌, ◌++◌, Option, none, some, List, [], ◌∷◌,
}
use lite_query.Prelude.Int.{ℤ, pos, ◌-ℤ◌}
use lite_query.Prelude.Result.{Result, ok, err, eval_error, undefined, ◌>>=◌}
use lite_query.Types.Floats.{Floats}
use lite_query.Types.TypeId.{TypeId, type_is_integer, type_is_float, type_id_eq}
use lite_query.Types.DataType.{DataType}
use lite_query.Types.Value.{
  Value, null, bool, int64, double, string, is_null, type_id, to_int64, to_double, get_string,
  to_string,
}
use lite_query.Parser.Ast.{UnaryOp, BinaryOp}
use lite_query.Execution.Like.{like_match}
use lite_query.Execution.Eval.Values.{
  Comparison, less, equal, greater, unordered, Truth, is_false, is_true, unknown, bool_value,
  compare_values, truthiness, checked, eval_arithmetic,
}

abbrev pub not_truth : Truth → Truth
not_truth is_false = is_true
not_truth is_true = is_false
not_truth unknown = unknown

-- What an operand evaluates to.
abbrev pub Outcome : Type 0 → Type 0
Outcome F = Result (Value F)

abbrev pub is_equal : Comparison → Bool
is_equal equal = true
is_equal _ = false

abbrev pub truth_is_true : Truth → Bool
truth_is_true is_true = true
truth_is_true _ = false

module _ {F : Type 0} ⦃fl : Floats F⦄ where
  -- NEGATE: -INT64_MIN is undefined.
  unfoldable pub negate_value : Value F → Outcome F
  unfolding is_null type_id type_is_integer to_int64 to_double checked ◌-ℤ◌
  negate_value v =
      if is_null v
      then ok null
      else if type_is_integer (type_id v)
      then (do n ← to_int64 v; checked (pos 0 -ℤ n))
      else (do x ← to_double v; ok (double (fl.fneg x)))

  unfoldable pub eval_unary : UnaryOp → Outcome F → Outcome F
  unfolding negate_value truthiness bool_value
  eval_unary UnaryOp.plus e = e
  eval_unary UnaryOp.negate e = do v ← e; negate_value v
  eval_unary UnaryOp.not e = do v ← e; t ← truthiness v; ok (bool_value (not_truth t))

  -- AND once the left side is known not to be false: the right side decides, or NULL.
  abbrev pub and_rest : Truth → Truth → Value F
  and_rest l is_false = bool false
  and_rest unknown r = null
  and_rest l unknown = null
  and_rest l is_true = bool true

  -- The left side decides alone if it is false; only otherwise is the right side evaluated.
  unfoldable pub and_after : Truth → Outcome F → Outcome F
  unfolding truthiness
  and_after is_false r = ok (bool false)
  and_after l r = do w ← r; t ← truthiness w; ok (and_rest l t)

  unfoldable pub eval_and : Outcome F → Outcome F → Outcome F
  unfolding truthiness and_after
  eval_and l r = do v ← l; t ← truthiness v; and_after t r

  abbrev pub or_rest : Truth → Truth → Value F
  or_rest l is_true = bool true
  or_rest unknown r = null
  or_rest l unknown = null
  or_rest l is_false = bool false

  unfoldable pub or_after : Truth → Outcome F → Outcome F
  unfolding truthiness
  or_after is_true r = ok (bool true)
  or_after l r = do w ← r; t ← truthiness w; ok (or_rest l t)

  unfoldable pub eval_or : Outcome F → Outcome F → Outcome F
  unfolding truthiness or_after
  eval_or l r = do v ← l; t ← truthiness v; or_after t r

  -- The inner switch over the comparison operators.
  unfoldable pub comparison_value : BinaryOp → Comparison → Value F
  comparison_value op unordered = null
  comparison_value BinaryOp.eq equal = bool true
  comparison_value BinaryOp.eq c = bool false
  comparison_value BinaryOp.neq equal = bool false
  comparison_value BinaryOp.neq c = bool true
  comparison_value BinaryOp.lt less = bool true
  comparison_value BinaryOp.lt c = bool false
  comparison_value BinaryOp.lte greater = bool false
  comparison_value BinaryOp.lte c = bool true
  comparison_value BinaryOp.gt greater = bool true
  comparison_value BinaryOp.gt c = bool false
  comparison_value BinaryOp.gte less = bool false
  comparison_value BinaryOp.gte c = bool true
  comparison_value op c = null

  unfoldable pub eval_comparison : BinaryOp → Value F → Value F → Outcome F
  unfolding compare_values comparison_value
  eval_comparison op l r = do c ← compare_values l r; ok (comparison_value op c)

  -- CONCAT: `to_string` of a VARCHAR is its text.
  unfoldable pub eval_concat : Value F → Value F → Outcome F
  unfolding is_null to_string
  eval_concat l r =
      if is_null l || is_null r then ok null else ok (string (to_string l ++ to_string r))

  unfoldable pub eval_like : Bool → Value F → Value F → Outcome F
  unfolding is_null get_string like_match
  eval_like ci l r =
      if is_null l || is_null r
      then ok null
      else (do t ← get_string l; p ← get_string r; m ← like_match t p ci; ok (bool m))

  -- The switch behind the evaluation of both sides.
  unfoldable pub eval_strict : BinaryOp → Value F → Value F → Outcome F
  unfolding eval_arithmetic eval_comparison eval_concat eval_like
  eval_strict BinaryOp.add l r = eval_arithmetic BinaryOp.add l r
  eval_strict BinaryOp.sub l r = eval_arithmetic BinaryOp.sub l r
  eval_strict BinaryOp.mul l r = eval_arithmetic BinaryOp.mul l r
  eval_strict BinaryOp.div l r = eval_arithmetic BinaryOp.div l r
  eval_strict BinaryOp.mod_op l r = eval_arithmetic BinaryOp.mod_op l r
  eval_strict BinaryOp.pow l r = eval_arithmetic BinaryOp.pow l r
  eval_strict BinaryOp.eq l r = eval_comparison BinaryOp.eq l r
  eval_strict BinaryOp.neq l r = eval_comparison BinaryOp.neq l r
  eval_strict BinaryOp.lt l r = eval_comparison BinaryOp.lt l r
  eval_strict BinaryOp.lte l r = eval_comparison BinaryOp.lte l r
  eval_strict BinaryOp.gt l r = eval_comparison BinaryOp.gt l r
  eval_strict BinaryOp.gte l r = eval_comparison BinaryOp.gte l r
  eval_strict BinaryOp.concat l r = eval_concat l r
  eval_strict BinaryOp.like l r = eval_like false l r
  eval_strict BinaryOp.ilike l r = eval_like true l r
  eval_strict op l r = err eval_error

  unfoldable pub eval_binary : BinaryOp → Outcome F → Outcome F → Outcome F
  unfolding eval_and eval_or eval_strict
  eval_binary BinaryOp.and l r = eval_and l r
  eval_binary BinaryOp.or l r = eval_or l r
  eval_binary op l r = do v ← l; w ← r; eval_strict op v w

  unfoldable pub eval_is_null : Outcome F → Bool → Outcome F
  unfolding is_null
  eval_is_null e negated = do v ← e; ok (bool (if negated then not (is_null v) else is_null v))

  abbrev pub between_value : Comparison → Comparison → Bool → Value F
  between_value unordered ch negated = null
  between_value cl unordered negated = null
  between_value less ch negated = bool negated
  between_value cl greater negated = bool negated
  between_value cl ch negated = bool (not negated)

  unfoldable pub eval_between : Outcome F → Outcome F → Outcome F → Bool → Outcome F
  unfolding compare_values
  eval_between e low high negated = do
    v ← e
    lo ← low
    hi ← high
    cl ← compare_values v lo
    ch ← compare_values v hi
    ok (between_value cl ch negated)

  -- The loop over the list, with `sawNull`.
  unfoldable pub in_loop : Value F → Bool → Bool → List (Outcome F) → Outcome F
  unfolding is_null compare_values
  in_loop v negated saw_null [] = ok (if saw_null then null else bool negated)
  in_loop v negated saw_null (item ∷ items) =
      let rest_null = in_loop v negated true items in
      let rest = in_loop v negated saw_null items in
      do
        iv ← item
        if is_null iv
            then rest_null
            else do c ← compare_values v iv; if is_equal c then ok (bool (not negated)) else rest

  unfoldable pub eval_in : Outcome F → List (Outcome F) → Bool → Outcome F
  unfolding is_null in_loop
  eval_in e items negated = do v ← e; if is_null v then ok null else in_loop v negated false items

  -- IN over a subquery throws, but for a NULL on the left.
  unfoldable pub eval_in_select : Outcome F → Outcome F
  unfolding is_null
  eval_in_select e = do v ← e; if is_null v then ok null else err eval_error

  unfoldable pub else_value : Option (Outcome F) → Outcome F
  else_value none = ok null
  else_value (some e) = e

  -- Does a WHEN match: equality with the subject, or the truth of its condition.
  unfoldable pub when_matches : Option (Value F) → Value F → Result Bool
  unfolding compare_values truthiness
  when_matches (some subject) cond = do c ← compare_values subject cond; ok (is_equal c)
  when_matches none cond = do t ← truthiness cond; ok (truth_is_true t)

  unfoldable pub case_loop :
      Option (Value F) → List (Outcome F × Outcome F) → Option (Outcome F) → Outcome F
  unfolding when_matches else_value
  case_loop subject [] other = else_value other
  case_loop subject ((condition, result) ∷ whens) other =
      let rest = case_loop subject whens other in
      do cond ← condition; matched ← when_matches subject cond; if matched then result else rest

  unfoldable pub eval_case :
      Option (Outcome F) → List (Outcome F × Outcome F) → Option (Outcome F) → Outcome F
  unfolding case_loop
  eval_case none whens other = case_loop none whens other
  eval_case (some subject) whens other = do s ← subject; case_loop (some s) whens other

  abbrev pub truncated : Option ℤ → Outcome F
  truncated none = err undefined
  truncated (some n) = ok (int64 n)

  unfoldable pub cast_value : Value F → DataType → Outcome F
  unfolding type_is_integer type_is_float type_id_eq to_double to_string truthiness
  cast_value v t =
      if type_is_integer t.id
      then (do x ← to_double v; truncated (fl.to_int x))
      else if type_is_float t.id
      then (do x ← to_double v; ok (double x))
      else if type_id_eq t.id TypeId.varchar
      then ok (string (to_string v))
      else if type_id_eq t.id TypeId.boolean
      then (do b ← truthiness v; ok (bool (truth_is_true b)))
      else ok v

  unfoldable pub eval_cast : Outcome F → DataType → Outcome F
  unfolding is_null cast_value
  eval_cast e t = do v ← e; if is_null v then ok null else cast_value v t
