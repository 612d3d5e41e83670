-- ===== src/Execution/Eval/Membership.antt =====
-- BETWEEN and IN against the conjunctions and disjunctions that SQL defines them by.
use lite_query.Prelude.{◌≡◌, ◌≢◌, refl, arith, true, false, List, ◌∷◌, ◌∙◌}
use lite_query.Prelude.Result.{Result, ok, err, ◌>>=◌}
use lite_query.Types.Floats.{Floats}
use lite_query.Types.Value.{Value, Row, null, bool, is_null}
use lite_query.Types.Schema.{Schema}
use lite_query.Parser.Ast.{
  BinaryOp, Expr, ExprList, no_exprs, expr_cons, literal, binary_expr, between_expr, in_expr,
}
use lite_query.Execution.Eval.{
  Truth, is_false, is_true, unknown, Comparison, less, equal, greater, unordered, truthiness,
  bool_value, Outcome, eval_and, eval_or, eval_binary, eval_strict, eval_comparison,
  comparison_value, compare_values, evaluate, eval_all, and_after, or_after, or_rest, eval_between,
  in_loop, eval_in,
}

module _ {F : Type 0} ⦃fl : Floats F⦄ where
  -- compareValues says "unknown" exactly of a NULL.
  compare-null : (v w : Value F) → is_null w ≡ true → compare_values v w ≡ ok unordered
  unfolding compare_values
  compare-null v w h = ground arith

  compare-ordered :
      (v w : Value F) → is_null v ≡ false → is_null w ≡ false → compare_values v w ≢ ok unordered
  unfolding compare_values
  compare-ordered v w hv hw = ground arith

  -- The truth values as outcomes: what a logical operator returns, or throws.
  abbrev from_truth : Result Truth → Outcome F
  from_truth (ok t) = ok (bool_value t)
  from_truth (err x) = err x

  abbrev IsTruth : Outcome F → Type 0
  IsTruth o = (x : Result Truth) × (o ≡ from_truth x)

  bind-IsTruth :
      (m : Result Truth) (f : Truth → Outcome F) → ((t : Truth) → IsTruth (f t)) → IsTruth (m >>= f)
  bind-IsTruth (err x) f h = (err x, refl)
  bind-IsTruth (ok t) f h = h t

  or_rest-IsTruth : (s t : Truth) → IsTruth (ok (or_rest s t))
  unfolding bool_value
  or_rest-IsTruth is_false is_false = (ok is_false, refl)
  or_rest-IsTruth is_true is_false = (ok is_false, refl)
  or_rest-IsTruth unknown is_false = (ok unknown, refl)
  or_rest-IsTruth is_false unknown = (ok unknown, refl)
  or_rest-IsTruth is_true unknown = (ok unknown, refl)
  or_rest-IsTruth unknown unknown = (ok unknown, refl)
  or_rest-IsTruth s is_true = (ok is_true, refl)

  or_after-IsTruth : (s : Truth) (r : Outcome F) → IsTruth (or_after s r)
  unfolding or_after bool_value
  or_after-IsTruth is_true r = (ok is_true, refl)
  or_after-IsTruth s (err x) = (err x, refl)
  or_after-IsTruth s (ok w) =
      bind-IsTruth (truthiness w) (λ t. ok (or_rest s t)) (or_rest-IsTruth s)

  -- A disjunction is a truth value, or throws.
  or-IsTruth : (l r : Outcome F) → IsTruth (eval_or l r)
  unfolding eval_or
  or-IsTruth (err x) r = (err x, refl)
  or-IsTruth (ok v) r = bind-IsTruth (truthiness v) (λ t. or_after t r) (λ t. or_after-IsTruth t r)

  -- What BETWEEN gives, beside what the conjunction of the two comparisons gives: NULL and not false
  -- where one comparison is unknown and the other one fails, and else the same.
  abbrev pub BetweenCases : Outcome F → Outcome F → Comparison → Comparison → Type 0
  BetweenCases b c unordered greater = (b ≡ ok null) × (c ≡ ok (bool false))
  BetweenCases b c less unordered = (b ≡ ok null) × (c ≡ ok (bool false))
  BetweenCases b c low high = b ≡ c

  between_outcome :
      (v lo hi : Value F) (cl ch : Comparison)
      → compare_values v lo ≡ ok cl
      → compare_values v hi ≡ ok ch
      → BetweenCases
          (eval_between (ok v) (ok lo) (ok hi) false)
          (eval_and
            (eval_binary BinaryOp.gte (ok v) (ok lo))
            (eval_binary BinaryOp.lte (ok v) (ok hi)))
          cl
          ch
  unfolding eval_between eval_and and_after eval_binary eval_strict eval_comparison comparison_value
      truthiness
  between_outcome v lo hi less unordered hl hh = rw (hl, hh) (refl, refl)
  between_outcome v lo hi unordered greater hl hh = rw (hl, hh) (refl, refl)
  between_outcome v lo hi equal less hl hh = rw (hl, hh) refl
  between_outcome v lo hi greater less hl hh = rw (hl, hh) refl
  between_outcome v lo hi _ _ hl hh = rw (hl, hh) refl

  in_step :
      (v : Value F) (item : Outcome F) (items : List (Outcome F)) (x : Result Truth)
      → is_null v ≡ false
      → in_loop v false false items ≡ from_truth x
      → in_loop v false true items ≡ or_after unknown (from_truth x)
      → (in_loop v false false (item ∷ items)
          ≡ eval_or (eval_binary BinaryOp.eq (ok v) item) (from_truth x))
        × (in_loop v false true (item ∷ items)
            ≡ or_after unknown (eval_or (eval_binary BinaryOp.eq (ok v) item) (from_truth x)))
  unfolding in_loop eval_or or_after eval_binary eval_strict eval_comparison comparison_value
      truthiness bool_value
  in_step v (err y) items x nv h k = (refl, refl)
  in_step v (ok w) items (err y) nv h k = ground (arith, compare-null v w, compare-ordered v w)
  in_step v (ok w) items (ok is_true) nv h k = ground (arith, compare-null v w, compare-ordered v w)
  in_step v (ok w) items (ok t) nv h k = ground (arith, compare-null v w, compare-ordered v w)

  -- e = i₁ OR (e = i₂ OR (… OR false))
  abbrev pub any_equal : Expr F → ExprList F → Expr F
  any_equal e no_exprs = literal (bool false)
  any_equal e (expr_cons i is) =
      binary_expr BinaryOp.or (binary_expr BinaryOp.eq e i) (any_equal e is)

module _ {F : Type 0} ⦃fl : Floats F⦄ (schema : Schema) (row : Row F) where
  any_equal-IsTruth :
      (e : Expr F) (items : ExprList F) → IsTruth (evaluate schema row (any_equal e items))
  unfolding evaluate bool_value
  any_equal-IsTruth e no_exprs = (ok is_false, refl)
  any_equal-IsTruth e (expr_cons i is) =
      or-IsTruth (evaluate schema row (binary_expr BinaryOp.eq e i))
        (evaluate schema row (any_equal e is))

  in_loop-any_equal :
      (e : Expr F) (v : Value F) (items : ExprList F)
      → evaluate schema row e ≡ ok v
      → is_null v ≡ false
      → (in_loop v false false (eval_all schema row items)
          ≡ evaluate schema row (any_equal e items))
        × (in_loop v false true (eval_all schema row items)
            ≡ or_after unknown (evaluate schema row (any_equal e items)))
  unfolding evaluate in_loop or_after truthiness
  in_loop-any_equal e v no_exprs he nv = (refl, refl)
  in_loop-any_equal e v (expr_cons i is) he nv =
      let (x, t) = any_equal-IsTruth e is in
      let (p, q) = in_loop-any_equal e v is he nv in
      rw (t, he)
        (in_step v (evaluate schema row i) (eval_all schema row is) x nv (p ∙ t) (q ∙ rw t))

  -- `e IN (i₁, …)` is the disjunction of the comparisons `e = i`, from left to right, in value and in
  -- what it throws; `e` evaluates to a value that is not NULL.
  pub in-any_equal :
      (e : Expr F) (v : Value F) (items : ExprList F)
      → evaluate schema row e ≡ ok v
      → is_null v ≡ false
      → evaluate schema row (in_expr e items false) ≡ evaluate schema row (any_equal e items)
  unfolding evaluate eval_in
  in-any_equal e v items he nv = rw (he, nv) (in_loop-any_equal e v items he nv).0

  -- `e BETWEEN low AND high`, where the three evaluate to values that can be compared, is
  -- `e >= low AND e <= high`, except where one comparison is unknown and the other one fails: there
  -- BETWEEN is NULL and the conjunction is false.
  pub between-and :
      (e low high : Expr F) (v lo hi : Value F) (cl ch : Comparison)
      → evaluate schema row e ≡ ok v
      → evaluate schema row low ≡ ok lo
      → evaluate schema row high ≡ ok hi
      → compare_values v lo ≡ ok cl
      → compare_values v hi ≡ ok ch
      → BetweenCases
          (evaluate schema row (between_expr e low high false))
          (evaluate schema row (
            binary_expr BinaryOp.and
              (binary_expr BinaryOp.gte e low)
              (binary_expr BinaryOp.lte e high)))
          cl
          ch
  unfolding evaluate
  between-and e low high v lo hi cl ch he hl hh hcl hch =
      rw (he, hl, hh) (between_outcome v lo hi cl ch hcl hch)
