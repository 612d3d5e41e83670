-- ===== src/Execution/Eval/Logic.antt =====
-- The three-valued logic of the evaluator.
use lite_query.Prelude.{◌≡◌, refl, arith}
use lite_query.Prelude.Result.{ok, err}
use lite_query.Types.Floats.{Floats}
use lite_query.Types.Value.{Value, Row}
use lite_query.Types.Schema.{Schema}
use lite_query.Parser.Ast.{UnaryOp, BinaryOp, Expr, unary_expr, binary_expr}
use lite_query.Execution.Eval.{
  Truth, is_false, is_true, unknown, truthiness, bool_value, Outcome, eval_and, eval_or, eval_unary,
  eval_binary, eval_strict, eval_comparison, comparison_value, evaluate, and_after, or_after,
  not_truth,
}

-- Kleene's tables, by the order false < unknown < true: the lesser and the greater of two.
abbrev pub kleene_and : Truth → Truth → Truth
kleene_and is_true t = t
kleene_and is_false t = is_false
kleene_and unknown is_false = is_false
kleene_and unknown t = unknown

abbrev pub kleene_or : Truth → Truth → Truth
kleene_or is_false t = t
kleene_or is_true t = is_true
kleene_or unknown is_true = is_true
kleene_or unknown t = unknown

truths : (F : Type 0) ⦃fl : Floats F⦄ (t : Truth) → truthiness {F = F} (bool_value t) ≡ ok t
unfolding truthiness bool_value
truths F is_false = refl
truths F is_true = refl
truths F unknown = refl

module _ {F : Type 0} ⦃fl : Floats F⦄ where
  and-kleene :
      (v w : Value F) (s t : Truth)
      → truthiness v ≡ ok s
      → truthiness w ≡ ok t
      → (eval_and (ok v) (ok w) ≡ ok (bool_value (kleene_and s t)))
        × (eval_or (ok v) (ok w) ≡ ok (bool_value (kleene_or s t)))
  unfolding eval_and eval_or and_after or_after bool_value
  and-kleene v w s t hs ht = ground arith

  -- NOT, over an outcome.
  abbrev not_outcome : Outcome F → Outcome F
  not_outcome = eval_unary UnaryOp.not

  de_morgan_after :
      (s : Truth) (r : Outcome F)
      → (not_outcome (and_after s r) ≡ or_after (not_truth s) (not_outcome r))
        × (not_outcome (or_after s r) ≡ and_after (not_truth s) (not_outcome r))
  unfolding eval_unary and_after or_after bool_value
  de_morgan_after s (err x) = ground arith
  de_morgan_after s (ok w) = ground (arith, truths F is_false, truths F is_true, truths F unknown)

  de_morgan_outcome :
      (l r : Outcome F)
      → (not_outcome (eval_and l r) ≡ eval_or (not_outcome l) (not_outcome r))
        × (not_outcome (eval_or l r) ≡ eval_and (not_outcome l) (not_outcome r))
  unfolding eval_unary eval_and eval_or bool_value
  de_morgan_outcome (err x) r = ground arith
  de_morgan_outcome (ok v) r = ground (
    arith,
    truths F is_false,
    truths F is_true,
    truths F unknown,
    de_morgan_after is_false r,
    de_morgan_after is_true r,
    de_morgan_after unknown r,
  )

  complement :
      (l r : Outcome F)
      → (eval_binary BinaryOp.neq l r ≡ not_outcome (eval_binary BinaryOp.eq l r))
        × (eval_binary BinaryOp.gte l r ≡ not_outcome (eval_binary BinaryOp.lt l r))
        × (eval_binary BinaryOp.gt l r ≡ not_outcome (eval_binary BinaryOp.lte l r))
  unfolding eval_binary eval_unary eval_strict eval_comparison comparison_value bool_value
      truthiness
  complement (err x) r = ground arith
  complement (ok v) (err x) = ground arith
  complement (ok v) (ok w) = ground arith

module _ {F : Type 0} ⦃fl : Floats F⦄ (schema : Schema) (row : Row F) where
  -- AND and OR of two expressions whose values have the truths `s` and `t` are Kleene's: the value
  -- is that of the table, NULL for unknown.
  pub evaluate-kleene :
      (l r : Expr F) (v w : Value F) (s t : Truth)
      → evaluate schema row l ≡ ok v
      → evaluate schema row r ≡ ok w
      → truthiness v ≡ ok s
      → truthiness w ≡ ok t
      → (evaluate schema row (binary_expr BinaryOp.and l r) ≡ ok (bool_value (kleene_and s t)))
        × (evaluate schema row (binary_expr BinaryOp.or l r) ≡ ok (bool_value (kleene_or s t)))
  unfolding evaluate eval_binary
  evaluate-kleene l r v w s t hl hr hs ht = rw (hl, hr) (and-kleene v w s t hs ht)

  -- De Morgan's laws hold of every two expressions, in value and in what they throw: NOT (a AND b)
  -- is (NOT a) OR (NOT b), and NOT (a OR b) is (NOT a) AND (NOT b).
  pub de_morgan :
      (a b : Expr F)
      → (evaluate schema row (unary_expr UnaryOp.not (binary_expr BinaryOp.and a b))
          ≡ evaluate schema row
              (binary_expr BinaryOp.or (unary_expr UnaryOp.not a) (unary_expr UnaryOp.not b)))
        × (evaluate schema row (unary_expr UnaryOp.not (binary_expr BinaryOp.or a b))
            ≡ evaluate schema row
                (binary_expr BinaryOp.and (unary_expr UnaryOp.not a) (unary_expr UnaryOp.not b)))
  unfolding evaluate eval_binary
  de_morgan a b = de_morgan_outcome (evaluate schema row a) (evaluate schema row b)

  -- `<>`, `>=` and `>` are the negations of `=`, `<` and `<=`, NULL where those are NULL, and throw
  -- what those throw.
  pub comparison_complements :
      (a b : Expr F)
      → (evaluate schema row (binary_expr BinaryOp.neq a b)
          ≡ evaluate schema row (unary_expr UnaryOp.not (binary_expr BinaryOp.eq a b)))
        × (evaluate schema row (binary_expr BinaryOp.gte a b)
            ≡ evaluate schema row (unary_expr UnaryOp.not (binary_expr BinaryOp.lt a b)))
        × (evaluate schema row (binary_expr BinaryOp.gt a b)
            ≡ evaluate schema row (unary_expr UnaryOp.not (binary_expr BinaryOp.lte a b)))
  unfolding evaluate
  comparison_complements a b = complement (evaluate schema row a) (evaluate schema row b)
