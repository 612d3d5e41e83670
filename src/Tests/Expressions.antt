-- ===== src/Tests/Expressions.antt =====
-- The theorems on expressions, at concrete texts and expressions.
use lite_query.Prelude.{◌≡◌, refl, ◌↔◌, arith, Bool, true, false, codes, [], ◌∷◌}
use lite_query.Prelude.Result.{ok}
use lite_query.Prelude.Int.{ℤ}
use lite_query.Types.Value.{null, bool, is_null}
use lite_query.Types.Schema.{index_of}
use lite_query.Parser.Ast.{
  ExprList, Expr, literal, binary_expr, unary_expr, in_expr, between_expr, no_exprs, expr_cons,
  BinaryOp, UnaryOp,
}
use lite_query.Parser.Token.{is_keyword, classify_keyword, token_kind_name}
use lite_query.Parser.Token.Keywords.{classify_keyword-token_kind_name}
use lite_query.Execution.Like.{like_match}
use lite_query.Execution.Like.Matching.{Likes}
use lite_query.Execution.Like.Decision.{like_match_sound, like_match_iff, percent_is_literal}
use lite_query.Execution.Eval.{evaluate, Truth, Comparison, truthiness, bool_value, compare_values}
use lite_query.Execution.Eval.Logic.{
  kleene_and, kleene_or, evaluate-kleene, de_morgan, comparison_complements,
}
use lite_query.Execution.Eval.Membership.{in-any_equal, between-and, any_equal, BetweenCases}
use lite_query.Tests.Samples.{whole_floats, number, one_column, n_column, above_one}

like_match_iff_example :
    (like_match (codes "axbxc") (codes "a%x_") false ≡ ok true)
    ↔ Likes false (codes "a%x_") (codes "axbxc")
like_match_iff_example = like_match_iff (codes "axbxc") (codes "a%x_") false (
  (λ h. omega (arith, h)),
  (
    (λ h. omega (arith, h)),
    ((λ h. omega (arith, h)), ((λ h. omega (arith, h)), ((λ h. omega (arith, h)), tt))),
  ),
)

like_match_sound_example :
    ((b : Bool) × (like_match (codes "50%") (codes "5%") true ≡ ok b))
    × (like_match (codes "50%") (codes "5%") true ≡ ok true → Likes true (codes "5%") (codes "50%"))
like_match_sound_example = like_match_sound (codes "50%") (codes "5%") true

percent_is_literal_example :
    (like_match (codes "%abc") (codes "%c") false ≡ ok true) ↔ Likes false (codes "c") (codes "abc")
percent_is_literal_example =
    percent_is_literal (codes "abc") (codes "c") false
      ((λ h. omega (arith, h)), ((λ h. omega (arith, h)), ((λ h. omega (arith, h)), tt)))

select-keyword : is_keyword (classify_keyword (codes "SELECT")) ≡ true
unfolding is_keyword classify_keyword
select-keyword = refl

classify_keyword-token_kind_name_example :
    token_kind_name (classify_keyword (codes "SELECT")) ≡ codes "SELECT"
classify_keyword-token_kind_name_example =
    classify_keyword-token_kind_name (codes "SELECT") select-keyword

-- n > 1 on a row whose n is NULL.
above_one-unknown : evaluate one_column (null ∷ []) above_one ≡ ok null
unfolding evaluate index_of
above_one-unknown = refl

abbrev false_expr : Expr ℤ
false_expr = literal (bool false)

false_literal : evaluate one_column (null ∷ []) false_expr ≡ ok (bool false)
unfolding evaluate
false_literal = refl

unknown-truth : truthiness {F = ℤ} null ≡ ok Truth.unknown
unfolding truthiness
unknown-truth = refl

false-truth : truthiness {F = ℤ} (bool false) ≡ ok Truth.is_false
unfolding truthiness
false-truth = refl

evaluate-kleene_example :
    (evaluate one_column (null ∷ []) (binary_expr BinaryOp.and above_one (literal (bool false)))
      ≡ ok (bool_value (kleene_and Truth.unknown Truth.is_false)))
    × (evaluate one_column (null ∷ []) (binary_expr BinaryOp.or above_one (literal (bool false)))
        ≡ ok (bool_value (kleene_or Truth.unknown Truth.is_false)))
evaluate-kleene_example =
    evaluate-kleene one_column (null ∷ []) above_one (literal (bool false)) null (bool false)
      Truth.unknown Truth.is_false above_one-unknown false_literal unknown-truth false-truth

de_morgan_example :
    (evaluate one_column
        (number 1 ∷ [])
        (unary_expr UnaryOp.not (binary_expr BinaryOp.and above_one above_one))
      ≡ evaluate one_column (number 1 ∷ []) (
          binary_expr BinaryOp.or
            (unary_expr UnaryOp.not above_one)
            (unary_expr UnaryOp.not above_one)))
    × (evaluate one_column
          (number 1 ∷ [])
          (unary_expr UnaryOp.not (binary_expr BinaryOp.or above_one above_one))
        ≡ evaluate one_column (number 1 ∷ []) (
            binary_expr BinaryOp.and
              (unary_expr UnaryOp.not above_one)
              (unary_expr UnaryOp.not above_one)))
de_morgan_example = de_morgan one_column (number 1 ∷ []) above_one above_one

abbrev one_literal : Expr ℤ
one_literal = literal (number 1)

comparison_complements_example :
    (evaluate one_column (number 1 ∷ []) (binary_expr BinaryOp.neq n_column one_literal)
      ≡ evaluate one_column
          (number 1 ∷ [])
          (unary_expr UnaryOp.not (binary_expr BinaryOp.eq n_column one_literal)))
    × (evaluate one_column (number 1 ∷ []) (binary_expr BinaryOp.gte n_column one_literal)
        ≡ evaluate one_column
            (number 1 ∷ [])
            (unary_expr UnaryOp.not (binary_expr BinaryOp.lt n_column one_literal)))
    × (evaluate one_column (number 1 ∷ []) (binary_expr BinaryOp.gt n_column one_literal)
        ≡ evaluate one_column
            (number 1 ∷ [])
            (unary_expr UnaryOp.not (binary_expr BinaryOp.lte n_column one_literal)))
comparison_complements_example =
    comparison_complements one_column (number 1 ∷ []) n_column one_literal

n-value : evaluate one_column (number 2 ∷ []) n_column ≡ ok (number 2)
unfolding evaluate index_of
n-value = refl

two-is_null : is_null (number 2) ≡ false
unfolding is_null
two-is_null = refl

abbrev two_items : ExprList ℤ
two_items = expr_cons (literal (number 1)) (expr_cons (literal null) no_exprs)

in-any_equal_example :
    evaluate one_column (number 2 ∷ []) (in_expr n_column two_items false)
    ≡ evaluate one_column (number 2 ∷ []) (any_equal n_column two_items)
in-any_equal_example =
    in-any_equal one_column (number 2 ∷ []) n_column (number 2) two_items n-value two-is_null

-- 2 BETWEEN NULL AND 1
null_literal : evaluate one_column (number 2 ∷ []) (literal null) ≡ ok null
unfolding evaluate
null_literal = refl

one_literal-value : evaluate one_column (number 2 ∷ []) one_literal ≡ ok (number 1)
unfolding evaluate
one_literal-value = refl

compare-null : compare_values (number 2) null ≡ ok Comparison.unordered
unfolding compare_values
compare-null = refl

compare-one : compare_values (number 2) (number 1) ≡ ok Comparison.greater
unfolding compare_values
compare-one = refl

between-and_example :
    BetweenCases
      (evaluate one_column (number 2 ∷ []) (between_expr n_column (literal null) one_literal false))
      (evaluate one_column (number 2 ∷ []) (
        binary_expr BinaryOp.and
          (binary_expr BinaryOp.gte n_column (literal null))
          (binary_expr BinaryOp.lte n_column one_literal)))
      Comparison.unordered
      Comparison.greater
between-and_example =
    between-and one_column (number 2 ∷ []) n_column (literal null) one_literal (number 2) null
      (number 1) Comparison.unordered Comparison.greater n-value null_literal one_literal-value
      compare-null compare-one
