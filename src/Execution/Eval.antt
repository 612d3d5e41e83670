-- ===== src/Execution/Eval.antt =====
-- src/execution/eval.cpp: the evaluator of scalar expressions. `evaluate` is a recursion on the
-- expression whose cases are helpers over the outcomes of the operands; an operand's outcome is
-- looked at only where the code evaluates that operand.
pub mod Logic
pub mod Membership
mod Values
mod Operators
mod Functions
unfoldable pub use Values.*
unfoldable pub use Operators.*
unfoldable pub use Functions.*
use lite_query.Prelude.{
  ℕ, Bool, true, false, ◌||◌, not, if◌then◌else◌, ◌++◌, Bytes, codes, bytes_eq, Option, none, some,
  List, [], ◌∷◌, get_elem?, length, ◌==◌,
}
use lite_query.Prelude.Result.{Result, ok, err, eval_error, undefined, ◌>>=◌}
use lite_query.Types.Floats.{Floats}
use lite_query.Types.TypeId.{type_is_integer, type_is_float}
use lite_query.Types.Value.{Value, Row, null, bool, is_null, type_id, to_int64, to_double}
use lite_query.Types.Schema.{Schema, index_of}
use lite_query.Parser.Ast.{
  UnaryOp, BinaryOp, Expr, ExprList, OptExpr, CaseWhens, literal, column_ref, unary_expr,
  binary_expr, function_call, cast_expr, case_expr, in_expr, in_select_expr, between_expr,
  is_null_expr, exists_expr, subquery_expr, window_expr, no_exprs, expr_cons, no_expr, some_expr,
  no_whens, when_cons, is_aggregate,
}

-- The index of a column: by the qualified name first, if there is a qualifier.
unfoldable pub column_index : Schema → Option Bytes → Bytes → Option ℕ
column_index schema none column = index_of schema column
column_index schema (some table) column = elim (index_of schema (table ++ codes "." ++ column)) [
  | some i ↦ some i
  | none ↦ index_of schema column
]

module _ {F : Type 0} where
  -- `row[idx]`, unchecked
  abbrev row_at : Row F → Option ℕ → Result (Value F)
  row_at row none = err eval_error
  row_at row (some i) = elim (get_elem? row i) [ none ↦ err undefined | some v ↦ ok v ]

  unfoldable pub eval_column : Schema → Row F → Option Bytes → Bytes → Result (Value F)
  unfolding column_index bytes_eq
  eval_column schema row table column =
      if bytes_eq column (codes "*")
      then err eval_error
      else row_at row (column_index schema table column)

module _ {F : Type 0} ⦃fl : Floats F⦄ (schema : Schema) (row : Row F) where
  unfoldable mutual
    unfolding eval_column eval_unary eval_binary eval_between eval_in eval_case eval_cast eval_call

    pub evaluate : Expr F → Result (Value F)
    evaluate (literal v) = ok v
    evaluate (column_ref s table column) = eval_column schema row table column
    evaluate (unary_expr op e) = eval_unary op (evaluate e)
    evaluate (binary_expr op l r) = eval_binary op (evaluate l) (evaluate r)
    evaluate (function_call name args distinct star) = eval_call name (eval_all args)
    evaluate (cast_expr e t) = eval_cast (evaluate e) t
    evaluate (case_expr subject whens other) =
        eval_case (eval_opt subject) (eval_whens whens) (eval_opt other)
    evaluate (in_expr e list negated) = eval_in (evaluate e) (eval_all list) negated
    evaluate (in_select_expr e sub negated) = eval_in_select (evaluate e)
    evaluate (between_expr e low high negated) =
        eval_between (evaluate e) (evaluate low) (evaluate high) negated
    evaluate (is_null_expr e negated) = eval_is_null (evaluate e) negated
    evaluate (exists_expr sub negated) = err eval_error
    evaluate (subquery_expr sub) = err eval_error
    evaluate (window_expr f partition keys fr) = err eval_error

    -- The outcome of each expression of a list, of each WHEN, and of an optional expression.
    pub eval_all : ExprList F → List (Result (Value F))
    eval_all no_exprs = []
    eval_all (expr_cons e es) = evaluate e ∷ eval_all es

    pub eval_whens : CaseWhens F → List (Result (Value F) × Result (Value F))
    eval_whens no_whens = []
    eval_whens (when_cons c r ws) = (evaluate c, evaluate r) ∷ eval_whens ws

    pub eval_opt : OptExpr F → Option (Result (Value F))
    eval_opt no_expr = none
    eval_opt (some_expr e) = some (evaluate e)

-- The coercion at the end of evaluatePredicate.
module _ {F : Type 0} ⦃fl : Floats F⦄ where
  unfoldable pub predicate_value : Value F → Result Bool
  unfolding is_null type_id type_is_integer type_is_float to_int64 to_double is_nonzero_int
      is_nonzero_float
  predicate_value null = ok false
  predicate_value (bool b) = ok b
  predicate_value v =
      if type_is_integer (type_id v)
      then (do n ← to_int64 v; ok (is_nonzero_int n))
      else if type_is_float (type_id v)
      then (do x ← to_double v; ok (is_nonzero_float x))
      else ok false

  unfoldable pub evaluate_predicate : Expr F → Schema → Row F → Result Bool
  unfolding predicate_value
  evaluate_predicate e schema row = do v ← evaluate schema row e; predicate_value v
