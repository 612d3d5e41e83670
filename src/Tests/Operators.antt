-- ===== src/Tests/Operators.antt =====
-- The theorems on operators, over Values with three rows.
use lite_query.Execution.Operator.Chunk.Batches.{HandsOut, values-HandsOut}
use lite_query.Prelude.{
  ℕ, ◌≡◌, refl, arith, some, Option, Bool, List, [], ◌∷◌, ◌++◌, map, filter, drop, codes, true,
  false,
}
use lite_query.Prelude.Int.{ℤ, pos, pos_part, ltb_ℤ, eqb_ℤ}
use lite_query.Prelude.Result.{Result, ok}
use lite_query.Types.TypeId.{TypeId}
use lite_query.Types.DataType.{plain}
use lite_query.Types.Value.{Row, null, int64}
use lite_query.Types.Schema.{Schema, index_of, merge}
use lite_query.Parser.Ast.{Expr, JoinType, binary_expr, BinaryOp}
use lite_query.Execution.Eval.{evaluate, evaluate_predicate}
use lite_query.Execution.Operator.{drain}
use lite_query.Execution.Operator.Stream.{Yields, Added, drain-Yields}
use lite_query.Execution.Operator.Chunk.{emit_rows, values_op, values-Yields}
use lite_query.Execution.Operator.Filter.{filter_op, Evaluates, filter-Yields}
use lite_query.Execution.Operator.Project.{Item, project_op, Projects, project-Yields}
use lite_query.Execution.Operator.Limit.{limit_op, limit_start}
use lite_query.Execution.Operator.Limit.Window.{up_to}
use lite_query.Execution.Operator.Limit.Stream.{limit-Yields}
use lite_query.Execution.Operator.Append.{append_op, append-Yields}
use lite_query.Execution.Operator.Join.{join_test, join_rows, join_op}
use lite_query.Execution.Operator.Join.Pairs.{join_spec, Decides, join_rows-join_spec}
use lite_query.Execution.Operator.Join.Stream.{join_start, join-Yields}
use lite_query.Tests.Samples.{
  whole_floats, number, one_column, two_columns, three_rows, n_column, m_column, above_one,
}

values-HandsOut_example :
    Yields (values_op one_column three_rows) 0 three_rows
    × ((cursor : ℕ)
        → HandsOut one_column three_rows cursor (emit_rows one_column three_rows cursor))
values-HandsOut_example = values-HandsOut one_column three_rows (refl, (refl, (refl, tt)))

three-Yields : Yields (values_op one_column three_rows) 0 three_rows
three-Yields = values-Yields one_column three_rows (refl, (refl, (refl, tt)))

drain-Yields_example : Added one_column (drain (values_op one_column three_rows) 4 0) three_rows
drain-Yields_example = drain-Yields (values_op one_column three_rows) 4 three-Yields (omega arith)

-- The answers of n > 1 on the three rows.
abbrev big : Row ℤ → Bool
big (int64 n ∷ row) = ltb_ℤ (pos 1) n
big _ = false

big-Evaluates : Evaluates (values_op one_column three_rows) above_one big three_rows
unfolding evaluate_predicate evaluate index_of
big-Evaluates = (refl, (refl, (refl, tt)))

filter-Yields_example :
    Yields (filter_op (values_op one_column three_rows) above_one 4) 0 (filter big three_rows)
filter-Yields_example =
    filter-Yields (values_op one_column three_rows) above_one big 4 three-Yields big-Evaluates
      (omega arith)

-- SELECT n, n AS copy
abbrev twice_items : List (Item ℤ)
twice_items =
    record { expr = n_column; name = codes "n"; type = plain TypeId.int64 true }
    ∷ record { expr = n_column; name = codes "copy"; type = plain TypeId.int64 true }
    ∷ []

abbrev twice : Row ℤ → Row ℤ
twice (v ∷ row) = v ∷ v ∷ []
twice [] = []

twice-Projects : Projects (values_op one_column three_rows) twice_items twice three_rows
unfolding evaluate index_of
twice-Projects = (refl, (refl, (refl, tt)))

project-Yields_example :
    Yields (project_op (values_op one_column three_rows) twice_items) 0 (map twice three_rows)
project-Yields_example =
    project-Yields (values_op one_column three_rows) twice_items twice three-Yields twice-Projects

-- LIMIT 1 OFFSET 1
limit-Yields_example :
    Yields
      (limit_op (values_op one_column three_rows) (pos 1) (pos 1) 4)
      (limit_start (values_op one_column three_rows) (pos 1) (pos 1) 0)
      (up_to (pos 1) (drop (pos_part (pos 1)) three_rows))
limit-Yields_example =
    limit-Yields (values_op one_column three_rows) (pos 1) (pos 1) 4 0 three_rows three-Yields
      (omega arith)

append-Yields_example :
    Yields
      (append_op (values_op one_column three_rows) (values_op one_column three_rows))
      (record { left = 0; right = 0; left_done = false })
      (three_rows ++ three_rows)
append-Yields_example =
    append-Yields (values_op one_column three_rows) (values_op one_column three_rows) refl
      three-Yields three-Yields

-- FULL JOIN ON n = m, with a NULL on the right.
abbrev m_schema : Schema
m_schema = record { name = codes "m"; type = plain TypeId.int64 true } ∷ []

abbrev right_rows : List (Row ℤ)
right_rows = (number 2 ∷ []) ∷ (null ∷ []) ∷ []

abbrev n_is_m : Option (Expr ℤ)
n_is_m = some (binary_expr BinaryOp.eq n_column m_column)

abbrev equal_numbers : Row ℤ → Row ℤ → Bool
equal_numbers (int64 a ∷ l) (int64 b ∷ r) = eqb_ℤ a b
equal_numbers _ _ = false

abbrev n_m_test : Row ℤ → Row ℤ → Result Bool
n_m_test = join_test JoinType.full n_is_m (merge one_column m_schema)

equal-Decides : Decides n_m_test equal_numbers three_rows right_rows
unfolding join_test evaluate_predicate evaluate index_of merge
equal-Decides = ((refl, (refl, tt)), ((refl, (refl, tt)), ((refl, (refl, tt)), tt)))

join_rows-join_spec_example :
    join_rows n_m_test JoinType.full 1 1 three_rows right_rows
    ≡ ok (join_spec equal_numbers JoinType.full 1 1 three_rows right_rows)
join_rows-join_spec_example =
    join_rows-join_spec n_m_test equal_numbers JoinType.full 1 1 three_rows right_rows equal-Decides

right-rows-Yields : Yields (values_op m_schema right_rows) 0 right_rows
right-rows-Yields = values-Yields m_schema right_rows (refl, (refl, tt))

join-Yields_example :
    Yields
      (join_op
        (values_op one_column three_rows)
        (values_op m_schema right_rows)
        JoinType.full
        n_is_m
        two_columns
        4)
      (join_start
        (values_op one_column three_rows)
        (values_op m_schema right_rows)
        JoinType.full
        n_is_m
        two_columns
        4
        0
        0)
      (join_spec equal_numbers JoinType.full 1 1 three_rows right_rows)
join-Yields_example =
    join-Yields (values_op one_column three_rows) (values_op m_schema right_rows) JoinType.full
      n_is_m two_columns 4 equal_numbers three-Yields right-rows-Yields (omega arith) (omega arith)
      equal-Decides refl
