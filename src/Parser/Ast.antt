-- ===== src/Parser/Ast.antt =====
-- src/parser/ast.h: expressions, table references and SELECT statements. A std::optional of a node
-- and a vector of nodes are data types of the block; source locations, which only error messages
-- show, are left out.
use lite_query.Prelude.{Bool, Bytes, codes, bytes_eq, Option, ◌||◌}
use lite_query.Types.DataType.{DataType}
use lite_query.Types.Value.{Value}

pub data SortOrder : Type 0 where
  asc desc : SortOrder

pub data NullsOrder : Type 0 where
  nulls_first nulls_last unspecified : NullsOrder

pub data JoinType : Type 0 where
  inner left right full cross : JoinType

pub data SetOp : Type 0 where
  union union_all intersect except : SetOp

pub data FrameMode : Type 0 where
  rows range : FrameMode

pub data FrameBound : Type 0 where
  unbounded_preceding current_row unbounded_following expr_preceding expr_following : FrameBound

pub data UnaryOp : Type 0 where
  negate plus not : UnaryOp

pub data BinaryOp : Type 0 where
  add sub mul div mod_op pow : BinaryOp
  eq neq lt lte gt gte : BinaryOp
  and or : BinaryOp
  concat like ilike : BinaryOp
  json_arrow json_arrow2 : BinaryOp

mutual
  -- ExprNode
  pub data Expr (F : Type 0) : Type 0 where
    literal : Value F → Expr F
    -- schema, table, column
    column_ref : Option Bytes → Option Bytes → Bytes → Expr F
    unary_expr : UnaryOp → Expr F → Expr F
    binary_expr : BinaryOp → Expr F → Expr F → Expr F
    -- name, args, distinct, star
    function_call : Bytes → ExprList F → Bool → Bool → Expr F
    cast_expr : Expr F → DataType → Expr F
    -- subject, whenClauses, elseExpr
    case_expr : OptExpr F → CaseWhens F → OptExpr F → Expr F
    -- expr, values (a list or a subquery), negated
    in_expr : Expr F → ExprList F → Bool → Expr F
    in_select_expr : Expr F → SelectStmt F → Bool → Expr F
    -- expr, low, high, negated
    between_expr : Expr F → Expr F → Expr F → Bool → Expr F
    is_null_expr : Expr F → Bool → Expr F
    exists_expr : SelectStmt F → Bool → Expr F
    subquery_expr : SelectStmt F → Expr F
    -- func, partitionBy, orderBy, frame
    window_expr : Expr F → ExprList F → SortKeys F → OptFrame F → Expr F

  pub data ExprList (F : Type 0) : Type 0 where
    no_exprs : ExprList F
    expr_cons : Expr F → ExprList F → ExprList F

  pub data OptExpr (F : Type 0) : Type 0 where
    no_expr : OptExpr F
    some_expr : Expr F → OptExpr F

  pub data CaseWhens (F : Type 0) : Type 0 where
    no_whens : CaseWhens F
    -- condition, result
    when_cons : Expr F → Expr F → CaseWhens F → CaseWhens F

  pub data SortKeys (F : Type 0) : Type 0 where
    no_keys : SortKeys F
    key_cons : Expr F → SortOrder → NullsOrder → SortKeys F → SortKeys F

  pub data OptFrame (F : Type 0) : Type 0 where
    no_frame : OptFrame F
    frame : FrameMode → FrameBound → FrameBound → OptExpr F → OptExpr F → OptFrame F

  -- TableRefNode
  pub data TableRefNode (F : Type 0) : Type 0 where
    -- schema, name
    table_ref : Option Bytes → Bytes → TableRefNode F
    aliased_ref : TableRefNode F → Bytes → TableRefNode F
    join_ref : JoinType → TableRefNode F → TableRefNode F → OptExpr F → TableRefNode F
    subquery_ref : SelectStmt F → TableRefNode F

  pub data TableRefs (F : Type 0) : Type 0 where
    no_tables : TableRefs F
    table_cons : TableRefNode F → TableRefs F → TableRefs F

  pub data SelectItems (F : Type 0) : Type 0 where
    no_items : SelectItems F
    -- expr, alias
    item_cons : Expr F → Option Bytes → SelectItems F → SelectItems F

  -- The optional clauses: a FROM clause has tables, a GROUP BY clause keys, and so on.
  pub data OptLimit (F : Type 0) : Type 0 where
    no_limit : OptLimit F
    -- limit, offset
    limit_clause : OptExpr F → OptExpr F → OptLimit F

  pub data OptSetOp (F : Type 0) : Type 0 where
    no_set_op : OptSetOp F
    set_op_tail : SetOp → SelectStmt F → OptSetOp F

  pub data SelectStmt (F : Type 0) : Type 0 where
    -- distinct, selectList, from, where, groupBy, having, orderBy, limit, setOp; a FROM, GROUP BY or
    -- ORDER BY clause that is present has at least one member, so an absent one is the empty list
    select_stmt :
        Bool
        → SelectItems F
        → TableRefs F
        → OptExpr F
        → ExprList F
        → OptExpr F
        → SortKeys F
        → OptLimit F
        → OptSetOp F
        → SelectStmt F

-- FunctionCall::isAggregate
unfoldable pub is_aggregate : Bytes → Bool
unfolding bytes_eq
is_aggregate name =
    bytes_eq name (codes "SUM")
    || bytes_eq name (codes "COUNT")
    || bytes_eq name (codes "AVG")
    || bytes_eq name (codes "MIN")
    || bytes_eq name (codes "MAX")
    || bytes_eq name (codes "STDDEV")
    || bytes_eq name (codes "VARIANCE")
