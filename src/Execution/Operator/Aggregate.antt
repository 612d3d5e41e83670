-- ===== src/Execution/Operator/Aggregate.antt =====
-- src/execution/physical_plan.cpp, HashAggregate: GROUP BY with the aggregate functions.
pub mod Groups
pub mod Results
pub mod Stream
use lite_query.Prelude.{
  ℕ, suc, Bool, true, false, not, ◌&&◌, ◌||◌, ◌==◌, if◌then◌else◌, Bytes, codes, bytes_eq, Option,
  none, some, List, [], ◌∷◌, ◌++◌, map, to_string_ℕ,
}
use lite_query.Prelude.Int.{ℤ, pos}
use lite_query.Prelude.Result.{Result, ok, err, undefined, runtime_error, ◌>>=◌, map_result}
use lite_query.Types.Floats.{Floats}
use lite_query.Types.TypeId.{type_code}
use lite_query.Types.DataType.{DataType, float64, as_nullable}
use lite_query.Types.Value.{
  Value, Row, null, int64, double, is_null, type_id, to_double, to_string, value_lt,
}
use lite_query.Types.Schema.{Schema, add_column}
use lite_query.Parser.Ast.{Expr}
use lite_query.Execution.Eval.{evaluate}
use lite_query.Execution.Operator.{Operator, consume_loop}
use lite_query.Execution.Operator.Buffered.{Buffered, buffered_op}
use lite_query.Execution.Operator.Distinct.{row_key, key_seen}

-- HashAggregate::Agg; `none` is the null argument of COUNT(*).
pub record Agg (F : Type 0) : Type 0 where
  pub func : Bytes
  pub arg : Option (Expr F)
  pub star : Bool
  pub distinct : Bool
  pub out_name : Bytes
  pub out_type : DataType

-- The members of AccState that belong to one aggregate: `numAcc[i]`, `counts[i]`, `minmax[i]`, `seen[i]`.
pub record Cell (F : Type 0) : Type 0 where
  pub num_acc : F
  pub count : ℕ
  pub minmax : Value F
  pub seen : List Bytes

-- AccState, without its key.
pub record Group (F : Type 0) : Type 0 where
  pub cells : List (Cell F)
  pub key_values : Row F

-- `groups_`, as a list of entries, with `order_` and `anyRows`.
pub record Grouping (F : Type 0) : Type 0 where
  pub groups : List (Bytes × Group F)
  pub order : List Bytes
  pub any_rows : Bool

-- The constructor's loops.
unfoldable pub key_columns : List Bytes → Schema → Schema
unfolding add_column float64 as_nullable
key_columns [] schema = schema
key_columns (name ∷ names) schema =
    key_columns names (add_column schema name (as_nullable (float64 true)))

module _ {F : Type 0} where
  unfoldable pub agg_columns : List (Agg F) → Schema → Schema
  unfolding add_column
  agg_columns [] schema = schema
  agg_columns (a ∷ aggs) schema = agg_columns aggs (add_column schema a.out_name a.out_type)

  unfoldable pub aggregate_schema : List Bytes → List (Agg F) → Schema
  unfolding key_columns agg_columns
  aggregate_schema names aggs = agg_columns aggs (key_columns names [])

  unfoldable pub find_group : List (Bytes × Group F) → Bytes → Option (Group F)
  unfolding bytes_eq
  find_group [] k = none
  find_group (e ∷ groups) k = if bytes_eq e.0 k then some e.1 else find_group groups k

  -- The cells of the group with that key; a map has one.
  unfoldable pub set_cells : List (Bytes × Group F) → Bytes → List (Cell F) → List (Bytes × Group F)
  unfolding bytes_eq
  set_cells [] k cells = []
  set_cells (e ∷ groups) k cells =
      (if bytes_eq e.0 k then (e.0, record e.1 { cells = cells }) else e) ∷ set_cells groups k cells

module _ {F : Type 0} ⦃fl : Floats F⦄ where
  -- newAcc
  unfoldable pub new_cells : List (Agg F) → List (Cell F)
  new_cells [] = []
  new_cells (a ∷ aggs) =
      record { num_acc = fl.of_int (pos 0); count = 0; minmax = null; seen = [] } ∷ new_cells aggs

  abbrev pub argument : Option (Expr F) → Result (Expr F)
  argument none = err undefined
  argument (some e) = ok e

  -- The tests on the name of the function, behind `counts[i]++`.
  unfoldable pub apply_func : Bytes → Value F → Cell F → Result (Cell F)
  unfolding bytes_eq to_double is_null value_lt
  apply_func func v c =
      let summed = do x ← to_double v; ok (record c { num_acc = fl.fadd c.num_acc x })
      in let smallest = do
        less ← if is_null c.minmax then ok true else value_lt v c.minmax
        ok (if less then record c { minmax = v } else c)
        in let largest = do
          less ← if is_null c.minmax then ok true else value_lt c.minmax v
          ok (if less then record c { minmax = v } else c)
          in if bytes_eq func (codes "SUM") || bytes_eq func (codes "AVG")
            then summed
            else if bytes_eq func (codes "MIN")
            then smallest
            else if bytes_eq func (codes "MAX")
            then largest
            else ok c

  -- `std::to_string((int)v.typeId()) + ":" + v.toString()`
  unfoldable pub distinct_key : Value F → Bytes
  unfolding to_string_ℕ type_code type_id to_string
  distinct_key v = to_string_ℕ (type_code (type_id v)) ++ (b':' ∷ to_string v)

  -- One value that is not NULL.
  unfoldable pub add_value : Agg F → Value F → Cell F → Result (Cell F)
  unfolding key_seen distinct_key apply_func
  add_value a v c =
      let k = distinct_key v in
      let counted = apply_func a.func v (record c { count = suc c.count }) in
      let marked = apply_func a.func v (record c { count = suc c.count; seen = k ∷ c.seen }) in
      if a.distinct then (if key_seen c.seen k then ok c else marked) else counted

  -- The body of the loop over the aggregates.
  unfoldable pub update_cell : Schema → Row F → Agg F → Cell F → Result (Cell F)
  unfolding add_value is_null
  update_cell schema row a c =
      let valued = do
        e ← argument a.arg
        v ← evaluate schema row e
        if is_null v then ok c else add_value a v c
      in if a.star then ok (record c { count = suc c.count }) else valued

  unfoldable pub update_cells :
      Schema → List (Agg F) → Row F → List (Cell F) → Result (List (Cell F))
  unfolding update_cell
  update_cells schema [] row cells = ok []
  update_cells schema (a ∷ aggs) row [] = err undefined
  update_cells schema (a ∷ aggs) row (c ∷ cells) = do
    c' ← update_cell schema row a c
    cells' ← update_cells schema aggs row cells
    ok (c' ∷ cells')

  abbrev pub group_or_undefined : Option (Group F) → Result (Group F)
  group_or_undefined none = err undefined
  group_or_undefined (some g) = ok g

  -- The entry that was found, or a new one with its place in the order.
  abbrev pub emplaced : List (Agg F) → Bytes → Row F → Grouping F → Option (Group F) → Grouping F
  unfolding new_cells
  emplaced aggs k key_values st none = record {
    groups = st.groups ++ (k, record { cells = new_cells aggs; key_values = key_values }) ∷ [];
    order = st.order ++ k ∷ [];
    any_rows = true;
  }
  emplaced aggs k key_values st (some g) = record st { any_rows = true }

  -- The group of the key, emplaced if there is none.
  unfoldable pub with_group : List (Agg F) → Bytes → Row F → Grouping F → Grouping F
  unfolding find_group
  with_group aggs k key_values st = emplaced aggs k key_values st (find_group st.groups k)

  -- The cells of the group of the key take in the row.
  unfoldable pub update_group :
      Schema → List (Agg F) → Row F → Bytes → Grouping F → Result (Grouping F)
  unfolding find_group update_cells set_cells
  update_group schema aggs row k st = do
    g ← group_or_undefined (find_group st.groups k)
    cells ← update_cells schema aggs row g.cells
    ok (record st { groups = set_cells st.groups k cells })

  -- The body of the loop over the rows.
  unfoldable pub aggregate_row :
      Schema → List (Expr F) → List (Agg F) → Grouping F → Row F → Result (Grouping F)
  unfolding row_key with_group update_group
  aggregate_row schema keys aggs st row = do
    key_values ← map_result (λ e. evaluate schema row e) keys
    update_group schema aggs row (row_key key_values)
        (with_group aggs (row_key key_values) key_values st)

  -- The result of one aggregate.
  unfoldable pub finish_cell : Agg F → Cell F → Value F
  unfolding bytes_eq
  finish_cell a c =
      if bytes_eq a.func (codes "COUNT")
      then int64 (pos c.count)
      else if bytes_eq a.func (codes "SUM")
      then (if c.count == 0 then null else double c.num_acc)
      else if bytes_eq a.func (codes "AVG")
      then (if c.count == 0 then null else double (fl.fdiv c.num_acc (fl.of_int (pos c.count))))
      else if bytes_eq a.func (codes "MIN") || bytes_eq a.func (codes "MAX")
      then c.minmax
      else null

  unfoldable pub finish_cells : List (Agg F) → List (Cell F) → Result (Row F)
  unfolding finish_cell
  finish_cells [] cells = ok []
  finish_cells (a ∷ aggs) [] = err undefined
  finish_cells (a ∷ aggs) (c ∷ cells) = do row ← finish_cells aggs cells; ok (finish_cell a c ∷ row)

  abbrev pub group_or_throw : Option (Group F) → Result (Group F)
  group_or_throw none = err runtime_error
  group_or_throw (some g) = ok g

  -- The row of one key: `groups_.at(order_[gi])`, its key values and its results.
  unfoldable pub group_row : List (Agg F) → List (Bytes × Group F) → Bytes → Result (Row F)
  unfolding find_group finish_cells
  group_row aggs groups k = do
    g ← group_or_throw (find_group groups k)
    row ← finish_cells aggs g.cells
    ok (g.key_values ++ row)

  abbrev no_keys : List (Expr F) → Bool
  no_keys [] = true
  no_keys (k ∷ keys) = false

  -- `if (groupKeys_.empty() && !anyRows)`
  unfoldable pub with_empty_group : List (Expr F) → List (Agg F) → Grouping F → Grouping F
  unfolding with_group row_key
  with_empty_group keys aggs st =
      if no_keys keys && not st.any_rows then with_group aggs (row_key {F = F} []) [] st else st

module _ {F S : Type 0} ⦃fl : Floats F⦄ (child : Operator F S) (keys : List (Expr F))
    (names : List Bytes) (aggs : List (Agg F)) where
  -- build, and the rows that `next` makes of the groups: they do not change once they are built.
  unfoldable pub aggregate_build : ℕ → S → Result (List (Row F) × S)
  unfolding consume_loop aggregate_row with_empty_group group_row
  aggregate_build fuel s = do
    r ←
        consume_loop child (aggregate_row child.schema keys aggs) fuel s
          (record { groups = []; order = []; any_rows = false })
    let st = with_empty_group keys aggs r.0
    rows ← map_result (group_row aggs st.groups) st.order
    ok (rows, r.1)

  -- HashAggregate, with fuel for the loop over the child.
  abbrev pub aggregate_op : ℕ → Operator F (Buffered F S)
  unfolding aggregate_schema
  aggregate_op fuel = buffered_op (aggregate_schema names aggs) (aggregate_build fuel)
