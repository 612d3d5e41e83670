-- ===== src/Execution/Operator/Join.antt =====
-- src/execution/physical_plan.cpp, HashJoin: both children are read to their ends, every pair of rows
-- is probed, and the rows found are handed out from a cursor.
pub mod Pairs
pub mod Widths
pub mod Stream
use lite_query.Prelude.{
  ℕ, suc, Bool, true, false, ◌||◌, List, [], ◌∷◌, ◌++◌, length, replicate, set, Option, none, some,
  if◌then◌else◌,
}
use lite_query.Prelude.Result.{Result, ok, err, undefined, ◌>>=◌}
use lite_query.Types.Floats.{Floats}
use lite_query.Types.Value.{Value, null, Row}
use lite_query.Types.Schema.{Schema, merge}
use lite_query.Types.Batch.{Batch}
use lite_query.Parser.Ast.{Expr, JoinType}
use lite_query.Execution.Eval.{evaluate_predicate}
use lite_query.Execution.Operator.{Operator, collect_loop}
use lite_query.Execution.Operator.Chunk.{emit_rows}

-- Which unmatched rows a join keeps.
unfoldable pub keeps_left : JoinType → Bool
keeps_left JoinType.left = true
keeps_left JoinType.full = true
keeps_left _ = false

unfoldable pub keeps_right : JoinType → Bool
keeps_right JoinType.right = true
keeps_right JoinType.full = true
keeps_right _ = false

-- `result_`, `leftMatched` and `rightMatched_` while the rows are probed.
pub record Probe (F : Type 0) : Type 0 where
  pub result : List (Row F)
  pub left_matched : Bool
  pub right_matched : List Bool

unfoldable pub null_row : {F : Type 0} → ℕ → Row F
null_row n = replicate n null

module _ {F : Type 0} ⦃fl : Floats F⦄ where
  -- `ok` in the inner loop: the ON condition over the concatenated rows, if there is one.
  unfoldable pub join_test : JoinType → Option (Expr F) → Schema → Row F → Row F → Result Bool
  join_test JoinType.cross condition merged l r = ok true
  join_test kind none merged l r = ok true
  join_test kind (some condition) merged l r = evaluate_predicate condition merged (l ++ r)

module _ {F : Type 0} (test : Row F → Row F → Result Bool) where
  -- The inner loop, from the right row `ri` on.
  unfoldable pub probe_right : Row F → List (Row F) → ℕ → Probe F → Result (Probe F)
  probe_right l [] ri p = ok p
  probe_right l (r ∷ rows) ri p = do
    hit ← test l r
    probe_right l rows (suc ri) (
        if hit
        then record {
          result = p.result ++ (l ++ r) ∷ [];
          left_matched = true;
          right_matched = set p.right_matched ri true;
        }
        else p)

  -- The outer loop.
  unfoldable pub probe_left :
      JoinType
      → ℕ
      → List (Row F)
      → List (Row F)
      → List (Row F)
      → List Bool
      → Result (List (Row F) × List Bool)
  unfolding probe_right keeps_left null_row
  probe_left kind rcols right_rows [] result matched = ok (result, matched)
  probe_left kind rcols right_rows (l ∷ rows) result matched = do
    p ←
        probe_right l right_rows 0
          (record { result = result; left_matched = false; right_matched = matched })
    probe_left kind rcols right_rows rows
        (if p.left_matched
          then p.result
          else if keeps_left kind
          then p.result ++ (l ++ null_row rcols) ∷ []
          else p.result)
        p.right_matched

-- The last loop: the right rows that no left row matched.
unfoldable pub emit_unmatched :
    {F : Type 0} → ℕ → List (Row F) → List Bool → List (Row F) → Result (List (Row F))
unfolding null_row
emit_unmatched lcols [] matched result = ok result
emit_unmatched lcols (r ∷ rows) [] result = err undefined
emit_unmatched lcols (r ∷ rows) (m ∷ matched) result =
    emit_unmatched lcols rows matched (if m then result else result ++ (null_row lcols ++ r) ∷ [])

-- The body of computeResult behind materializeLeft.
unfoldable pub join_rows :
    {F : Type 0}
    → (Row F → Row F → Result Bool)
    → JoinType
    → ℕ
    → ℕ
    → List (Row F)
    → List (Row F)
    → Result (List (Row F))
unfolding probe_left emit_unmatched keeps_right
join_rows test kind lcols rcols left_rows right_rows = do
  p ← probe_left test kind rcols right_rows left_rows [] (replicate (length right_rows) false)
  if keeps_right kind then emit_unmatched lcols right_rows p.1 p.0 else ok p.0

-- The members that `next` changes; `rows` is `result_`.
pub record JoinState (F S T : Type 0) : Type 0 where
  pub left : S
  pub right : T
  pub built : Bool
  pub rows : List (Row F)
  pub cursor : ℕ

module _ {F S T : Type 0} ⦃fl : Floats F⦄ (left : Operator F S) (right : Operator F T)
    (kind : JoinType) (condition : Option (Expr F)) (schema : Schema) where
  -- computeResult, with fuel for the loops that read the children.
  unfoldable pub compute_result : ℕ → JoinState F S T → Result (JoinState F S T)
  unfolding collect_loop join_rows join_test merge
  compute_result fuel s = do
    l ← collect_loop left fuel s.left []
    r ← collect_loop right fuel s.right []
    rows ←
        join_rows (join_test kind condition (merge left.schema right.schema)) kind
          (length left.schema) (length right.schema) l.0 r.0
    ok (record { left = l.1; right = r.1; built = true; rows = rows; cursor = s.cursor })

  unfoldable pub join_next : ℕ → JoinState F S T → Result (Batch F × JoinState F S T)
  unfolding compute_result emit_rows
  join_next fuel s = do
    s' ← if s.built then ok s else compute_result fuel s
    b ← emit_rows schema s'.rows s'.cursor
    ok (b.0, record s' { cursor = b.1 })

  abbrev pub join_op : ℕ → Operator F (JoinState F S T)
  join_op fuel = record { schema = schema; next = join_next fuel }
