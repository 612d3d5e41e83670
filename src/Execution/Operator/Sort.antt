-- ===== src/Execution/Operator/Sort.antt =====
-- src/execution/physical_plan.cpp, Sort: ORDER BY. The rows of the child are sorted by std::stable_sort
-- with a comparator over the keys. The sort of the standard library is written as insertion from the
-- right; where the comparator is a strict weak ordering, every stable sort has the same result.
pub mod Stable
pub mod Stream
pub mod Integers
use lite_query.Prelude.{
  ℕ, Bool, true, false, not, ◌&&◌, ◌||◌, if◌then◌else◌, Option, none, some, List, [], ◌∷◌,
}
use lite_query.Prelude.Result.{Result, ok, ◌>>=◌}
use lite_query.Types.Floats.{Floats}
use lite_query.Types.Value.{Value, Row, is_null, value_lt}
use lite_query.Types.Schema.{Schema}
use lite_query.Parser.Ast.{Expr, SortOrder, NullsOrder}
use lite_query.Execution.Eval.{evaluate}
use lite_query.Execution.Operator.{Operator, collect_loop}
use lite_query.Execution.Operator.Buffered.{Buffered, buffered_op}

-- Sort::Key
pub record Key (F : Type 0) : Type 0 where
  pub expr : Expr F
  pub order : SortOrder
  pub nulls : NullsOrder

-- `nullsFirst`
unfoldable pub nulls_come_first : NullsOrder → SortOrder → Bool
nulls_come_first NullsOrder.nulls_first order = true
nulls_come_first NullsOrder.nulls_last order = false
nulls_come_first NullsOrder.unspecified SortOrder.asc = true
nulls_come_first NullsOrder.unspecified SortOrder.desc = false

-- `asc ? (cmp < 0) : (cmp > 0)`, by whether `cmp` is -1 or 1.
unfoldable pub by_direction : SortOrder → Bool → Bool
by_direction SortOrder.asc less = less
by_direction SortOrder.desc less = not less

abbrev pub or_later : Option Bool → Result Bool → Result Bool
or_later none later = later
or_later (some b) later = ok b

module _ {F : Type 0} ⦃fl : Floats F⦄ where
  -- What one key decides: `none` goes on to the next key.
  unfoldable pub key_verdict : SortOrder → NullsOrder → Value F → Value F → Result (Option Bool)
  unfolding is_null nulls_come_first by_direction value_lt
  key_verdict order nulls va vb =
      let an = is_null va in
      let bn = is_null vb in
      let first = nulls_come_first nulls order in
      let compared = do
        less ← value_lt va vb
        greater ← value_lt vb va
        ok (
            if less
            then some (by_direction order true)
            else if greater
            then some (by_direction order false)
            else none)
      in if an && bn
        then ok none
        else if an || bn
        then ok (some (if an then first else not first))
        else compared

  -- The comparator.
  unfoldable pub row_less : List (Key F) → Schema → Row F → Row F → Result Bool
  unfolding key_verdict
  row_less [] schema a b = ok false
  row_less (k ∷ keys) schema a b =
      let later = row_less keys schema a b in
      do
        va ← evaluate schema a k.expr
        vb ← evaluate schema b k.expr
        verdict ← key_verdict k.order k.nulls va vb
        or_later verdict later

module _ {ℓ} {A : Type ℓ} (less : A → A → Result Bool) where
  -- A row goes in front of the first one that is not less than it.
  unfoldable pub insert_stable : A → List A → Result (List A)
  insert_stable x [] = ok (x ∷ [])
  insert_stable x (y ∷ ys) =
      let behind = insert_stable x ys in
      do goes_on ← less y x; if goes_on then (do rest ← behind; ok (y ∷ rest)) else ok (x ∷ y ∷ ys)

  -- std::stable_sort
  unfoldable pub stable_sort : List A → Result (List A)
  unfolding insert_stable
  stable_sort [] = ok []
  stable_sort (x ∷ xs) = do sorted ← stable_sort xs; insert_stable x sorted

module _ {F S : Type 0} ⦃fl : Floats F⦄ (child : Operator F S) (keys : List (Key F)) where
  unfoldable pub sort_build : ℕ → S → Result (List (Row F) × S)
  unfolding collect_loop stable_sort row_less
  sort_build fuel s = do
    r ← collect_loop child fuel s []
    sorted ← stable_sort (row_less keys child.schema) r.0
    ok (sorted, r.1)

  -- Sort, with fuel for the loop over the child.
  abbrev pub sort_op : ℕ → Operator F (Buffered F S)
  sort_op fuel = buffered_op child.schema (sort_build fuel)
