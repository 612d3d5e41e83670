-- ===== src/Execution/Operator/Distinct.antt =====
-- src/execution/physical_plan.cpp, Distinct and rowKey: the first row of each key.
pub mod Firsts
pub mod Texts
use lite_query.Prelude.{
  ℕ, Bool, true, false, ◌||◌, if◌then◌else◌, Bytes, codes, bytes_eq, List, [], ◌∷◌, ◌++◌,
  to_string_ℕ,
}
use lite_query.Prelude.Result.{Result, ok, ◌>>=◌}
use lite_query.Types.Floats.{Floats}
use lite_query.Types.TypeId.{type_code}
use lite_query.Types.Value.{Value, Row, is_null, type_id, to_string}
use lite_query.Execution.Operator.{Operator, consume_loop}
use lite_query.Execution.Operator.Buffered.{Buffered, buffered_op, fresh_buffer}

module _ {F : Type 0} ⦃fl : Floats F⦄ where
  -- What a cell adds to the key: "\x01N", or "\x01", the number of the type, ":" and the text.
  unfoldable pub cell_key : Value F → Bytes
  unfolding is_null type_id type_code to_string to_string_ℕ
  cell_key v =
      if is_null v
      then 1 ∷ codes "N"
      else (1 ∷ to_string_ℕ (type_code (type_id v))) ++ (b':' ∷ to_string v)

  unfoldable pub row_key : Row F → Bytes
  unfolding cell_key
  row_key [] = []
  row_key (v ∷ row) = cell_key v ++ row_key row

-- `seen`, a set of keys.
unfoldable pub key_seen : List Bytes → Bytes → Bool
unfolding bytes_eq
key_seen [] k = false
key_seen (s ∷ seen) k = bytes_eq s k || key_seen seen k

-- `seen` and `rows_` while they are built.
pub record Kept (F : Type 0) : Type 0 where
  pub seen : List Bytes
  pub rows : List (Row F)

module _ {F : Type 0} ⦃fl : Floats F⦄ where
  -- `if (seen.emplace(k, true).second) rows_.push_back(std::move(row));`
  unfoldable pub distinct_row : Kept F → Row F → Result (Kept F)
  unfolding row_key key_seen
  distinct_row a row =
      let k = row_key row in
      ok (if key_seen a.seen k then a else record { seen = k ∷ a.seen; rows = a.rows ++ row ∷ [] })

module _ {F S : Type 0} ⦃fl : Floats F⦄ (child : Operator F S) where
  unfoldable pub distinct_build : ℕ → S → Result (List (Row F) × S)
  unfolding consume_loop distinct_row
  distinct_build fuel s = do
    r ← consume_loop child distinct_row fuel s (record { seen = []; rows = [] })
    ok (r.0.rows, r.1)

  -- Distinct, with fuel for the loop over the child.
  abbrev pub distinct_op : ℕ → Operator F (Buffered F S)
  distinct_op fuel = buffered_op child.schema (distinct_build fuel)
