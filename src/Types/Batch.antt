-- ===== src/Types/Batch.antt =====
-- include/litequery/types.h, Batch: a columnar slice that the operators hand to one another. The
-- asserts are those of a release build, which drops them.
pub mod Contents
use lite_query.Prelude.{
  ℕ, zero, suc, ◌+◌, Bool, ◌==◌, Option, none, some, List, [], ◌∷◌, ◌++◌, length, get_elem?,
  replicate,
}
use lite_query.Prelude.Result.{Result, ok, err, undefined, ◌>>=◌, map_result}
use lite_query.Types.Value.{Value, Row}
use lite_query.Types.Schema.{Schema}

abbrev pub default_batch_size : ℕ
default_batch_size = 1024

-- `columns` is by column, then by row.
pub record Batch (F : Type 0) : Type 0 where
  pub schema : Schema
  pub columns : List (List (Value F))
  pub num_rows : ℕ

module _ {F : Type 0} where
  -- Batch(Schema)
  unfoldable pub batch : Schema → Batch F
  batch s = record { schema = s; columns = replicate (length s) []; num_rows = 0 }

  -- empty()
  unfoldable pub is_empty : Batch F → Bool
  is_empty b = b.num_rows == 0

  -- `columns[c].push_back(row[c])` for each column; a row that is too short is read out of range.
  unfoldable pub append_cells : List (List (Value F)) → Row F → Result (List (List (Value F)))
  append_cells [] row = ok []
  append_cells (col ∷ cols) [] = err undefined
  append_cells (col ∷ cols) (v ∷ row) = do rest ← append_cells cols row; ok ((col ++ v ∷ []) ∷ rest)

  unfoldable pub append_row : Batch F → Row F → Result (Batch F)
  unfolding append_cells
  append_row b row = do
    columns ← append_cells b.columns row
    ok (record b { columns = columns; num_rows = b.num_rows + 1 })

  abbrev pub or_undefined : Option (Value F) → Result (Value F)
  or_undefined none = err undefined
  or_undefined (some v) = ok v

  -- `col[row]`
  abbrev pub cell : ℕ → List (Value F) → Result (Value F)
  cell row col = or_undefined (get_elem? col row)

  unfoldable pub get_row : Batch F → ℕ → Result (Row F)
  get_row b row = map_result (cell row) b.columns

-- `for (size_t r = 0; r < in.numRows; ++r) { Row row = in.getRow(r); ... }`: `n` rounds are left.
unfoldable pub rows_from {ℓ} :
    {F : Type 0} {A : Type ℓ} → Batch F → (A → Row F → Result A) → ℕ → ℕ → A → Result A
unfolding get_row
rows_from b body zero r a = ok a
rows_from b body (suc n) r a = do row ← get_row b r; a' ← body a row; rows_from b body n (suc r) a'

unfoldable pub for_each_row {ℓ} :
    {F : Type 0} {A : Type ℓ} → Batch F → (A → Row F → Result A) → A → Result A
unfolding rows_from
for_each_row b body a = rows_from b body b.num_rows 0 a
