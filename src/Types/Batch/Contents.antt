-- ===== src/Types/Batch/Contents.antt =====
-- The rows that a batch holds: the columnar layout behaves as a list of rows.
use lite_query.Prelude.{
  ℕ, zero, suc, ◌+◌, ◌≡◌, refl, ap, sym, ◌∙◌, arith, some, List, [], ◌∷◌, ◌++◌, length, get_elem?,
  replicate, length-append, drop,
}
use lite_query.Prelude.Result.{Result, ok, ◌>>=◌, >>=-eq-ok, >>=-congr, ok-injective, map_result}
use lite_query.Types.Value.{Value, Row}
use lite_query.Types.Schema.{Schema}
use lite_query.Types.Batch.{
  Batch, batch, append_cells, append_row, cell, get_row, rows_from, for_each_row,
}

length-replicate_nil {ℓ} : (A : Type ℓ) (n : ℕ) → length (replicate {A = List A} n []) ≡ n
length-replicate_nil A zero = refl
length-replicate_nil A (suc n) = ap suc (length-replicate_nil A n)

module _ {F : Type 0} where
  -- A row in front of every column.
  abbrev pub zip_cons : Row F → List (List (Value F)) → List (List (Value F))
  zip_cons [] cols = []
  zip_cons (v ∷ row) [] = []
  zip_cons (v ∷ row) (col ∷ cols) = (v ∷ col) ∷ zip_cons row cols

  -- The columns of a list of rows of `n` cells.
  abbrev pub columns_of : ℕ → List (Row F) → List (List (Value F))
  columns_of n [] = replicate n []
  columns_of n (row ∷ rows) = zip_cons row (columns_of n rows)

  abbrev pub Widths : ℕ → List (Row F) → Type 0
  Widths n [] = Unit {0}
  Widths n (row ∷ rows) = (length row ≡ n) × Widths n rows

  -- The batch has this schema and holds exactly these rows, in order.
  pub record Holds (b : Batch F) (s : Schema) (rows : List (Row F)) : Type 0 where
    pub schema : b.schema ≡ s
    pub columns : b.columns ≡ columns_of (length s) rows
    pub count : b.num_rows ≡ length rows
    pub widths : Widths (length s) rows

  pub Widths-append :
      (n : ℕ) (xs ys : List (Row F)) → Widths n xs → Widths n ys → Widths n (xs ++ ys)
  Widths-append n [] ys p q = q
  Widths-append n (x ∷ xs) ys p q = (p.0, Widths-append n xs ys p.1 q)

  pub Holds-batch : (s : Schema) → Holds (batch s) s []
  unfolding batch
  Holds-batch s = record { schema = refl; columns = refl; count = refl; widths = tt }

  pub length-zip_cons :
      (row : Row F) (cols : List (List (Value F)))
      → length row ≡ length cols
      → length (zip_cons row cols) ≡ length cols
  length-zip_cons [] cols h = h
  length-zip_cons (v ∷ row) [] h = refl
  length-zip_cons (v ∷ row) (col ∷ cols) h = ap suc (length-zip_cons row cols (omega arith))

  pub length-columns_of :
      (n : ℕ) (rows : List (Row F)) → Widths n rows → length (columns_of n rows) ≡ n
  length-columns_of n [] w = length-replicate_nil (Value F) n
  length-columns_of n (row ∷ rows) w =
      length-zip_cons row (columns_of n rows) (w.0 ∙ sym (length-columns_of n rows w.1))
      ∙ length-columns_of n rows w.1

  append_cells-nil :
      (n : ℕ) (row : Row F)
      → length row ≡ n
      → append_cells (replicate n []) row ≡ ok (zip_cons row (replicate n []))
  unfolding append_cells
  append_cells-nil zero [] h = refl
  append_cells-nil zero (v ∷ row) h = absurd (omega arith)
  append_cells-nil (suc n) [] h = absurd (omega arith)
  append_cells-nil (suc n) (v ∷ row) h = rw (append_cells-nil n row (omega arith))

  append_cells-zip_cons :
      (first row : Row F) (cols out : List (List (Value F)))
      → length first ≡ length cols
      → append_cells cols row ≡ ok out
      → append_cells (zip_cons first cols) row ≡ ok (zip_cons first out)
  unfolding append_cells
  append_cells-zip_cons [] row cols out l h = refl
  append_cells-zip_cons (f ∷ first) row [] out l h = absurd (omega arith)
  append_cells-zip_cons (f ∷ first) [] (col ∷ cols) out l h = cc
  append_cells-zip_cons (f ∷ first) (v ∷ row) (col ∷ cols) out l h =
      let (rest, e, k) = >>=-eq-ok (append_cells cols row) _ h in
      rw (append_cells-zip_cons first row cols rest (omega arith) e, ← ok-injective k)

  pub append_cells-columns_of :
      (n : ℕ) (rows : List (Row F)) (row : Row F)
      → Widths n rows
      → length row ≡ n
      → append_cells (columns_of n rows) row ≡ ok (columns_of n (rows ++ row ∷ []))
  append_cells-columns_of n [] row w h = append_cells-nil n row h
  append_cells-columns_of n (first ∷ rows) row w h =
      append_cells-zip_cons first row (columns_of n rows) (columns_of n (rows ++ row ∷ []))
        (w.0 ∙ sym (length-columns_of n rows w.1)) (append_cells-columns_of n rows row w.1 h)

  -- What appendRow makes of a batch.
  abbrev pub extended : Batch F → Schema → List (Row F) → Batch F
  extended b s rows = record b { columns = columns_of (length s) rows; num_rows = b.num_rows + 1 }

  -- appendRow on a batch that holds a list of rows adds a row as wide as the schema behind them.
  pub append_row-Holds :
      {b : Batch F} {s : Schema} (rows : List (Row F)) (row : Row F)
      → Holds b s rows
      → length row ≡ length s
      → (append_row b row ≡ ok (extended b s (rows ++ row ∷ [])))
        × Holds (extended b s (rows ++ row ∷ [])) s (rows ++ row ∷ [])
  unfolding append_row
  append_row-Holds {b} {s} rows row h l = (
    rw (h.columns, append_cells-columns_of (length s) rows row h.widths l),
    record {
      schema = h.schema;
      columns = refl;
      count = omega (arith, h.count, length-append {0} rows (row ∷ []));
      widths = Widths-append (length s) rows (row ∷ []) h.widths (l, tt);
    },
  )

  cells-zero :
      (row : Row F) (cols : List (List (Value F)))
      → length row ≡ length cols
      → map_result (cell 0) (zip_cons row cols) ≡ ok row
  cells-zero [] cols h = refl
  cells-zero (v ∷ row) [] h = absurd (omega arith)
  cells-zero (v ∷ row) (col ∷ cols) h = rw (cells-zero row cols (omega arith))

  cells-suc :
      (r : ℕ) (row : Row F) (cols : List (List (Value F)))
      → length row ≡ length cols
      → map_result (cell (suc r)) (zip_cons row cols) ≡ map_result (cell r) cols
  cells-suc r [] [] h = refl
  cells-suc r [] (col ∷ cols) h = absurd (omega arith)
  cells-suc r (v ∷ row) [] h = absurd (omega arith)
  cells-suc r (v ∷ row) (col ∷ cols) h = rw (cells-suc r row cols (omega arith))

  pub cells-columns_of :
      (n r : ℕ) (rows : List (Row F)) {row : Row F}
      → Widths n rows
      → get_elem? rows r ≡ some row
      → map_result (cell r) (columns_of n rows) ≡ ok row
  cells-columns_of n r [] w h = cc
  cells-columns_of n zero (first ∷ rows) w h =
      cells-zero first (columns_of n rows) (w.0 ∙ sym (length-columns_of n rows w.1)) ∙ cc
  cells-columns_of n (suc r) (first ∷ rows) w h =
      cells-suc r first (columns_of n rows) (w.0 ∙ sym (length-columns_of n rows w.1))
      ∙ cells-columns_of n r rows w.1 h

  -- On a batch that holds a list of rows getRow reads the row of that number, where there is one.
  pub get_row-Holds :
      {b : Batch F} {s : Schema} (rows : List (Row F)) (r : ℕ) {row : Row F}
      → Holds b s rows
      → get_elem? rows r ≡ some row
      → get_row b r ≡ ok row
  unfolding get_row
  get_row-Holds {s} rows r h e = rw h.columns (cells-columns_of (length s) r rows h.widths e)

-- The element at the head of what is left.
pub get_elem?-drop {ℓ} :
    {A : Type ℓ} (rows : List A) (r : ℕ) {row : A} {rest : List A}
    → drop r rows ≡ row ∷ rest
    → (get_elem? rows r ≡ some row) × (drop (suc r) rows ≡ rest)
get_elem?-drop [] zero h = cc
get_elem?-drop [] (suc r) h = cc
get_elem?-drop (x ∷ rows) zero h = (cc, cc)
get_elem?-drop (x ∷ rows) (suc r) h = get_elem?-drop rows r h

-- A loop over the rows of a batch, as a fold over the list of rows.
abbrev pub fold_result {ℓ κ} :
    {A : Type ℓ} {B : Type κ} → (A → B → Result A) → A → List B → Result A
fold_result f a [] = ok a
fold_result f a (x ∷ xs) = do a' ← f a x; fold_result f a' xs

module _ {ℓ} {F : Type 0} {A : Type ℓ} (body : A → Row F → Result A) where
  rows_from-Holds :
      {b : Batch F} {s : Schema} (rows todo : List (Row F)) (r : ℕ) (a : A)
      → Holds b s rows
      → drop r rows ≡ todo
      → rows_from b body (length todo) r a ≡ fold_result body a todo
  unfolding rows_from
  rows_from-Holds rows [] r a h e = refl
  rows_from-Holds {b} rows (row ∷ todo) r a h e =
      rw (get_row-Holds rows r h (get_elem?-drop rows r e).0) (
        >>=-congr (body a row)
          λ a'. rows_from-Holds {b = b} rows todo (suc r) a' h (get_elem?-drop rows r e).1)

  -- The loop over the rows of a batch that holds a list of rows runs over that list.
  pub for_each_row-Holds :
      {b : Batch F} {s : Schema} (rows : List (Row F)) (a : A)
      → Holds b s rows
      → for_each_row b body a ≡ fold_result body a rows
  unfolding for_each_row
  for_each_row-Holds rows a h = rw h.count (rows_from-Holds rows rows 0 a h refl)
