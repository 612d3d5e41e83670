-- ===== src/Storage/Table/Rows.antt =====
-- src/storage/table.h, Table: a table behaves as a list of rows.
use lite_query.Prelude.{
  ℕ, suc, ◌≡◌, refl, sym, ap, ◌∙◌, subst, Option, none, some, List, [], ◌∷◌, ◌++◌, length,
  get_elem?,
}
use lite_query.Prelude.Result.{
  Result, ok, err, undefined, ◌>>=◌, >>=-eq-ok, ok-injective, map_result,
}
use lite_query.Types.Floats.{Floats}
use lite_query.Types.Value.{Value, Row}
use lite_query.Types.Batch.{append_cells, cell, or_undefined}
use lite_query.Types.Batch.Contents.{
  Widths, Widths-append, columns_of, append_cells-columns_of, cells-columns_of,
}
use lite_query.Storage.Column.{Column, append, value_at}
use lite_query.Storage.Column.Contents.{
  Stores, Appended, AppendedAs, stored_as, append-Stores, value_at-Stores,
}
use lite_query.Storage.Table.{Table, table_row, Insertion, insert_cells, insert_row}

module _ {F : Type 0} where
  abbrev pub StoresAll : List (Column F) → List (List (Value F)) → Type 0
  StoresAll [] [] = Unit {0}
  StoresAll (c ∷ columns) (values ∷ contents) = Stores c values × StoresAll columns contents
  StoresAll _ _ = ⊥

  -- The table holds exactly these rows, in order.
  pub record HoldsRows (t : Table F) (rows : List (Row F)) : Type 0 where
    pub columns : StoresAll t.columns (columns_of (length t.columns) rows)
    pub widths : Widths (length t.columns) rows

  found : (o : Option (Value F)) {v : Value F} → or_undefined o ≡ ok v → o ≡ some v
  found none h = cc
  found (some w) h = ap some (ok-injective h)

  value_at-StoresAll :
      (columns : List (Column F)) (contents : List (List (Value F))) (r : ℕ) (row : Row F)
      → StoresAll columns contents
      → map_result (cell r) contents ≡ ok row
      → map_result (λ c. value_at c r) columns ≡ ok row
  value_at-StoresAll [] [] r row h e = e
  value_at-StoresAll [] (values ∷ contents) r row h e = absurd h
  value_at-StoresAll (c ∷ columns) [] r row h e = absurd h
  value_at-StoresAll (c ∷ columns) (values ∷ contents) r row h e =
      let (v, first, k) = >>=-eq-ok (cell r values) _ e in
      let (rest, others, k') = >>=-eq-ok (map_result (cell r) contents) _ k in
      rw
        (
          value_at-Stores c values r v h.0 (found (get_elem? values r) first),
          value_at-StoresAll columns contents r rest h.1 others,
        )
        k'

  -- getRow on a table that holds a list of rows reads the row of that number, where there is one.
  pub table_row-HoldsRows :
      (t : Table F) (rows : List (Row F)) (r : ℕ) {row : Row F}
      → HoldsRows t rows
      → get_elem? rows r ≡ some row
      → table_row t r ≡ ok row
  unfolding table_row
  table_row-HoldsRows t rows r {row} h e =
      value_at-StoresAll t.columns (columns_of (length t.columns) rows) r row h.columns
        (cells-columns_of (length t.columns) r rows h.widths e)

module _ {F : Type 0} ⦃fl : Floats F⦄ where
  -- What the columns make of a row.
  unfoldable pub stored_row : List (Column F) → Row F → Result (Row F)
  unfolding stored_as
  stored_row [] row = ok []
  stored_row (c ∷ columns) [] = err undefined
  stored_row (c ∷ columns) (v ∷ row) = do
    w ← stored_as c.type v
    ws ← stored_row columns row
    ok (w ∷ ws)

  record Inserted (columns : List (Column F)) (out : Insertion F) (contents : List (List (Value F)))
      : Type 0 where
    pub result : List (Column F)
    pub done : out ≡ (result, ok tt)
    pub same : length result ≡ length columns
    pub stores : StoresAll result contents

  insert_cells-StoresAll :
      (columns : List (Column F)) (contents : List (List (Value F))) (row row' : Row F)
      (contents' : List (List (Value F)))
      → StoresAll columns contents
      → stored_row columns row ≡ ok row'
      → append_cells contents row' ≡ ok contents'
      → Inserted columns (insert_cells columns row) contents'
  unfolding stored_row append_cells insert_cells
  insert_cells-StoresAll [] [] row row' contents' h e a =
      subst (Inserted [] (insert_cells [] row)) (ok-injective a)
        (record { result = []; done = refl; same = refl; stores = tt })
  insert_cells-StoresAll [] (values ∷ contents) row row' contents' h e a = absurd h
  insert_cells-StoresAll (c ∷ columns) [] row row' contents' h e a = absurd h
  insert_cells-StoresAll (c ∷ columns) (values ∷ contents) [] row' contents' h e a = cc
  insert_cells-StoresAll (c ∷ columns) (values ∷ contents) (v ∷ row) row' contents' h e a =
      let (w, first, k) = >>=-eq-ok (stored_as c.type v) _ e in
      let (ws, others, k') = >>=-eq-ok (stored_row columns row) _ k in
      let a' =
        subst (λ r. append_cells (values ∷ contents) r ≡ ok contents') (sym (ok-injective k')) a in
      let (rest, more, k'') = >>=-eq-ok (append_cells contents ws) _ a' in
      let one : Appended c (append v c) (values ++ w ∷ []) =
        subst (AppendedAs c values (append v c)) first (append-Stores c values h.0 v) in
      let ih = insert_cells-StoresAll columns contents row ws rest h.1 others more in
      subst (Inserted (c ∷ columns) (insert_cells (c ∷ columns) (v ∷ row))) (ok-injective k'')
        (record {
          result = one.result ∷ ih.result;
          done = rw (one.done, ih.done) refl;
          same = ap suc ih.same;
          stores = (one.stores, ih.stores);
        })

  length-stored_row :
      (columns : List (Column F)) (row row' : Row F)
      → stored_row columns row ≡ ok row'
      → length row' ≡ length columns
  unfolding stored_row
  length-stored_row [] row row' e = ap length (sym (ok-injective e))
  length-stored_row (c ∷ columns) [] row' e = cc
  length-stored_row (c ∷ columns) (v ∷ row) row' e =
      let (w, first, k) = >>=-eq-ok (stored_as c.type v) _ e in
      let (ws, others, k') = >>=-eq-ok (stored_row columns row) _ k in
      ap length (sym (ok-injective k')) ∙ ap suc (length-stored_row columns row ws others)

  -- The outcome of an insertion: a table of the same name and schema that holds these rows.
  pub record InsertedRow (t : Table F) (out : Table F × Result (Unit {0})) (rows : List (Row F))
      : Type 0 where
    pub columns : List (Column F)
    pub done : out ≡ (record t { columns = columns }, ok tt)
    pub holds : HoldsRows (record t { columns = columns }) rows

  -- insertRow on a table that holds a list of rows, of a row that every column can convert, adds the
  -- converted row behind them.
  pub insert_row-HoldsRows :
      (t : Table F) (rows : List (Row F)) (row row' : Row F)
      → HoldsRows t rows
      → stored_row t.columns row ≡ ok row'
      → InsertedRow t (insert_row row t) (rows ++ row' ∷ [])
  unfolding insert_row
  insert_row-HoldsRows t rows row row' h e =
      let n = length t.columns in
      let wide = length-stored_row t.columns row row' e in
      let ins =
        insert_cells-StoresAll t.columns (columns_of n rows) row row'
          (columns_of n (rows ++ row' ∷ [])) h.columns e
          (append_cells-columns_of n rows row' h.widths wide) in
      record {
        columns = ins.result;
        done = rw ins.done refl;
        holds = record {
          columns = rw ins.same ins.stores;
          widths = rw ins.same (Widths-append n rows (row' ∷ []) h.widths (wide, tt));
        };
      }
