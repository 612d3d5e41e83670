-- ===== src/Storage/Table/Torn.antt =====
-- src/storage/table.h, Table::insertRow that throws: what it leaves behind.
use lite_query.Prelude.{◌≡◌, refl, ap, subst, List, [], ◌∷◌, ◌++◌, length, arith}
use lite_query.Prelude.Result.{Result, Fault, ok, err}
use lite_query.Types.Floats.{Floats}
use lite_query.Types.Value.{Value, Row}
use lite_query.Storage.Column.{Column, append}
use lite_query.Storage.Column.Contents.{Stores, AppendedAs, stored_as, append-Stores}
use lite_query.Storage.Table.{Table, Insertion, insert_first, insert_cells, insert_row}
use lite_query.Storage.Table.Rows.{HoldsRows, stored_row, insert_row-HoldsRows}

module _ {F : Type 0} ⦃fl : Floats F⦄ where
  -- Where a column refuses its value, the columns in front of it have taken theirs, and those behind it
  -- are not reached.
  insert_cells-refused :
      (columns : List (Column F)) (row : Row F) (d : Column F) (w : Value F)
      (behind : List (Column F)) (values : Row F) {taken : List (Column F)} {e : Fault}
      → length row ≡ length columns
      → insert_cells columns row ≡ (taken, ok tt)
      → append w d ≡ err e
      → insert_cells (columns ++ d ∷ behind) (row ++ w ∷ values) ≡ (taken ++ d ∷ behind, err e)
  unfolding insert_cells
  insert_cells-refused [] [] d w behind values {e = e} same done refused =
      rw refused (ap (λ (x : Insertion F). (x.0 ++ d ∷ behind, err e)) done)
  insert_cells-refused [] (v ∷ row) d w behind values same done refused = cc
  insert_cells-refused (c ∷ columns) [] d w behind values same done refused = cc
  insert_cells-refused (c ∷ columns) (v ∷ row) d w behind values {e = e} same done refused =
      let (c', rest, kept, others, joined) = first_kept c columns (append v c) _ done in
      let later =
        insert_cells-refused columns row d w behind values {taken = rest} (omega (arith, same))
          others refused in
      rw (kept, later) (ap (λ (x : List (Column F)). (x ++ d ∷ behind, err e)) joined)
    where
      first_kept :
          (c : Column F) (columns : List (Column F)) (o : Result (Column F)) (rest : Insertion F)
          {taken : List (Column F)}
          → insert_first c columns o rest ≡ (taken, ok tt)
          → (c' : Column F) × (left : List (Column F)) × (o ≡ ok c')
            × (rest ≡ (left, ok tt))
            × (c' ∷ left ≡ taken)
      first_kept c columns (ok c') rest h =
          (c', rest.0, refl, ap (λ k. (rest.0, k)) (ap (λ x. x.1) h), ap (λ x. x.0) h)
      first_kept c columns (err e) rest h = cc

  -- What an insertion leaves behind that failed at a column: the columns in front of it hold one row
  -- more, and the column and those behind it are as they were.
  pub record Torn (t : Table F) (before : List (Column F)) (d : Column F) (behind : List (Column F))
      (out : Table F × Result (Unit {0})) (rows : List (Row F)) (e : Fault) : Type 0 where
    pub taken : List (Column F)
    pub done : out ≡ (record t { columns = taken ++ d ∷ behind }, err e)
    pub holds : HoldsRows (record t { columns = taken }) rows

  -- insertRow is not atomic: on a table whose columns in front of `d` hold a list of rows, a row whose
  -- cells these columns can convert and whose cell for `d` it cannot convert makes it throw what the
  -- conversion throws, and leaves the columns in front of `d` a row longer, the others unchanged.
  pub insert_row-Torn :
      (t : Table F) (before : List (Column F)) (d : Column F) (behind : List (Column F))
      (rows : List (Row F)) (ws : List (Value F)) (row row' : Row F) (w : Value F) (values : Row F)
      {e : Fault}
      → t.columns ≡ before ++ d ∷ behind
      → HoldsRows (record t { columns = before }) rows
      → Stores d ws
      → length row ≡ length before
      → stored_row before row ≡ ok row'
      → stored_as d.type w ≡ err e
      → Torn t before d behind (insert_row (row ++ w ∷ values) t) (rows ++ row' ∷ []) e
  unfolding insert_row
  insert_row-Torn t before d behind rows ws row row' w values {e} split h hd wide kept refused =
      let first = insert_row-HoldsRows (record t { columns = before }) rows row row' h kept in
      let two : append w d ≡ err e =
        subst (AppendedAs d ws (append w d)) refused (append-Stores d ws hd w) in
      record {
        taken = first.columns;
        done =
            rw
              (
                split,
                insert_cells-refused before row d w behind values wide
                    (ap (λ x. (x.0.columns, x.1)) first.done) two,
              )
              refl;
        holds = first.holds;
      }
