-- ===== src/Execution/Operator/Scan/Rows.antt =====
-- src/execution/physical_plan.cpp, SeqScan: it produces the rows that the table holds.
use lite_query.Prelude.{
  ℕ, zero, suc, ◌+◌, ◌-◌, ◌≤◌, ◌<◌, min, leb, ◌≡◌, refl, sym, ap, ap₂, ◌∙◌, arith, true, false,
  List, [], ◌∷◌, ◌++◌, map, length, length-map, take, drop, drop-nil, replicate, append_assoc,
  append-nil, length-take, length-drop,
}
use lite_query.Prelude.Result.{ok}
use lite_query.Types.Value.{Value, Row}
use lite_query.Types.Schema.{Schema}
use lite_query.Types.Batch.{Batch, batch, default_batch_size}
use lite_query.Types.Batch.Contents.{
  Widths, columns_of, zip_cons, length-columns_of, get_elem?-drop,
}
use lite_query.Storage.Column.{Column}
use lite_query.Storage.Column.Contents.{Stores, has_value, value_at-Stores}
use lite_query.Storage.Table.{size_of_first, Table, row_count}
use lite_query.Storage.Table.Rows.{StoresAll, HoldsRows}
use lite_query.Execution.Operator.Stream.{Yields}
use lite_query.Execution.Operator.Chunk.{ChunkOf, cursor-Yields, Widths-drop}
use lite_query.Execution.Operator.Scan.{scan_cells, scan_columns, scan_next, scan_op}

-- Every column is as long as the list of rows.
abbrev AllLong {ℓ} : {A : Type ℓ} → ℕ → List (List A) → Type 0
AllLong n [] = Unit {0}
AllLong n (col ∷ cols) = (length col ≡ n) × AllLong n cols

empty-AllLong {ℓ} : (A : Type ℓ) (k : ℕ) → AllLong 0 (replicate {A = List A} k [])
empty-AllLong A zero = tt
empty-AllLong A (suc k) = (refl, empty-AllLong A k)

module _ {F : Type 0} where
  -- Slices of the columns are the columns of the slice.
  drop-zip_cons :
      (c : ℕ) (row : Row F) (cols : List (List (Value F)))
      → length row ≡ length cols
      → map (drop (suc c)) (zip_cons row cols) ≡ map (drop c) cols
  drop-zip_cons c [] [] e = refl
  drop-zip_cons c [] (col ∷ cols) e = absurd (omega arith)
  drop-zip_cons c (v ∷ row) [] e = absurd (omega arith)
  drop-zip_cons c (v ∷ row) (col ∷ cols) e =
      ap (λ l. drop c col ∷ l) (drop-zip_cons c row cols (omega arith))

  take-zip_cons :
      (n : ℕ) (row : Row F) (cols : List (List (Value F)))
      → length row ≡ length cols
      → map (take (suc n)) (zip_cons row cols) ≡ zip_cons row (map (take n) cols)
  take-zip_cons n [] [] e = refl
  take-zip_cons n [] (col ∷ cols) e = absurd (omega arith)
  take-zip_cons n (v ∷ row) [] e = absurd (omega arith)
  take-zip_cons n (v ∷ row) (col ∷ cols) e =
      ap (λ l. (v ∷ take n col) ∷ l) (take-zip_cons n row cols (omega arith))

  drop_zero : (cols : List (List (Value F))) → map (drop 0) cols ≡ cols
  drop_zero [] = refl
  drop_zero (col ∷ cols) = ap (λ l. col ∷ l) (drop_zero cols)

  drop_empty : (c k : ℕ) → map (drop c) (replicate k []) ≡ replicate {A = List (Value F)} k []
  drop_empty c zero = refl
  drop_empty c (suc k) = ap₂ (λ x l. x ∷ l) (drop-nil c) (drop_empty c k)

  take_zero :
      (k : ℕ) (cols : List (List (Value F))) → length cols ≡ k → map (take 0) cols ≡ replicate k []
  take_zero zero [] e = refl
  take_zero zero (col ∷ cols) e = absurd (omega arith)
  take_zero (suc k) [] e = absurd (omega arith)
  take_zero (suc k) (col ∷ cols) e = ap (λ l. [] ∷ l) (take_zero k cols (omega arith))

  take_empty : (n k : ℕ) → map (take (suc n)) (replicate k []) ≡ replicate {A = List (Value F)} k []
  take_empty n zero = refl
  take_empty n (suc k) = ap (λ l. [] ∷ l) (take_empty n k)

  drop-columns_of :
      (k c : ℕ) (rows : List (Row F))
      → Widths k rows
      → map (drop c) (columns_of k rows) ≡ columns_of k (drop c rows)
  drop-columns_of k zero rows w = drop_zero (columns_of k rows)
  drop-columns_of k (suc c) [] w = drop_empty (suc c) k
  drop-columns_of k (suc c) (row ∷ rows) w =
      drop-zip_cons c row (columns_of k rows) (w.0 ∙ sym (length-columns_of k rows w.1))
      ∙ drop-columns_of k c rows w.1

  take-columns_of :
      (k n : ℕ) (rows : List (Row F))
      → Widths k rows
      → map (take n) (columns_of k rows) ≡ columns_of k (take n rows)
  take-columns_of k zero rows w = take_zero k (columns_of k rows) (length-columns_of k rows w)
  take-columns_of k (suc n) [] w = take_empty n k
  take-columns_of k (suc n) (row ∷ rows) w =
      take-zip_cons n row (columns_of k rows) (w.0 ∙ sym (length-columns_of k rows w.1))
      ∙ ap (zip_cons row) (take-columns_of k n rows w.1)

  zip_cons-AllLong :
      (n : ℕ) (row : Row F) (cols : List (List (Value F)))
      → AllLong n cols
      → AllLong (suc n) (zip_cons row cols)
  zip_cons-AllLong n [] cols h = tt
  zip_cons-AllLong n (v ∷ row) [] h = tt
  zip_cons-AllLong n (v ∷ row) (col ∷ cols) h = (ap suc h.0, zip_cons-AllLong n row cols h.1)

  columns_of-AllLong : (k : ℕ) (rows : List (Row F)) → AllLong (length rows) (columns_of k rows)
  columns_of-AllLong k [] = empty-AllLong (Value F) k
  columns_of-AllLong k (row ∷ rows) =
      zip_cons-AllLong (length rows) row (columns_of k rows) (columns_of-AllLong k rows)

  scan_cells-Stores :
      (col : Column F) (values todo : List (Value F)) (n r : ℕ) (out : List (Value F))
      → Stores col values
      → drop r values ≡ todo
      → n ≤ length todo
      → scan_cells col n r out ≡ ok (out ++ take n todo)
  unfolding scan_cells
  scan_cells-Stores col values todo zero r out h e le = rw append-nil refl
  scan_cells-Stores col values [] (suc n) r out h e le = absurd (omega arith)
  scan_cells-Stores col values (v ∷ todo) (suc n) r out h e le =
      let (at, next) = get_elem?-drop values r e in
      rw
        (
          value_at-Stores col values r v h at,
          scan_cells-Stores col values todo n (suc r) (out ++ v ∷ []) h next (omega arith),
        )
        (ap ok (append_assoc out (v ∷ []) (take n todo)))

  scan_columns-StoresAll :
      (columns : List (Column F)) (contents : List (List (Value F))) (total n cursor : ℕ)
      → StoresAll columns contents
      → AllLong total contents
      → n + cursor ≤ total
      → scan_columns n cursor columns (replicate (length columns) [])
        ≡ ok (map (take n) (map (drop cursor) contents))
  unfolding scan_columns
  scan_columns-StoresAll [] [] total n cursor h a le = refl
  scan_columns-StoresAll [] (values ∷ contents) total n cursor h a le = absurd h
  scan_columns-StoresAll (c ∷ columns) [] total n cursor h a le = absurd h
  scan_columns-StoresAll (c ∷ columns) (values ∷ contents) total n cursor h a le =
      rw
        (
          scan_cells-Stores c values (drop cursor values) n cursor [] h.0 refl
              (omega (arith, length-drop {0} cursor values, a.0)),
          scan_columns-StoresAll columns contents total n cursor h.1 a.1 le,
        )
        refl

  size-StoresAll :
      (columns : List (Column F)) (contents : List (List (Value F))) (n : ℕ)
      → StoresAll columns contents
      → AllLong n contents
      → 0 < length columns
      → size_of_first columns ≡ n
  size-StoresAll [] contents n h a p = absurd (omega arith)
  size-StoresAll (c ∷ columns) [] n h a p = absurd h
  size-StoresAll (c ∷ columns) (values ∷ contents) n h a p =
      h.0.flags.count ∙ length-map values has_value ∙ a.0

  module _ (t : Table F) (schema : Schema) (rows : List (Row F)) (h : HoldsRows t rows)
      (wide : length schema ≡ length t.columns) (some_column : 0 < length t.columns) where
    total-rows : row_count t ≡ length rows
    unfolding row_count
    total-rows =
        size-StoresAll t.columns (columns_of (length t.columns) rows) (length rows) h.columns
          (columns_of-AllLong (length t.columns) rows) some_column

    take-Widths : (k n : ℕ) (l : List (Row F)) → Widths k l → Widths k (take n l)
    take-Widths k zero l w = tt
    take-Widths k (suc n) [] w = tt
    take-Widths k (suc n) (row ∷ l) w = (w.0, take-Widths k n l w.1)

    slice-scan :
        (n cursor : ℕ)
        → n + cursor ≤ length rows
        → scan_columns n cursor t.columns (replicate (length schema) [])
          ≡ ok (columns_of (length schema) (take n (drop cursor rows)))
    slice-scan n cursor le =
        let k = length t.columns in
        rw
          (
            wide,
            scan_columns-StoresAll t.columns (columns_of k rows) (length rows) n cursor h.columns
                (columns_of-AllLong k rows) le,
          )
          (ap ok (
            ap (map (take n)) (drop-columns_of k cursor rows h.widths)
            ∙ take-columns_of k n (drop cursor rows) (Widths-drop k rows cursor h.widths)))

    scan-ChunkOf : (cursor : ℕ) → ChunkOf schema rows cursor (scan_next t schema cursor)
    unfolding scan_next batch
    scan-ChunkOf cursor = record {
      at_end = λ le.
          let stop : leb (length rows) cursor ≡ true = ground arith in
          (batch schema, rw (total-rows, stop) refl, refl);
      inside = λ before.
          let go : leb (length rows) cursor ≡ false = ground arith in
          let d : ℕ = min (cursor + default_batch_size) (length rows) - cursor in
          let slice = take d (drop cursor rows) in
          let b : Batch F = record {
            schema = schema;
            columns = columns_of (length schema) slice;
            num_rows = d;
          } in
          (
            b,
            rw (total-rows, go, slice-scan d cursor (omega arith)) refl,
            record {
              schema = refl;
              columns = refl;
              count =
                  omega (arith, length-take {0} d (drop cursor rows), length-drop {0} cursor rows);
              widths = rw wide (
                  take-Widths (length t.columns) d (drop cursor rows)
                    (Widths-drop (length t.columns) rows cursor h.widths));
            },
          );
    }

    -- SeqScan over a table that holds a list of rows, with an output schema as wide as the table, which
    -- has a column at least, produces those rows, in order.
    pub scan-Yields : Yields (scan_op t schema) 0 rows
    scan-Yields = cursor-Yields (scan_op t schema) rows scan-ChunkOf
