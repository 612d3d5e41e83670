-- ===== src/Tests/Plans.antt =====
-- The theorems on SeqScan, Sort, Distinct and HashAggregate, over small inputs.
use lite_query.Execution.Operator.Distinct.Texts.{row_key-texts, IsFreeCell}
use lite_query.Prelude.{
  ◌≢◌, bytes_eq, suc, ℕ, ◌≡◌, refl, arith, some, Option, none, Bool, true, List, [], ◌∷◌, ◌++◌,
  filter, codes, Bytes, All,
}
use lite_query.Prelude.Int.{ℤ, pos}
use lite_query.Prelude.Result.{ok}
use lite_query.Types.TypeId.{TypeId}
use lite_query.Types.DataType.{plain}
use lite_query.Types.Value.{Row, null, int64}
use lite_query.Types.Schema.{index_of}
use lite_query.Types.Batch.Contents.{fold_result}
use lite_query.Parser.Ast.{SortOrder, NullsOrder}
use lite_query.Execution.Eval.{evaluate}
use lite_query.Execution.Operator.Stream.{Yields}
use lite_query.Execution.Operator.Buffered.{fresh_buffer}
use lite_query.Execution.Operator.Chunk.{values_op, values-Yields}
use lite_query.Execution.Operator.Scan.{scan_op}
use lite_query.Execution.Operator.Scan.Rows.{scan-Yields}
use lite_query.Execution.Operator.Distinct.{row_key, distinct_op, distinct_build}
use lite_query.Execution.Operator.Distinct.Firsts.{
  firsts, distinct-Yields, row_key_collision, two_texts, between_texts,
}
use lite_query.Execution.Operator.Sort.{Key, row_less}
use lite_query.Execution.Operator.Sort.Stable.{Ordering}
use lite_query.Execution.Operator.Sort.Integers.{null_least, asked, key_value, integer_key-Ordering}
use lite_query.Execution.Operator.Sort.Stream.{ProducesSorted, sort-ProducesSorted}
use lite_query.Execution.Operator.Aggregate.{
  Agg, Cell, update_cells, new_cells, aggregate_schema, aggregate_build, aggregate_op,
}
use lite_query.Execution.Operator.Aggregate.Groups.{HaveKeys, Finals}
use lite_query.Execution.Operator.Aggregate.Stream.{grouped, aggregate-Yields}
use lite_query.Tests.Samples.{whole_floats, number, one_column, n_column}
use lite_query.Tests.Storage.{empty_table, inserted}

abbrev one_number : List (Row ℤ)
one_number = (number 1 ∷ []) ∷ []

scan-Yields_example :
    Yields (scan_op (record empty_table { columns = inserted.columns }) one_column) 0 one_number
scan-Yields_example =
    scan-Yields (record empty_table { columns = inserted.columns }) one_column one_number
      inserted.holds inserted.holds.widths.0 (omega (arith, inserted.holds.widths.0))

-- 2, 1, 2 and NULL.
abbrev repeated : List (Row ℤ)
repeated = (number 2 ∷ []) ∷ (number 1 ∷ []) ∷ (number 2 ∷ []) ∷ (null ∷ []) ∷ []

repeated-Yields : Yields (values_op one_column repeated) 0 repeated
repeated-Yields = values-Yields one_column repeated (refl, (refl, (refl, (refl, tt))))

distinct-Yields_example :
    Yields
      (distinct_op (values_op one_column repeated) 5)
      (fresh_buffer one_column (distinct_build (values_op one_column repeated) 5) 0)
      (firsts row_key repeated)
distinct-Yields_example =
    distinct-Yields (values_op one_column repeated) 5 repeated-Yields (omega arith)

row_key_collision_example :
    (two_texts {F = ℤ} (codes "a" ++ (between_texts ++ codes "b")) (codes "c")
      ≢ two_texts (codes "a") (codes "b" ++ (between_texts ++ codes "c")))
    × (row_key {F = ℤ} (two_texts (codes "a" ++ (between_texts ++ codes "b")) (codes "c"))
        ≡ row_key {F = ℤ} (two_texts (codes "a") (codes "b" ++ (between_texts ++ codes "c"))))
row_key_collision_example = row_key_collision ℤ (codes "a") (codes "b") (codes "c")

-- Two rows with the same key: the text a beside a NULL, the one spelled out.
abbrev text_and_null : List (Option Bytes)
text_and_null = some (codes "a") ∷ none ∷ []

text_and_null-IsFree : All IsFreeCell text_and_null
text_and_null-IsFree = (((λ h. omega (arith, h)), tt), (tt, tt))

row_key-texts_example : text_and_null ≡ some (b'a' ∷ []) ∷ none ∷ []
row_key-texts_example =
    row_key-texts ℤ text_and_null (some (b'a' ∷ []) ∷ none ∷ []) text_and_null-IsFree
      text_and_null-IsFree refl

-- ORDER BY n DESC, with the NULLs at the end.
abbrev by_n : Key ℤ
by_n = record { expr = n_column; order = SortOrder.desc; nulls = NullsOrder.unspecified }

abbrev n_of : Row ℤ → Option ℤ
n_of (int64 n ∷ row) = some n
n_of _ = none

abbrev n_before : Row ℤ → Row ℤ → Bool
unfolding asked null_least
n_before a b = asked NullsOrder.unspecified SortOrder.desc (n_of a) (n_of b)

abbrev HasN : Row ℤ → Type 0
unfolding evaluate
HasN row = evaluate one_column row n_column ≡ ok (key_value (n_of row))

integer_key-Ordering_example : Ordering HasN (row_less (by_n ∷ []) one_column) n_before
unfolding HasN n_before
integer_key-Ordering_example = integer_key-Ordering by_n one_column n_of

repeated-HasN : All HasN repeated
unfolding HasN evaluate index_of
repeated-HasN = (refl, (refl, (refl, (refl, tt))))

by_n-Ordering : Ordering HasN (row_less (by_n ∷ []) one_column) n_before
unfolding HasN n_before
by_n-Ordering = integer_key-Ordering by_n one_column n_of

sort-ProducesSorted_example :
    ProducesSorted (values_op one_column repeated) (by_n ∷ []) HasN n_before 5 0 repeated
sort-ProducesSorted_example =
    sort-ProducesSorted (values_op one_column repeated) (by_n ∷ []) HasN n_before 5 by_n-Ordering
      repeated-HasN repeated-Yields (omega arith)

-- SELECT n, COUNT(*) GROUP BY n
abbrev count_rows : Agg ℤ
count_rows = record {
  func = codes "COUNT";
  arg = none;
  star = true;
  distinct = Bool.false;
  out_name = codes "c";
  out_type = plain TypeId.int64 true;
}

abbrev own_row : Row ℤ → Row ℤ
own_row r = r

abbrev with_count : ℕ → List (Cell ℤ)
with_count n =
    record { num_acc = whole_floats.of_int (pos 0); count = n; minmax = null; seen = [] } ∷ []

abbrev counted : ℕ → List (Row ℤ) → ℕ
counted n [] = n
counted n (r ∷ rows) = counted (suc n) rows

count_fold :
    (n : ℕ) (rows : List (Row ℤ))
    → fold_result (λ c r. update_cells one_column (count_rows ∷ []) r c) (with_count n) rows
      ≡ ok (with_count (counted n rows))
unfolding update_cells
count_fold n [] = refl
count_fold n (r ∷ rows) = count_fold (suc n) rows

abbrev counts : Bytes → List (Cell ℤ)
unfolding row_key
counts k = with_count (counted 0 (filter (λ r. bytes_eq (row_key (own_row r)) k) repeated))

counts-Finals :
    Finals one_column
      (n_column ∷ [])
      (count_rows ∷ [])
      own_row
      (λ k. new_cells (count_rows ∷ []))
      counts
      repeated
unfolding counts new_cells
counts-Finals k = count_fold 0 (filter (λ r. bytes_eq (row_key (own_row r)) k) repeated)

repeated-HaveKeys : HaveKeys one_column (n_column ∷ []) (count_rows ∷ []) own_row repeated
unfolding evaluate index_of
repeated-HaveKeys = (refl, (refl, (refl, (refl, tt))))

aggregate-Yields_example :
    Yields
      (aggregate_op
        (values_op one_column repeated)
        (n_column ∷ [])
        (codes "n" ∷ [])
        (count_rows ∷ [])
        5)
      (fresh_buffer
        (aggregate_schema (codes "n" ∷ []) (count_rows ∷ []))
        (aggregate_build
          (values_op one_column repeated)
          (n_column ∷ [])
          (codes "n" ∷ [])
          (count_rows ∷ [])
          5)
        0)
      (grouped
        (values_op one_column repeated)
        (n_column ∷ [])
        (codes "n" ∷ [])
        (count_rows ∷ [])
        own_row
        counts
        repeated)
aggregate-Yields_example =
    aggregate-Yields (values_op one_column repeated) (n_column ∷ []) (codes "n" ∷ [])
      (count_rows ∷ []) own_row 5 counts repeated-Yields (omega arith) refl repeated-HaveKeys
      counts-Finals
