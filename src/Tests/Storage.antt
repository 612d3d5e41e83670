-- ===== src/Tests/Storage.antt =====
-- The theorems on the storage of columns, at concrete columns.
use lite_query.Storage.Table.Torn.{Torn, insert_row-Torn}
use lite_query.Prelude.{codes, ◌≡◌, refl, subst, true, false, [], ◌∷◌, ◌++◌}
use lite_query.Prelude.Int.{ℤ}
use lite_query.Prelude.Result.{ok, err, runtime_error}
use lite_query.Types.TypeId.{TypeId}
use lite_query.Types.DataType.{plain}
use lite_query.Types.Value.{null, string}
use lite_query.Storage.Bitmap.{ValidityBitmap, empty_bitmap, push, assign_raw}
use lite_query.Storage.Bitmap.Flags.{Tracks, empty-Tracks, push-Tracks, assign_raw-words}
use lite_query.Storage.Column.{kind_of, Column, column, append, value_at}
use lite_query.Storage.Column.Contents.{
  Stores, Appended, AppendedAs, stored_as, append-Stores, value_at-Stores,
}
use lite_query.Storage.Table.{Table, insert_row, table_row}
use lite_query.Storage.Table.Rows.{
  HoldsRows, stored_row, InsertedRow, insert_row-HoldsRows, table_row-HoldsRows,
}
use lite_query.Tests.Samples.{whole_floats, number, one_column, two_columns}

push-Tracks_example : Tracks (push true empty_bitmap) ([] ++ true ∷ [])
push-Tracks_example = push-Tracks empty_bitmap [] empty-Tracks true

abbrev two_flags : ValidityBitmap
two_flags = push false (push true empty_bitmap)

two_flags-Tracks : Tracks two_flags (true ∷ false ∷ [])
two_flags-Tracks =
    push-Tracks (push true empty_bitmap) (true ∷ []) (push-Tracks empty_bitmap [] empty-Tracks true)
      false

assign_raw-words_example : assign_raw two_flags.words two_flags.count ≡ ok two_flags
assign_raw-words_example = assign_raw-words two_flags (true ∷ false ∷ []) two_flags-Tracks

abbrev empty_column : Column ℤ
empty_column = column (plain TypeId.int32 true)

empty_column-Stores : Stores empty_column []
unfolding kind_of
empty_column-Stores = record { buffer = tt; flags = empty-Tracks }

append-Stores_example :
    AppendedAs empty_column []
      (append (number 7) empty_column)
      (stored_as (plain TypeId.int32 true) (number 7))
append-Stores_example = append-Stores empty_column [] empty_column-Stores (number 7)

null_kept : stored_as {F = ℤ} (plain TypeId.int32 true) null ≡ ok null
unfolding stored_as
null_kept = refl

-- A column with one NULL.
one_null : Appended empty_column (append null empty_column) (null ∷ [])
one_null =
    subst (AppendedAs empty_column [] (append null empty_column)) null_kept
      (append-Stores empty_column [] empty_column-Stores null)

value_at-Stores_example : value_at one_null.result 0 ≡ ok null
value_at-Stores_example = value_at-Stores one_null.result (null ∷ []) 0 null one_null.stores refl

abbrev pub empty_table : Table ℤ
empty_table = record {
  name = codes "t";
  schema = one_column;
  columns = column (plain TypeId.int64 true) ∷ [];
}

empty_table-HoldsRows : HoldsRows empty_table []
unfolding kind_of
empty_table-HoldsRows = record {
  columns = (record { buffer = tt; flags = empty-Tracks }, tt);
  widths = tt;
}

one_stored : stored_row empty_table.columns (number 1 ∷ []) ≡ ok (number 1 ∷ [])
unfolding stored_row stored_as
one_stored = refl

insert_row-HoldsRows_example :
    InsertedRow empty_table (insert_row (number 1 ∷ []) empty_table) ([] ++ (number 1 ∷ []) ∷ [])
insert_row-HoldsRows_example =
    insert_row-HoldsRows empty_table [] (number 1 ∷ []) (number 1 ∷ []) empty_table-HoldsRows
      one_stored

pub inserted :
    InsertedRow empty_table (insert_row (number 1 ∷ []) empty_table) ([] ++ (number 1 ∷ []) ∷ [])
inserted =
    insert_row-HoldsRows empty_table [] (number 1 ∷ []) (number 1 ∷ []) empty_table-HoldsRows
      one_stored

table_row-HoldsRows_example :
    table_row (record empty_table { columns = inserted.columns }) 0 ≡ ok (number 1 ∷ [])
table_row-HoldsRows_example =
    table_row-HoldsRows (record empty_table { columns = inserted.columns }) ((number 1 ∷ []) ∷ []) 0
      inserted.holds refl

-- A row of a number and a text, for two columns of numbers.
abbrev number_column : Column ℤ
number_column = column (plain TypeId.int64 true)

number_column-Stores : Stores number_column []
unfolding kind_of
number_column-Stores = record { buffer = tt; flags = empty-Tracks }

number_kept : stored_as (plain TypeId.int64 true) (number 1) ≡ ok (number 1)
unfolding stored_as
number_kept = refl

text_refused : stored_as {F = ℤ} (plain TypeId.int64 true) (string (codes "x")) ≡ err runtime_error
unfolding stored_as
text_refused = refl

number_column-HoldsRows :
    HoldsRows {F = ℤ}
      (record { name = codes "t"; schema = two_columns; columns = number_column ∷ [] })
      []
number_column-HoldsRows = record { columns = (number_column-Stores, tt); widths = tt }

number_row : stored_row (number_column ∷ []) (number 1 ∷ []) ≡ ok (number 1 ∷ [])
unfolding stored_row stored_as
number_row = refl

abbrev number_table : Table ℤ
number_table = record {
  name = codes "t";
  schema = two_columns;
  columns = number_column ∷ number_column ∷ [];
}

insert_row-Torn_example :
    Torn number_table
      (number_column ∷ [])
      number_column
      []
      (insert_row (number 1 ∷ string (codes "x") ∷ []) number_table)
      ((number 1 ∷ []) ∷ [])
      runtime_error
insert_row-Torn_example =
    insert_row-Torn number_table (number_column ∷ []) number_column [] [] [] (number 1 ∷ [])
      (number 1 ∷ []) (string (codes "x")) [] refl number_column-HoldsRows number_column-Stores refl
      number_row text_refused
