-- ===== src/Tests/Texts.antt =====
-- The theorems on CSV texts, at concrete texts.
use lite_query.Prelude.{
  ◌-◌, ◌≡◌, refl, Bool, true, ◌&&◌, leb, if◌then◌else◌, Bytes, codes, Option, none, some, List, [],
  ◌∷◌, drop, get_elem?, All,
}
use lite_query.Prelude.Int.{ℤ, pos}
use lite_query.Storage.Csv.{CsvOptions, blank_record, parse_grid}
use lite_query.Storage.Csv.Grid.{Usable, records, write_grid, parse_grid-write_grid}
use lite_query.Storage.Csv.Inference.{Numerals, infer_column}
use lite_query.Storage.Csv.Inference.Readable.{ReadableAt, Wider, infer_column-Readable}

abbrev comma : CsvOptions
comma = record { delimiter = b','; has_header = true; quote = 34; infer_rows = 0 }

comma-Usable : Usable comma
comma-Usable = record {
  delimiter_quote = refl;
  newline_quote = refl;
  newline_delimiter = refl;
  no_bom = refl;
}

-- The records `a,b | "` and `` with a newline in it.
abbrev two_records : List (Bytes × List Bytes)
two_records = (codes "a,b", (34 ∷ []) ∷ []) ∷ (10 ∷ [], []) ∷ []

two_records-full : All (λ row. blank_record (row.0 ∷ row.1) ≡ Bool.false) two_records
unfolding blank_record
two_records-full = (refl, (refl, tt))

parse_grid-write_grid_example :
    parse_grid comma (write_grid comma two_records) ≡ records two_records
parse_grid-write_grid_example =
    parse_grid-write_grid comma comma-Usable two_records two_records-full

-- Numbers of one digit.
abbrev digit : Bytes → Option ℤ
digit (c ∷ []) = if leb 48 c && leb c 57 then some (pos (c - 48)) else none
digit _ = none

abbrev digits : Numerals ℤ
digits = record { from_chars = digit; stod = digit }

digits-Wider : Wider digits
digits-Wider s i h = (i, h)

abbrev mixed : List (List Bytes)
mixed = (codes "n" ∷ []) ∷ (codes "1" ∷ []) ∷ (codes "" ∷ []) ∷ (codes "x" ∷ []) ∷ []

infer_column-Readable_example :
    All
      (λ row. ReadableAt digits (infer_column digits mixed 0 1 0) (get_elem? row 0))
      (drop 1 mixed)
infer_column-Readable_example = infer_column-Readable digits digits-Wider mixed 0 1
