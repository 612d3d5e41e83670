-- ===== src/Storage/Csv/Grid.antt =====
-- src/storage/csv_reader.cpp, parseGrid: a grid that is written with all fields quoted is read back.
use lite_query.Prelude.{
  ℕ, ◌≡◌, refl, sym, ap, ◌∙◌, arith, Bool, true, false, ◌&&◌, ◌==◌, if◌then◌else◌, Bool-cases, inl,
  inr, Bytes, List, [], ◌∷◌, ◌++◌, append_assoc, append-nil, All,
}
use lite_query.Storage.Csv.{
  is_nil, CsvOptions, GridState, quoted_char, plain_char, grid_char, grid_loop, flush, blank_record,
  trim_rows, skip_bom, parse_grid,
}

-- The characters that have a meaning differ from one another.
pub record Usable (opts : CsvOptions) : Type 0 where
  pub delimiter_quote : (opts.delimiter == opts.quote) ≡ false
  pub newline_quote : (10 == opts.quote) ≡ false
  pub newline_delimiter : (10 == opts.delimiter) ≡ false
  pub no_bom : (opts.quote == 239) ≡ false

skip_bom-other : (a : ℕ) (text : Bytes) → (a == 239) ≡ false → skip_bom (a ∷ text) ≡ a ∷ text
skip_bom-other a [] h = refl
skip_bom-other a (b ∷ []) h = refl
skip_bom-other a (b ∷ c ∷ text) h = rw h refl

and_false : (b : Bool) → (b && false) ≡ false
and_false true = refl
and_false false = refl

-- A first field and others, as a record.
abbrev pub records : List (Bytes × List Bytes) → List (List Bytes)
records [] = []
records (row ∷ rows) = (row.0 ∷ row.1) ∷ records rows

trim-records :
    (rows : List (Bytes × List Bytes))
    → All (λ row. blank_record (row.0 ∷ row.1) ≡ false) rows
    → trim_rows (records rows) ≡ records rows
unfolding trim_rows
trim-records [] h = refl
trim-records (row ∷ rows) h =
    rw (h.0, and_false (is_nil (trim_rows (records rows))))
      (ap (λ l. (row.0 ∷ row.1) ∷ l) (trim-records rows h.1))

module _ (opts : CsvOptions) where
  -- The text of a field, each quote in it twice.
  unfoldable pub doubled : Bytes → Bytes
  doubled [] = []
  doubled (c ∷ field) =
      if c == opts.quote then opts.quote ∷ opts.quote ∷ doubled field else c ∷ doubled field

  -- A field between quotes, and what is behind it.
  unfoldable pub write_field : Bytes → Bytes → Bytes
  unfolding doubled
  write_field field rest = opts.quote ∷ (doubled field ++ (opts.quote ∷ rest))

  unfoldable pub write_row : Bytes → List Bytes → Bytes → Bytes
  unfolding write_field
  write_row field [] rest = write_field field (10 ∷ rest)
  write_row field (next ∷ fields) rest =
      write_field field (opts.delimiter ∷ write_row next fields rest)

  -- The rows, each of a first field and others.
  unfoldable pub write_grid : List (Bytes × List Bytes) → Bytes
  unfolding write_row
  write_grid [] = []
  write_grid (row ∷ rows) = write_row row.0 row.1 (write_grid rows)

  same : (a : ℕ) → (a == a) ≡ true
  same a = ground arith

  -- One round of the loop.
  round :
      (c : ℕ) (rest : Bytes) (s : GridState) {r : GridState × Bool}
      → grid_char opts c rest s ≡ r
      → grid_loop opts (c ∷ rest) false s ≡ grid_loop opts rest r.1 r.0
  unfolding grid_loop
  round c rest s e = ap (λ r. grid_loop opts rest r.1 r.0) e

  -- The states in which a field is read, between its quotes, behind them and before them.
  abbrev inside : List Bytes → List (List Bytes) → Bytes → GridState
  inside row rows field = record {
    in_quotes = true;
    field_started = true;
    field = field;
    row = row;
    rows = rows;
  }

  abbrev after : List Bytes → List (List Bytes) → Bytes → GridState
  after row rows field = record {
    in_quotes = false;
    field_started = true;
    field = field;
    row = row;
    rows = rows;
  }

  abbrev before : Bool → List Bytes → List (List Bytes) → GridState
  before started row rows = record {
    in_quotes = false;
    field_started = started;
    field = [];
    row = row;
    rows = rows;
  }

  module _ (row : List Bytes) (rows : List (List Bytes)) where
    other-char :
        (x : ℕ) (rest field : Bytes)
        → (x == opts.quote) ≡ false
        → grid_char opts x rest (inside row rows field) ≡ (inside row rows (field ++ x ∷ []), false)
    unfolding grid_char quoted_char
    other-char x rest field e = rw e refl

    doubled-char :
        (rest field : Bytes)
        → grid_char opts opts.quote (opts.quote ∷ rest) (inside row rows field)
          ≡ (inside row rows (field ++ opts.quote ∷ []), true)
    unfolding grid_char quoted_char
    doubled-char rest field = rw (same opts.quote) refl

    closing-char :
        (c : ℕ) (rest field : Bytes)
        → (c == opts.quote) ≡ false
        → grid_char opts opts.quote (c ∷ rest) (inside row rows field)
          ≡ (after row rows field, false)
    unfolding grid_char quoted_char
    closing-char c rest field e = rw (same opts.quote, e) refl

    opening-char :
        (started : Bool) (rest : Bytes)
        → grid_char opts opts.quote rest (before started row rows) ≡ (inside row rows [], false)
    unfolding grid_char plain_char
    opening-char started rest = rw (same opts.quote) refl

    skipped :
        (x : ℕ) (rest : Bytes) (s : GridState)
        → grid_loop opts (x ∷ rest) true s ≡ grid_loop opts rest false s
    unfolding grid_loop
    skipped x rest s = refl

    quoted-loop :
        (field : Bytes) (c : ℕ) (rest so_far : Bytes)
        → (c == opts.quote) ≡ false
        → grid_loop opts (doubled field ++ (opts.quote ∷ c ∷ rest)) false (inside row rows so_far)
          ≡ grid_loop opts (c ∷ rest) false (after row rows (so_far ++ field))
    unfolding doubled
    quoted-loop [] c rest so_far h =
        round opts.quote (c ∷ rest) (inside row rows so_far) (closing-char c rest so_far h)
        ∙ ap (λ f. grid_loop opts (c ∷ rest) false (after row rows f)) (sym (append-nil so_far))
    quoted-loop (x ∷ field) c rest so_far h =
        let tail = doubled field ++ (opts.quote ∷ c ∷ rest) in
        let later =
          ap (λ f. grid_loop opts (c ∷ rest) false (after row rows f))
            (append_assoc so_far (x ∷ []) field) in
        elim (Bool-cases (x == opts.quote)) [
          | inl e ↦
              let is_quote : x ≡ opts.quote = ground arith in
              rw e (
                round opts.quote (opts.quote ∷ tail) (inside row rows so_far)
                  (doubled-char tail so_far)
                ∙ skipped opts.quote tail (inside row rows (so_far ++ opts.quote ∷ []))
                ∙ ap (λ (y : ℕ). grid_loop opts tail false (inside row rows (so_far ++ y ∷ [])))
                    (sym is_quote)
                ∙ quoted-loop field c rest (so_far ++ x ∷ []) h
                ∙ later)
          | inr e ↦ rw e (
              round x tail (inside row rows so_far) (other-char x tail so_far e)
              ∙ quoted-loop field c rest (so_far ++ x ∷ []) h
              ∙ later)
        ]

    field-loop :
        (started : Bool) (field : Bytes) (c : ℕ) (rest : Bytes)
        → (c == opts.quote) ≡ false
        → grid_loop opts (write_field field (c ∷ rest)) false (before started row rows)
          ≡ grid_loop opts (c ∷ rest) false (after row rows field)
    unfolding write_field
    field-loop started field c rest h =
        let tail = doubled field ++ (opts.quote ∷ c ∷ rest) in
        round opts.quote tail (before started row rows) (opening-char started tail)
        ∙ quoted-loop field c rest [] h

  module _ (u : Usable opts) where
    delimiter-char :
        (row : List Bytes) (rows : List (List Bytes)) (field rest : Bytes)
        → grid_char opts opts.delimiter rest (after row rows field)
          ≡ (before true (row ++ field ∷ []) rows, false)
    unfolding grid_char plain_char
    delimiter-char row rows field rest = rw (u.delimiter_quote, same opts.delimiter) refl

    newline-char :
        (row : List Bytes) (rows : List (List Bytes)) (field rest : Bytes)
        → grid_char opts 10 rest (after row rows field)
          ≡ (before false [] (rows ++ (row ++ field ∷ []) ∷ []), false)
    unfolding grid_char plain_char
    newline-char row rows field rest = rw (u.newline_quote, u.newline_delimiter) refl

    row-loop :
        (started : Bool) (done : List Bytes) (rows : List (List Bytes)) (field : Bytes)
        (fields : List Bytes) (rest : Bytes)
        → grid_loop opts (write_row field fields rest) false (before started done rows)
          ≡ grid_loop opts rest false (before false [] (rows ++ (done ++ (field ∷ fields)) ∷ []))
    unfolding write_row
    row-loop started done rows field [] rest =
        field-loop done rows started field 10 rest u.newline_quote
        ∙ round 10 rest (after done rows field) (newline-char done rows field rest)
    row-loop started done rows field (next ∷ fields) rest =
        field-loop done rows started field opts.delimiter (write_row next fields rest)
          u.delimiter_quote
        ∙ round opts.delimiter (write_row next fields rest) (after done rows field)
            (delimiter-char done rows field (write_row next fields rest))
        ∙ row-loop true (done ++ field ∷ []) rows next fields rest
        ∙ ap (λ r. grid_loop opts rest false (before false [] (rows ++ r ∷ [])))
            (append_assoc done (field ∷ []) (next ∷ fields))

    grid_all :
        (done : List (List Bytes)) (rows : List (Bytes × List Bytes))
        → grid_loop opts (write_grid rows) false (before false [] done)
          ≡ before false [] (done ++ records rows)
    unfolding write_grid grid_loop
    grid_all done [] = ap (before false []) (sym (append-nil done))
    grid_all done (row ∷ rows) =
        row-loop false [] done row.0 row.1 (write_grid rows)
        ∙ grid_all (done ++ (row.0 ∷ row.1) ∷ []) rows
        ∙ ap (before false []) (append_assoc done ((row.0 ∷ row.1) ∷ []) (records rows))

    write_row-skip_bom :
        (field : Bytes) (fields : List Bytes) (rest : Bytes)
        → skip_bom (write_row field fields rest) ≡ write_row field fields rest
    unfolding write_row write_field
    write_row-skip_bom field [] rest = skip_bom-other opts.quote _ u.no_bom
    write_row-skip_bom field (next ∷ fields) rest = skip_bom-other opts.quote _ u.no_bom

    write_grid-skip_bom :
        (rows : List (Bytes × List Bytes)) → skip_bom (write_grid rows) ≡ write_grid rows
    unfolding write_grid
    write_grid-skip_bom [] = refl
    write_grid-skip_bom (row ∷ rows) = write_row-skip_bom row.0 row.1 (write_grid rows)

    -- Records of one field or more, none of which is a single empty field, written with every field
    -- between quotes, the quotes in it doubled, are read back exactly by parseGrid, whatever bytes the
    -- fields have (delimiters, quotes and newlines among them); the quote is no delimiter, neither is a
    -- newline, and the quote is not the first byte of a byte order mark.
    pub parse_grid-write_grid :
        (rows : List (Bytes × List Bytes))
        → All (λ row. blank_record (row.0 ∷ row.1) ≡ false) rows
        → parse_grid opts (write_grid rows) ≡ records rows
    unfolding parse_grid flush
    parse_grid-write_grid rows h =
        rw (write_grid-skip_bom rows, grid_all [] rows) (trim-records rows h)
