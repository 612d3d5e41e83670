-- ===== src/Storage/Csv/Inference/Readable.antt =====
-- src/storage/csv_reader.cpp, inferColumn: the inferred type reads every cell that was looked at.
use lite_query.Prelude.{
  ℕ, ◌-◌, ◌≡◌, refl, sym, ap, ◌∙◌, Bool, true, false, Bool-cases, Option-cases, inl, inr, Bytes,
  Option, none, some, List, [], ◌∷◌, length, take, drop, length-drop, get_elem?, All,
}
use lite_query.Prelude.Int.{ℤ}
use lite_query.Prelude.Result.{Fault, ok, err}
use lite_query.Types.Value.{Value, null, int64, string}
use lite_query.Storage.Csv.{is_nil}
use lite_query.Storage.Csv.Inference.{
  Numerals, is_blank, strip, Inferred, parses_as_int, parses_as_double, double_or_text, infer_cell,
  until_text, infer_at, infer_loop, infer_column, cell_to_value,
}

take_whole : {A : Type 0} (xs : List A) → take (length xs) xs ≡ xs
take_whole [] = refl
take_whole (x ∷ xs) = ap (λ l. x ∷ l) (take_whole xs)

cc_none : {A B : Type 0} {a : A} → none ≡ some a → B
cc_none h = cc

undefined_none : {A B : Type 0} {e : Fault} {a : A} → err e ≡ ok a → B
undefined_none h = cc

module _ {F : Type 0} (n : Numerals F) where
  -- The cell can be read by a column of that type.
  abbrev pub Readable : Inferred → Bytes → Type 0
  unfolding cell_to_value
  Readable t cell = (v : Value F) × (cell_to_value n cell t ≡ ok v)

  abbrev pub ReadableAt : Inferred → Option Bytes → Type 0
  unfolding Readable
  ReadableAt t none = Unit {0}
  ReadableAt t (some cell) = Readable t cell

  -- A text that is an integer is a double as well.
  abbrev pub Wider : Type 0
  Wider = (s : Bytes) (i : ℤ) → n.from_chars s ≡ some i → (x : F) × (n.stod s ≡ some x)

  -- The second type reads what the first one reads.
  abbrev Within : Inferred → Inferred → Type 0
  Within Inferred.int t = Unit {0}
  Within Inferred.double Inferred.int = ⊥
  Within Inferred.double t = Unit {0}
  Within Inferred.text Inferred.text = Unit {0}
  Within Inferred.text t = ⊥

  Within-trans : (a b c : Inferred) → Within a b → Within b c → Within a c
  Within-trans Inferred.int b c h k = tt
  Within-trans Inferred.double Inferred.int c h k = absurd h
  Within-trans Inferred.double Inferred.double c h k = k
  Within-trans Inferred.double Inferred.text Inferred.int h k = absurd k
  Within-trans Inferred.double Inferred.text Inferred.double h k = absurd k
  Within-trans Inferred.double Inferred.text Inferred.text h k = tt
  Within-trans Inferred.text Inferred.int c h k = absurd h
  Within-trans Inferred.text Inferred.double c h k = absurd h
  Within-trans Inferred.text Inferred.text c h k = k

  Within-refl : (a : Inferred) → Within a a
  Within-refl Inferred.int = tt
  Within-refl Inferred.double = tt
  Within-refl Inferred.text = tt

  Within-text : (a : Inferred) → Within a Inferred.text
  Within-text Inferred.int = tt
  Within-text Inferred.double = tt
  Within-text Inferred.text = tt

  blank_reads : (t : Inferred) (cell : Bytes) → is_blank cell ≡ true → Readable t cell
  unfolding Readable cell_to_value
  blank_reads Inferred.int cell e = (null, rw e refl)
  blank_reads Inferred.double cell e = (null, rw e refl)
  blank_reads Inferred.text cell e = (null, rw e refl)

  text_reads : (cell : Bytes) → Readable Inferred.text cell
  unfolding Readable cell_to_value
  text_reads cell = elim (Bool-cases (is_blank cell)) [
    | inl e ↦ (null, rw e refl)
    | inr e ↦ (string cell, rw e refl)
  ]

  double_reads :
      (cell : Bytes) (x : F) → parses_as_double n cell ≡ some x → Readable Inferred.double cell
  unfolding Readable cell_to_value
  double_reads cell x h = elim (Bool-cases (is_blank cell)) [
    | inl e ↦ (null, rw e refl)
    | inr e ↦ (Value.double x, rw (e, h) refl)
  ]

  int_reads : (cell : Bytes) (i : ℤ) → parses_as_int n cell ≡ some i → Readable Inferred.int cell
  unfolding Readable cell_to_value
  int_reads cell i h = elim (Bool-cases (is_blank cell)) [
    | inl e ↦ (null, rw e refl)
    | inr e ↦ (int64 i, rw (e, h) refl)
  ]

  double_cell :
      (cell : Bytes)
      → Within Inferred.double (double_or_text n (parses_as_double n cell))
        × Readable (double_or_text n (parses_as_double n cell)) cell
  double_cell cell = elim (Option-cases (parses_as_double n cell)) [
    | inl e ↦ rw e (tt, text_reads cell)
    | inr (x, e) ↦ rw e (tt, double_reads cell x e)
  ]

  -- The type that a cell leads to reads the cell.
  infer_cell-Readable :
      (t : Inferred) (cell : Bytes)
      → Within t (infer_cell n t cell) × Readable (infer_cell n t cell) cell
  unfolding infer_cell
  infer_cell-Readable Inferred.int cell = elim (Option-cases (parses_as_int n cell)) [
    | inl e ↦ rw e (tt, (double_cell cell).1)
    | inr (i, e) ↦ rw e (tt, int_reads cell i e)
  ]
  infer_cell-Readable Inferred.double cell = double_cell cell
  infer_cell-Readable Inferred.text cell = (tt, text_reads cell)

  module _ (wider : Wider) where
    int-double :
        (cell : Bytes) (i : ℤ)
        → parses_as_int n cell ≡ some i
        → (x : F) × (parses_as_double n cell ≡ some x)
    unfolding parses_as_int parses_as_double
    int-double cell i h = elim (Bool-cases (is_nil (strip cell))) [
      | inl e ↦ cc_none (rw e at h)
      | inr e ↦ rw e (wider (strip cell) i (rw e at h))
    ]

    int_widens : (cell : Bytes) → Readable Inferred.int cell → Readable Inferred.double cell
    unfolding Readable cell_to_value
    int_widens cell h = elim (Bool-cases (is_blank cell)) [
      | inl e ↦ (null, rw e refl)
      | inr e ↦ elim (Option-cases (parses_as_int n cell)) [
        | inl none_read ↦ undefined_none (rw (e, none_read) at h.1)
        | inr (i, e') ↦ let (x, d) = int-double cell i e' in (Value.double x, rw (e, d) refl)
      ]
    ]

    reads-Within : (t u : Inferred) (cell : Bytes) → Within t u → Readable t cell → Readable u cell
    reads-Within Inferred.int Inferred.int cell w h = h
    reads-Within Inferred.int Inferred.double cell w h = int_widens cell h
    reads-Within t Inferred.text cell w h = text_reads cell
    reads-Within Inferred.double Inferred.int cell w h = absurd w
    reads-Within Inferred.double Inferred.double cell w h = h
    reads-Within Inferred.text Inferred.int cell w h = absurd w
    reads-Within Inferred.text Inferred.double cell w h = absurd w

    reads-All :
        (col : ℕ) (rows : List (List Bytes))
        → All (λ row. ReadableAt Inferred.text (get_elem? row col)) rows
    unfolding ReadableAt
    reads-All col [] = tt
    reads-All col (row ∷ rows) = (at_cell (get_elem? row col), reads-All col rows)
      where
        at_cell : (o : Option Bytes) → ReadableAt Inferred.text o
        at_cell none = tt
        at_cell (some cell) = text_reads cell

    -- What the loop answers reads the rows that it has seen.
    record Covers (col : ℕ) (rows : List (List Bytes)) (t : Inferred) (r : Inferred × Bool)
        : Type 0 where
      within : Within t r.0
      all : All (λ row. ReadableAt r.0 (get_elem? row col)) rows

    until-Covers :
        (col : ℕ) (row : List Bytes) (rows : List (List Bytes)) (cell : Bytes) (t u : Inferred)
        (r : Inferred × Bool)
        → get_elem? row col ≡ some cell
        → Within t u
        → Readable u cell
        → Covers col rows u r
        → Covers col (row ∷ rows) t (until_text n u r)
    unfolding ReadableAt
    until-Covers col row rows cell t Inferred.text r e w h c = record {
      within = w;
      all = (rw e h, reads-All col rows);
    }
    until-Covers col row rows cell t Inferred.int r e w h c = record {
      within = Within-trans t Inferred.int r.0 w c.within;
      all = (rw e (reads-Within Inferred.int r.0 cell c.within h), c.all);
    }
    until-Covers col row rows cell t Inferred.double r e w h c = record {
      within = Within-trans t Inferred.double r.0 w c.within;
      all = (rw e (reads-Within Inferred.double r.0 cell c.within h), c.all);
    }

    infer_loop-Covers :
        (col : ℕ) (rows : List (List Bytes)) (t : Inferred) (saw : Bool)
        → Covers col rows t (infer_loop n col rows t saw)
    unfolding infer_loop infer_at ReadableAt
    infer_loop-Covers col [] t saw = record { within = Within-refl t; all = tt }
    infer_loop-Covers col (row ∷ rows) t saw = elim (Option-cases (get_elem? row col)) [
      | inl e ↦
          let ih = infer_loop-Covers col rows t saw in
          rw e (record { within = ih.within; all = (rw e tt, ih.all) })
      | inr (cell, e) ↦ elim (Bool-cases (is_blank cell)) [
        | inl b ↦
            let ih = infer_loop-Covers col rows t saw in
            rw (e, b)
              (record {
                within = ih.within;
                all = (rw e (blank_reads (infer_loop n col rows t saw).0 cell b), ih.all);
              })
        | inr b ↦
            let u = infer_cell n t cell in
            let one = infer_cell-Readable t cell in
            rw (e, b)
              (until-Covers col row rows cell t u (infer_loop n col rows u true) e one.0 one.1
                (infer_loop-Covers col rows u true))
      ]
    ]

    -- When all rows are scanned (`inferRows` is 0) the type that inferColumn answers for a column reads
    -- the cell of that column in every data row that has one: cellToValue never uses a number that did
    -- not parse. An integer text has to be one that std::stod reads as well.
    pub infer_column-Readable :
        (grid : List (List Bytes)) (col start : ℕ)
        → All
            (λ row. ReadableAt (infer_column n grid col start 0) (get_elem? row col))
            (drop start grid)
    unfolding infer_column ReadableAt
    infer_column-Readable grid col start =
        let rows = drop start grid in
        let whole : take (length grid - start) rows ≡ rows =
          ap (λ (k : ℕ). take k rows) (sym (length-drop start grid)) ∙ take_whole rows in
        let c = infer_loop-Covers col rows Inferred.int false in
        rw whole (elim (Bool-cases (infer_loop n col rows Inferred.int false).1) [
          | inl e ↦ rw e c.all
          | inr e ↦ rw e (reads-All col rows)
        ])
