-- ===== src/Storage/Column/Contents.antt =====
-- src/storage/column.h, Column: a column behaves as the list of the values stored in it.
use lite_query.Prelude.{
  ℕ, zero, suc, ◌<◌, ◌≡◌, refl, sym, ap, ◌∙◌, arith, Bool, true, false, not, if◌then◌else◌,
  false≢true, subst, Bool-cases, inl, inr, Bytes, List, [], ◌∷◌, ◌++◌, map, map-append, length,
  length-map, get_elem?, get_or, some,
}
use lite_query.Prelude.Int.{ℤ}
use lite_query.Prelude.Result.{Result, ok, err, ◌>>=◌}
use lite_query.Types.Floats.{Floats}
use lite_query.Types.TypeId.{TypeId}
use lite_query.Types.DataType.{DataType}
use lite_query.Types.Value.{Value, null, is_null, to_double}
use lite_query.Storage.Bitmap.{ValidityBitmap, push}
use lite_query.Storage.Bitmap.Flags.{Tracks, push-Tracks, is_valid-Tracks}
use lite_query.Storage.Column.{
  Kind, kind_of, Column, element, int_value_of, read_cell, value_at, push_cell, push_null, int_cell,
  string_cell, store_cell, append,
}

some-injective {ℓ} : {A : Type ℓ} {a b : A} → some a ≡ some b → a ≡ b
some-injective h = cc

module _ {F : Type 0} where
  abbrev pub has_value : Value F → Bool
  unfolding is_null
  has_value v = not (is_null v)

  -- The buffer has a cell for each value, which reads as that value unless it is NULL.
  abbrev pub Cells : {A : Type 0} → (A → Value F) → List A → List (Value F) → Type 0
  Cells read [] [] = Unit {0}
  Cells read (x ∷ buffer) (v ∷ values) =
      (has_value v ≡ true → read x ≡ v) × Cells read buffer values
  Cells read _ _ = ⊥

  Cells-append :
      {A : Type 0} (read : A → Value F) (buffer : List A) (values : List (Value F)) (x : A)
      (v : Value F)
      → Cells read buffer values
      → (has_value v ≡ true → read x ≡ v)
      → Cells read (buffer ++ x ∷ []) (values ++ v ∷ [])
  Cells-append read [] [] x v h k = (k, tt)
  Cells-append read [] (w ∷ values) x v h k = absurd h
  Cells-append read (y ∷ buffer) [] x v h k = absurd h
  Cells-append read (y ∷ buffer) (w ∷ values) x v h k =
      (h.0, Cells-append read buffer values x v h.1 k)

  Cells-read :
      {A : Type 0} (read : A → Value F) (buffer : List A) (values : List (Value F)) (i : ℕ)
      (v : Value F)
      → Cells read buffer values
      → get_elem? values i ≡ some v
      → has_value v ≡ true
      → (element (get_elem? buffer i) >>= (λ x. ok (read x))) ≡ ok v
  Cells-read read [] [] i v h e k = cc
  Cells-read read [] (w ∷ values) i v h e k = absurd h
  Cells-read read (y ∷ buffer) [] i v h e k = absurd h
  Cells-read read (y ∷ buffer) (w ∷ values) zero v h e k =
      ap ok (h.0 (ap has_value (some-injective e) ∙ k) ∙ some-injective e)
  Cells-read read (y ∷ buffer) (w ∷ values) (suc i) v h e k =
      Cells-read read buffer values i v h.1 e k

  abbrev pub Buffer : Kind → Column F → List (Value F) → Type 0
  Buffer Kind.int64 c values = Cells (int_value_of c.type.id) c.i64 values
  Buffer Kind.double c values = Cells Value.double c.f64 values
  Buffer Kind.string c values = Cells Value.string c.str values

  -- The column holds exactly these values, in order.
  pub record Stores (c : Column F) (values : List (Value F)) : Type 0 where
    pub buffer : Buffer (kind_of c.type.id) c values
    pub flags : Tracks c.validity (map has_value values)

  read_cell-Buffer :
      (kind : Kind) (c : Column F) (values : List (Value F)) (i : ℕ) (v : Value F)
      → Buffer kind c values
      → get_elem? values i ≡ some v
      → has_value v ≡ true
      → read_cell kind c i ≡ ok v
  unfolding read_cell
  read_cell-Buffer Kind.int64 c values i v h e k =
      Cells-read (int_value_of c.type.id) c.i64 values i v h e k
  read_cell-Buffer Kind.double c values i v h e k = Cells-read Value.double c.f64 values i v h e k
  read_cell-Buffer Kind.string c values i v h e k = Cells-read Value.string c.str values i v h e k

  flag-at :
      (values : List (Value F)) (i : ℕ) {v : Value F}
      → get_elem? values i ≡ some v
      → (get_or (map has_value values) i false ≡ has_value v) × (i < length values)
  flag-at [] i e = cc
  flag-at (w ∷ values) zero e = (ap has_value (some-injective e), omega arith)
  flag-at (w ∷ values) (suc i) e = let (a, b) = flag-at values i e in (a, omega arith)

  null_of : (v : Value F) → has_value v ≡ false → v ≡ null
  unfolding has_value is_null
  null_of null h = refl
  null_of _ h = absurd (false≢true (sym h))

  -- On a column that holds a list of values valueAt reads, for each row of the list, its value.
  pub value_at-Stores :
      (c : Column F) (values : List (Value F)) (i : ℕ) (v : Value F)
      → Stores c values
      → get_elem? values i ≡ some v
      → value_at c i ≡ ok v
  unfolding value_at
  value_at-Stores c values i v h e =
      let (f, lt) = flag-at values i e in
      let valid =
        is_valid-Tracks c.validity (map has_value values) i h.flags
          (omega (arith, length-map values has_value)) in
      elim (Bool-cases (has_value v)) [
        | inl k ↦ rw (valid, f, k) (read_cell-Buffer (kind_of c.type.id) c values i v h.buffer e k)
        | inr k ↦ rw (valid, f, k) (ap ok (sym (null_of v k)))
      ]

push-flags :
    {F : Type 0} (b : ValidityBitmap) (values : List (Value F)) (w : Value F) (valid : Bool)
    → has_value w ≡ valid
    → Tracks b (map has_value values)
    → Tracks (push valid b) (map has_value (values ++ w ∷ []))
push-flags b values w valid e h =
    subst (Tracks (push valid b))
      (ap (λ t. map has_value values ++ t ∷ []) (sym e)
        ∙ sym (map-append has_value values (w ∷ [])))
      (push-Tracks b (map has_value values) h valid)

int_value-has_value :
    (F : Type 0) (id : TypeId) (n : ℤ) → has_value (int_value_of {F = F} id n) ≡ true
unfolding has_value is_null int_value_of
int_value-has_value F TypeId.boolean n = refl
int_value-has_value F TypeId.int8 n = refl
int_value-has_value F TypeId.int16 n = refl
int_value-has_value F TypeId.int32 n = refl
int_value-has_value F _ n = refl

null-has_value : (F : Type 0) → has_value {F = F} null ≡ false
unfolding has_value is_null
null-has_value F = refl

no_value {ℓ} : {A : Type ℓ} (F : Type 0) → has_value {F = F} null ≡ true → A
no_value F k = absurd (false≢true (sym (null-has_value F) ∙ k))

module _ {F : Type 0} ⦃fl : Floats F⦄ where
  stored_kind : Kind → TypeId → Value F → Result (Value F)
  unfolding int_cell string_cell to_double int_value_of
  stored_kind Kind.int64 id v = int_cell v >>= (λ n. ok (int_value_of id n))
  stored_kind Kind.double id v = to_double v >>= (λ x. ok (Value.double x))
  stored_kind Kind.string id v = string_cell v >>= (λ s. ok (Value.string s))

  -- What a column of a type makes of a value: NULL stays NULL, and any other value is converted to the
  -- kind of the column.
  unfoldable pub stored_as : DataType → Value F → Result (Value F)
  unfolding is_null kind_of stored_kind
  stored_as type v = if is_null v then ok null else stored_kind (kind_of type.id) type.id v

  -- The outcome of an append: the column of the same type with one value more.
  pub record Appended (c : Column F) (out : Result (Column F)) (values : List (Value F))
      : Type 0 where
    pub result : Column F
    pub done : out ≡ ok result
    pub type : result.type ≡ c.type
    pub stores : Stores result values

  -- What an append does, by what the column makes of the value.
  abbrev pub AppendedAs : Column F → List (Value F) → Result (Column F) → Result (Value F) → Type 0
  AppendedAs c values out (ok w) = Appended c out (values ++ w ∷ [])
  AppendedAs c values out (err e) = out ≡ err e

  module _ (c : Column F) (values : List (Value F)) (h : Stores c values) where
    null-Stores :
        (kind : Kind)
        → kind_of c.type.id ≡ kind
        → Appended c
            (ok (record (push_cell kind c) { validity = push false c.validity }))
            (values ++ null ∷ [])
    unfolding push_cell
    null-Stores Kind.int64 e = record {
      result = record (push_cell Kind.int64 c) { validity = push false c.validity };
      done = refl;
      type = refl;
      stores = record {
        buffer = rw e (
            Cells-append (int_value_of c.type.id) c.i64 values _ null (rw e at h.buffer)
              (no_value F));
        flags = push-flags c.validity values null false (null-has_value F) h.flags;
      };
    }
    null-Stores Kind.double e = record {
      result = record (push_cell Kind.double c) { validity = push false c.validity };
      done = refl;
      type = refl;
      stores = record {
        buffer =
            rw e (Cells-append Value.double c.f64 values _ null (rw e at h.buffer) (no_value F));
        flags = push-flags c.validity values null false (null-has_value F) h.flags;
      };
    }
    null-Stores Kind.string e = record {
      result = record (push_cell Kind.string c) { validity = push false c.validity };
      done = refl;
      type = refl;
      stores = record {
        buffer =
            rw e (Cells-append Value.string c.str values _ null (rw e at h.buffer) (no_value F));
        flags = push-flags c.validity values null false (null-has_value F) h.flags;
      };
    }

    -- The three kinds of stores, by what the conversion of the value gives.
    stored-int :
        (r : Result ℤ)
        → kind_of c.type.id ≡ Kind.int64
        → AppendedAs c values
            (((r >>= (λ n. ok (record c { i64 = c.i64 ++ n ∷ [] })))
              >>= (λ c'. ok (record c' { validity = push true c'.validity }))))
            (r >>= (λ n. ok (int_value_of c.type.id n)))
    stored-int (err e) k = refl
    stored-int (ok n) k = record {
      result = record c { i64 = c.i64 ++ n ∷ []; validity = push true c.validity };
      done = refl;
      type = refl;
      stores = record {
        buffer = rw k (
            Cells-append (int_value_of c.type.id) c.i64 values n (int_value_of c.type.id n)
              (rw k at h.buffer) (λ _. refl));
        flags =
            push-flags c.validity values (int_value_of c.type.id n) true
              (int_value-has_value F c.type.id n) h.flags;
      };
    }

    stored-double :
        (r : Result F)
        → kind_of c.type.id ≡ Kind.double
        → AppendedAs c values
            (((r >>= (λ x. ok (record c { f64 = c.f64 ++ x ∷ [] })))
              >>= (λ c'. ok (record c' { validity = push true c'.validity }))))
            (r >>= (λ x. ok (Value.double x)))
    unfolding has_value is_null
    stored-double (err e) k = refl
    stored-double (ok x) k = record {
      result = record c { f64 = c.f64 ++ x ∷ []; validity = push true c.validity };
      done = refl;
      type = refl;
      stores = record {
        buffer = rw k (
            Cells-append Value.double c.f64 values x (Value.double x) (rw k at h.buffer)
              (λ _. refl));
        flags = push-flags c.validity values (Value.double x) true refl h.flags;
      };
    }

    stored-string :
        (r : Result Bytes)
        → kind_of c.type.id ≡ Kind.string
        → AppendedAs c values
            (((r >>= (λ s. ok (record c { str = c.str ++ s ∷ [] })))
              >>= (λ c'. ok (record c' { validity = push true c'.validity }))))
            (r >>= (λ s. ok (Value.string s)))
    unfolding has_value is_null
    stored-string (err e) k = refl
    stored-string (ok s) k = record {
      result = record c { str = c.str ++ s ∷ []; validity = push true c.validity };
      done = refl;
      type = refl;
      stores = record {
        buffer = rw k (
            Cells-append Value.string c.str values s (Value.string s) (rw k at h.buffer)
              (λ _. refl));
        flags = push-flags c.validity values (Value.string s) true refl h.flags;
      };
    }

    store-Stores :
        (kind : Kind) (v : Value F)
        → kind_of c.type.id ≡ kind
        → AppendedAs c values
            (store_cell kind v c >>= (λ c'. ok (record c' { validity = push true c'.validity })))
            (stored_kind kind c.type.id v)
    unfolding store_cell stored_kind
    store-Stores Kind.int64 v e = stored-int (int_cell v) e
    store-Stores Kind.double v e = stored-double (to_double v) e
    store-Stores Kind.string v e = stored-string (string_cell v) e

    -- Appending a value to a column that holds a list of values adds behind them what the column's
    -- type makes of the value; where that conversion throws, the append throws the same.
    pub append-Stores : (v : Value F) → AppendedAs c values (append v c) (stored_as c.type v)
    unfolding append stored_as push_null
    append-Stores v = elim (Bool-cases (is_null v)) [
      | inl e ↦ rw e (null-Stores (kind_of c.type.id) refl)
      | inr e ↦ rw e (store-Stores (kind_of c.type.id) v refl)
    ]
