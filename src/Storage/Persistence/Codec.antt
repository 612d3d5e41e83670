-- ===== src/Storage/Persistence/Codec.antt =====
-- src/storage/persistence.cpp: Writer and Reader, the encodings of numbers, texts and types.
use lite_query.Prelude.{
  drop-append_length, take-append_length, subst, ℕ, zero, suc, ◌+◌, ◌*◌, ◌/◌, ◌%◌, ◌^◌, ◌<◌, ◌≤◌,
  ◌≡◌, refl, ap, ◌∙◌, arith, Bool, true, false, not, leb, ◌==◌, if◌then◌else◌, List, [], ◌∷◌, ◌++◌,
  length, length-append, subst, take, drop, get_or, Bytes,
}
use lite_query.Prelude.Int.{ℤ, pos, negsuc, to_unsigned, to_signed, fits}
use lite_query.Prelude.Result.{ok, err, persistence_error, bad_alloc}
use lite_query.Types.Floats.{Floats}
use lite_query.Types.TypeId.{TypeId, type_code}
use lite_query.Types.DataType.{DataType}
use lite_query.Storage.Persistence.Reader.{
  Reader, return_read, ◌>>=◌, Reads, bind-Reads, last-Reads,
}

-- `for (int i = 0; i < n; ++i) b[i] = char((v >> (8 * i)) & 0xFF)`, from `i` on
abbrev little_endian : ℕ → ℕ → ℕ → Bytes
little_endian zero i v = []
little_endian (suc n) i v = (v / 2 ^ (8 * i)) % 256 ∷ little_endian n (suc i) v

unfoldable pub put_u32 : ℕ → Bytes
put_u32 v = little_endian 4 0 v

unfoldable pub put_u64 : ℕ → Bytes
put_u64 v = little_endian 8 0 v

unfoldable pub put_i64 : ℤ → Bytes
unfolding put_u64 to_unsigned
put_i64 v = put_u64 (to_unsigned 64 v)

unfoldable pub put_f64 : {F : Type 0} ⦃fl : Floats F⦄ → F → Bytes
unfolding put_u64
put_f64 ⦃fl⦄ v = put_u64 (fl.bits v)

unfoldable pub put_str : Bytes → Bytes
unfolding put_u64
put_str s = put_u64 (length s) ++ s

abbrev flag_byte : Bool → ℕ
flag_byte true = 1
flag_byte false = 0

unfoldable pub put_data_type : DataType → Bytes
unfolding put_u32 type_code to_unsigned
put_data_type t =
    put_u32 (type_code t.id)
    ++ (flag_byte t.nullable ∷ t.scale ∷ t.precision ∷ put_u32 (to_unsigned 32 t.max_length))

-- Reader::bytes
unfoldable pub get_bytes : ℕ → Reader Bytes
get_bytes n is = if leb n (length is) then ok (take n is, drop n is) else err persistence_error

-- `|` of bytes at their own positions is their sum.
unfoldable pub get_u32 : Reader ℕ
unfolding get_bytes
get_u32 = get_bytes 4 >>= (λ b.
    return_read
      (get_or b 0 0 + get_or b 1 0 * 2 ^ 8 + get_or b 2 0 * 2 ^ 16 + get_or b 3 0 * 2 ^ 24))

-- `for (int i = 0; i < 8; ++i) v |= uint64_t(b[i]) << (8 * i)`, from `i` on
abbrev word_from : ℕ → Bytes → ℕ
word_from i [] = 0
word_from i (b ∷ bs) = b * 2 ^ (8 * i) + word_from (suc i) bs

unfoldable pub get_u64 : Reader ℕ
unfolding get_bytes
get_u64 = get_bytes 8 >>= (λ b. return_read (word_from 0 b))

unfoldable pub get_i64 : Reader ℤ
unfolding get_u64 to_signed
get_i64 = get_u64 >>= (λ v. return_read (to_signed 64 v))

unfoldable pub get_f64 : {F : Type 0} ⦃fl : Floats F⦄ → Reader F
unfolding get_u64
get_f64 ⦃fl⦄ = get_u64 >>= (λ v. return_read (fl.of_bits v))

-- A std::string or std::vector of `n` elements, which throws for more than `capacity` of them.
unfoldable pub allocate : ℕ → ℕ → Reader (Unit {0})
allocate capacity n is = if leb n capacity then ok (tt, is) else err bad_alloc

unfoldable pub get_str : ℕ → Reader Bytes
unfolding get_u64 allocate get_bytes
get_str capacity = get_u64 >>= (λ n. allocate capacity n >>= (λ _. get_bytes n))

-- `is.get(c)` on a char that is 0: at the end of the stream it stays 0, and the next read throws.
unfoldable pub get_char : Reader ℕ
get_char [] = ok (0, [])
get_char (c ∷ is) = ok (c, is)

abbrev enumerators : List TypeId
enumerators =
    TypeId.invalid ∷ TypeId.boolean ∷ TypeId.int8 ∷ TypeId.int16 ∷ TypeId.int32 ∷ TypeId.int64
    ∷ TypeId.float32 ∷ TypeId.float64 ∷ TypeId.varchar ∷ TypeId.blob ∷ TypeId.date
    ∷ TypeId.timestamp ∷ TypeId.interval ∷ TypeId.decimal ∷ []

-- static_cast<TypeId>(uint8_t)
unfoldable pub type_of_code : ℕ → TypeId
type_of_code n = get_or enumerators n (TypeId.unnamed n)

-- Reader::dataType; `!is` holds of no stream that `u32` has read from.
unfoldable pub get_data_type : Reader DataType
unfolding get_u32 get_char type_of_code to_signed
get_data_type = get_u32 >>= (λ id. get_char >>= (λ nb. get_char >>= (λ sc. get_char >>= (λ pr.
    get_u32 >>= (λ max_length. return_read (record {
      id = type_of_code (id % 256);
      nullable = not (nb == 0);
      scale = sc;
      precision = pr;
      max_length = to_signed 32 max_length;
    }))))))

pub get_bytes-Reads : (xs : Bytes) → Reads (get_bytes (length xs)) xs xs
unfolding get_bytes
get_bytes-Reads xs = record {
  reads = λ rest.
      let enough : leb (length xs) (length (xs ++ rest)) ≡ true =
        ground (arith, length-append xs rest) in
      rw (enough, take-append_length xs rest, drop-append_length xs rest) refl;
}

pub get-put_u32 : (v : ℕ) → v < 2 ^ 32 → Reads get_u32 (put_u32 v) v
unfolding get_u32 put_u32
get-put_u32 v h =
    subst (Reads get_u32 (put_u32 v)) (omega (arith, h))
      (last-Reads _ (get_bytes-Reads (put_u32 v)))

pub get-put_u64 : (v : ℕ) → v < 2 ^ 64 → Reads get_u64 (put_u64 v) v
unfolding get_u64 put_u64
get-put_u64 v h =
    subst (Reads get_u64 (put_u64 v)) (omega (arith, h))
      (last-Reads (word_from 0) (get_bytes-Reads (put_u64 v)))

to_signed-to_unsigned : (v : ℤ) → fits 63 v ≡ true → to_signed 64 (to_unsigned 64 v) ≡ v
unfolding to_signed to_unsigned
to_signed-to_unsigned (pos n) h = ground arith
to_signed-to_unsigned (negsuc n) h = ground arith

to_signed-to_unsigned_32 : (v : ℤ) → fits 31 v ≡ true → to_signed 32 (to_unsigned 32 v) ≡ v
unfolding to_signed to_unsigned
to_signed-to_unsigned_32 (pos n) h = ground arith
to_signed-to_unsigned_32 (negsuc n) h = ground arith

to_unsigned_bound : (v : ℤ) → to_unsigned 64 v < 2 ^ 64
unfolding to_unsigned
to_unsigned_bound (pos n) = ground arith
to_unsigned_bound (negsuc n) = ground arith

to_unsigned_bound_32 : (v : ℤ) → to_unsigned 32 v < 2 ^ 32
unfolding to_unsigned
to_unsigned_bound_32 (pos n) = ground arith
to_unsigned_bound_32 (negsuc n) = ground arith

-- An int64_t in its range is read back.
pub get-put_i64 : (v : ℤ) → fits 63 v ≡ true → Reads get_i64 (put_i64 v) v
unfolding get_i64 put_i64
get-put_i64 v h =
    subst (Reads get_i64 (put_i64 v)) (to_signed-to_unsigned v h)
      (last-Reads (to_signed 64) (get-put_u64 (to_unsigned 64 v) (to_unsigned_bound v)))

-- A double is read back where the copies of its bits are inverse.
pub get-put_f64 :
    {F : Type 0} ⦃fl : Floats F⦄ (v : F)
    → fl.bits v < 2 ^ 64
    → fl.of_bits (fl.bits v) ≡ v
    → Reads get_f64 (put_f64 v) v
unfolding get_f64 put_f64
get-put_f64 ⦃fl⦄ v h e =
    subst (Reads get_f64 (put_f64 v)) e (last-Reads fl.of_bits (get-put_u64 (fl.bits v) h))

pub allocate-Reads : (capacity n : ℕ) → n ≤ capacity → Reads (allocate capacity n) [] tt
unfolding allocate
allocate-Reads capacity n h =
    let room : leb n capacity ≡ true = ground arith in record { reads = λ rest. rw room refl }

-- A text of a length that can be allocated is read back.
pub get-put_str :
    (capacity : ℕ) (s : Bytes)
    → capacity < 2 ^ 64
    → length s ≤ capacity
    → Reads (get_str capacity) (put_str s) s
unfolding get_str put_str
get-put_str capacity s c h =
    bind-Reads _ (get-put_u64 (length s) (omega arith))
      (bind-Reads _ (allocate-Reads capacity (length s) h) (get_bytes-Reads s))

char-Reads : (c : ℕ) → Reads get_char (c ∷ []) c
unfolding get_char
char-Reads c = record { reads = λ rest. refl }

-- What a DataType has in memory: an enumerator or another byte, and members of their C++ types.
pub record FitsFile (t : DataType) : Type 0 where
  pub byte : type_code t.id < 256
  pub named : type_of_code (type_code t.id) ≡ t.id
  pub length_fits : fits 31 t.max_length ≡ true

flag_byte-back : (b : Bool) → not (flag_byte b == 0) ≡ b
flag_byte-back true = refl
flag_byte-back false = refl

small_code : (n : ℕ) → n < 256 → n < 2 ^ 32
small_code n h = omega arith

byte_back : (n : ℕ) → n < 256 → n % 256 ≡ n
byte_back n h = omega arith

pub get-put_data_type : (t : DataType) → FitsFile t → Reads get_data_type (put_data_type t) t
unfolding get_data_type put_data_type
get-put_data_type t h =
    let last =
      last-Reads
        (λ max_length. record {
          id = type_of_code (type_code t.id % 256);
          nullable = not (flag_byte t.nullable == 0);
          scale = t.scale;
          precision = t.precision;
          max_length = to_signed 32 max_length;
        })
        (get-put_u32 (to_unsigned 32 t.max_length) (to_unsigned_bound_32 t.max_length)) in
    let same : record {
      id = type_of_code (type_code t.id % 256);
      nullable = not (flag_byte t.nullable == 0);
      scale = t.scale;
      precision = t.precision;
      max_length = to_signed 32 (to_unsigned 32 t.max_length);
    }
        ≡ t =
      rw
        (
          ap type_of_code (byte_back (type_code t.id) h.byte) ∙ h.named,
          flag_byte-back t.nullable,
          to_signed-to_unsigned_32 t.max_length h.length_fits,
        )
        refl in
    subst (Reads get_data_type (put_data_type t)) same (
      bind-Reads _ (get-put_u32 (type_code t.id) (small_code (type_code t.id) h.byte)) (
        bind-Reads _ (char-Reads (flag_byte t.nullable))
          (bind-Reads _ (char-Reads t.scale) (bind-Reads _ (char-Reads t.precision) last))))
