-- ===== src/Storage/Bitmap.antt =====
-- src/storage/column.h, ValidityBitmap: one bit for each row of a column, 1 where the row has a value.
pub mod Bits
pub mod Flags
use lite_query.Prelude.{
  ℕ, zero, suc, ◌+◌, ◌/◌, ◌%◌, ◌^◌, Bool, true, false, not, ◌||◌, leb, ◌==◌, if◌then◌else◌, List,
  [], ◌∷◌, ◌++◌, length, get_elem?, get_or, set, Option, none, some,
}
use lite_query.Prelude.Result.{Result, ok, err, undefined, ◌>>=◌}

-- `bits_` is a vector of 64-bit words.
pub record ValidityBitmap : Type 0 where
  pub words : List ℕ
  pub count : ℕ
  pub any_null : Bool

abbrev pub empty_bitmap : ValidityBitmap
empty_bitmap = record { words = []; count = 0; any_null = false }

-- `(w >> k) & 1`
unfoldable pub bit : ℕ → ℕ → Bool
bit w k = (w / 2 ^ k) % 2 == 1

-- `w | (uint64_t{1} << k)`, for k < 64
unfoldable pub set_bit : ℕ → ℕ → ℕ
unfolding bit
set_bit w k = if bit w k then w else w + 2 ^ k

unfoldable pub push : Bool → ValidityBitmap → ValidityBitmap
unfolding set_bit
push valid b =
    let word = b.count / 64 in
    let words = if leb (length b.words) word then b.words ++ 0 ∷ [] else b.words in
    record {
      words =
          if valid then set words word (set_bit (get_or words word 0) (b.count % 64)) else words;
      count = b.count + 1;
      any_null = if valid then b.any_null else true;
    }

abbrev word_bit : ℕ → Option ℕ → Result Bool
unfolding bit
word_bit k none = err undefined
word_bit k (some w) = ok (bit w k)

-- A word that is not there is read out of range.
unfoldable pub is_valid : ValidityBitmap → ℕ → Result Bool
unfolding word_bit
is_valid b i = word_bit (i % 64) (get_elem? b.words (i / 64))

-- `for (size_t i = 0; i < count; ++i) if (!isValid(i)) { anyNull_ = true; break; }` with `n` rounds left
unfoldable pub find_null : ValidityBitmap → ℕ → ℕ → Result Bool
unfolding is_valid
find_null b zero i = ok false
find_null b (suc n) i = do
  valid ← is_valid b i
  let rest = find_null b n (suc i)
  if valid then rest else ok true

unfoldable pub assign_raw : List ℕ → ℕ → Result ValidityBitmap
unfolding find_null
assign_raw words count =
    let b : ValidityBitmap = record { words = words; count = count; any_null = false } in
    do found ← find_null b count 0; ok (record b { any_null = found })
