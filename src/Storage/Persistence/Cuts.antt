-- ===== src/Storage/Persistence/Cuts.antt =====
-- src/storage/persistence.cpp, Reader: what is read where the stream ends too early.
use lite_query.Prelude.{
  ℕ, zero, suc, ◌≡◌, refl, ap, arith, true, leb, Bool-cases, inl, inr, [], ◌∷◌, ◌++◌, length,
  length-append, take, drop, Bytes,
}
use lite_query.Prelude.Result.{persistence_error, err, ok, ok-injective}
use lite_query.Types.Floats.{Floats}
use lite_query.Types.DataType.{DataType}
use lite_query.Storage.Persistence.Reader.{
  CutAt, Reader, return_read, ◌>>=◌, Cut, bind-Cut, return-Cut,
}
use lite_query.Storage.Persistence.Codec.{
  get_bytes, get_u32, get_u64, get_i64, get_f64, allocate, get_str, get_char, get_data_type,
}

take-append_left :
    (n : ℕ) (xs ys : Bytes) → leb n (length xs) ≡ true → take n (xs ++ ys) ≡ take n xs
take-append_left zero xs ys h = refl
take-append_left (suc n) [] ys h = absurd (ground arith)
take-append_left (suc n) (x ∷ xs) ys h = ap (λ l. x ∷ l) (take-append_left n xs ys (ground arith))

drop-append_left :
    (n : ℕ) (xs ys : Bytes) → leb n (length xs) ≡ true → drop n (xs ++ ys) ≡ drop n xs ++ ys
drop-append_left zero xs ys h = refl
drop-append_left (suc n) [] ys h = absurd (ground arith)
drop-append_left (suc n) (x ∷ xs) ys h = drop-append_left n xs ys (ground arith)

pub get_bytes-Cut : (n : ℕ) → Cut (get_bytes n)
unfolding get_bytes
get_bytes-Cut n = record {
  cut = λ is behind a rest h. elim (Bool-cases (leb n (length is))) [
    | inl e ↦
        let still : leb n (length (is ++ behind)) ≡ true =
          ground (arith, length-append is behind) in
        let taken =
          ok-injective
            (rw (still, take-append_left n is behind e, drop-append_left n is behind e) at h) in
        inl (drop n is, rw e (ap (λ x. ok (x.0, drop n is)) taken), ap (λ x. x.1) taken)
    | inr e ↦ inr (rw e refl)
  ];
}

pub get_u32-Cut : Cut get_u32
unfolding get_u32
get_u32-Cut = bind-Cut (get_bytes-Cut 4) (λ b. return-Cut _)

pub get_u64-Cut : Cut get_u64
unfolding get_u64
get_u64-Cut = bind-Cut (get_bytes-Cut 8) (λ b. return-Cut _)

pub get_i64-Cut : Cut get_i64
unfolding get_i64
get_i64-Cut = bind-Cut get_u64-Cut (λ v. return-Cut _)

pub get_f64-Cut : {F : Type 0} ⦃fl : Floats F⦄ → Cut (get_f64 {F = F})
unfolding get_f64
get_f64-Cut = bind-Cut get_u64-Cut (λ v. return-Cut _)

pub allocate-Cut : (capacity n : ℕ) → Cut (allocate capacity n)
unfolding allocate
allocate-Cut capacity n = record {
  cut = λ is behind a rest h. elim (Bool-cases (leb n capacity)) [
    | inl e ↦
        let there = ok-injective (rw e at h) in
        inl (is, rw e (ap (λ x. ok (x.0, is)) there), ap (λ x. x.1) there)
    | inr e ↦ cc
  ];
}

pub get_str-Cut : (capacity : ℕ) → Cut (get_str capacity)
unfolding get_str
get_str-Cut capacity =
    bind-Cut get_u64-Cut (λ n. bind-Cut (allocate-Cut capacity n) (λ _. get_bytes-Cut n))

-- A read that throws PersistenceError on the empty stream.
record Strict {A : Type 0} (r : Reader A) : Type 0 where
  shorter : Cut r
  fails : r [] ≡ err persistence_error

-- A byte that may be missing, when what follows throws without it.
get_char-Strict :
    {A : Type 0} (next : ℕ → Reader A) → ((c : ℕ) → Strict (next c)) → Strict (get_char >>= next)
unfolding get_char ◌>>=◌
get_char-Strict {A = A} next h = record {
  shorter = record { cut = λ is behind a rest e. by_stream is behind a rest e };
  fails = (h 0).fails;
}
  where
    by_stream :
        (is behind : Bytes) (a : A) (rest : Bytes)
        → (get_char >>= next) (is ++ behind) ≡ ok (a, rest)
        → CutAt (get_char >>= next) is behind a rest
    by_stream [] behind a rest e = inr (h 0).fails
    by_stream (c ∷ is) behind a rest e = (h c).shorter.cut is behind a rest e

-- Reading a type throws where its bytes end too early, though its single bytes may be missing.
pub get_data_type-Cut : Cut get_data_type
unfolding get_data_type
get_data_type-Cut =
    let size : (f : ℕ → DataType) → Strict (get_u32 >>= (λ m. return_read (f m))) = λ f. record {
      shorter = bind-Cut get_u32-Cut (λ m. return-Cut (f m));
      fails = unfold get_u32 get_bytes ◌>>=◌ in refl;
    } in
    bind-Cut get_u32-Cut (λ id.
      (get_char-Strict _
        (λ nb. get_char-Strict _ (λ sc. get_char-Strict _ (λ pr. size _)))).shorter)
