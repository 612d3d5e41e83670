-- ===== src/Storage/Persistence/Reader.antt =====
-- src/storage/persistence.cpp: reading from the front of a stream, with what can be said of a reader:
-- that it reads a value back from its bytes, and what it does where the stream ends too early.
use lite_query.Prelude.{
  inr, inl, ◌⊎◌, ℕ, zero, suc, ◌≡◌, refl, ap, ◌∙◌, subst, List, [], ◌∷◌, ◌++◌, append_assoc,
  append-nil, length, All, Bytes,
}
use lite_query.Prelude.Result.{persistence_error, Result, ok, err, >>=-eq-ok, ok-injective}
use lite_query.Prelude.Result

-- What is read, and the rest of the stream.
abbrev pub Reader : Type 0 → Type 0
Reader A = Bytes → Result (A × Bytes)

abbrev pub return_read : {A : Type 0} → A → Reader A
return_read a is = ok (a, is)

module _ {A B : Type 0} where
  infixl 5 ◌>>=◌
  unfoldable pub ◌>>=◌ : Reader A → (A → Reader B) → Reader B
  (r >>= next) is = Result.◌>>=◌ (r is) (λ x. next x.0 x.1)

module _ {A : Type 0} where
  -- `n` rounds of a loop that reads one element.
  unfoldable pub repeat_read : ℕ → Reader A → Reader (List A)
  unfolding ◌>>=◌
  repeat_read zero r = return_read []
  repeat_read (suc n) r = r >>= (λ x. repeat_read n r >>= (λ xs. return_read (x ∷ xs)))

  -- The bytes of a list of elements.
  abbrev pub write_all : (A → Bytes) → List A → Bytes
  write_all write [] = []
  write_all write (x ∷ xs) = write x ++ write_all write xs

  -- Whatever is behind them, the bytes are read as the value and taken from the stream.
  pub record Reads (r : Reader A) (xs : Bytes) (a : A) : Type 0 where
    pub reads : (rest : Bytes) → r (xs ++ rest) ≡ ok (a, rest)

  -- On the front part of a stream, a reader reads what it reads from the whole of it, or throws
  -- PersistenceError.
  abbrev pub CutAt : Reader A → Bytes → Bytes → A → Bytes → Type 0
  CutAt r is behind a rest =
      ((left : Bytes) × (r is ≡ ok (a, left)) × (left ++ behind ≡ rest))
      ⊎ (r is ≡ err persistence_error)

  pub record Cut (r : Reader A) : Type 0 where
    pub cut :
        (is behind : Bytes) (a : A) (rest : Bytes)
        → r (is ++ behind) ≡ ok (a, rest)
        → CutAt r is behind a rest

  pub return-Cut : (a : A) → Cut (return_read a)
  return-Cut a = record {
    cut = λ is behind b rest h.
        inl (is, ap (λ x. ok (x.0, is)) (ok-injective h), ap (λ x. x.1) (ok-injective h));
  }

module _ {A B : Type 0} where
  pub bind-Reads :
      {r : Reader A} (next : A → Reader B) {xs ys : Bytes} {a : A} {b : B}
      → Reads r xs a
      → Reads (next a) ys b
      → Reads (r >>= next) (xs ++ ys) b
  unfolding ◌>>=◌
  bind-Reads {r} next {xs} {ys} {a} {b} h k = record {
    reads = λ rest.
        ap (λ is. (r >>= next) is) (append_assoc xs ys rest)
        ∙ ap (λ o. Result.◌>>=◌ o (λ x. next x.0 x.1)) (h.reads (ys ++ rest))
        ∙ k.reads rest;
  }

  -- A step that reads nothing more.
  pub then-Reads :
      {r : Reader A} (next : A → Reader B) {xs : Bytes} {a : A} {b : B}
      → Reads r xs a
      → Reads (next a) [] b
      → Reads (r >>= next) xs b
  then-Reads {r} next {xs} {b = b} h k =
      subst (λ ys. Reads (r >>= next) ys b) (append-nil xs) (bind-Reads next h k)

  -- The last reading step, whose value goes into the result.
  pub last-Reads :
      {r : Reader A} {xs : Bytes} {a : A} (f : A → B)
      → Reads r xs a
      → Reads (r >>= (λ x. return_read (f x))) xs (f a)
  unfolding ◌>>=◌
  last-Reads f h = record {
    reads = λ rest. ap (λ o. Result.◌>>=◌ o (λ x. ok (f x.0, x.1))) (h.reads rest);
  }

  pub bind-Cut :
      {r : Reader A} {next : A → Reader B} → Cut r → ((a : A) → Cut (next a)) → Cut (r >>= next)
  unfolding ◌>>=◌
  bind-Cut {r} {next} h k = record {
    cut = λ is behind b rest e.
        let (x, first, later) = >>=-eq-ok (r (is ++ behind)) (λ x. next x.0 x.1) e in
        elim (h.cut is behind x.0 x.1 first) [
          | inl (left, p, q) ↦ rw p ((k x.0).cut left behind b rest (rw q later))
          | inr p ↦ inr (rw p refl)
        ];
  }

module _ {A : Type 0} where
  pub repeat-Cut : (n : ℕ) {r : Reader A} → Cut r → Cut (repeat_read n r)
  unfolding repeat_read
  repeat-Cut zero {r} h = return-Cut []
  repeat-Cut (suc n) {r} h = bind-Cut h (λ x. bind-Cut (repeat-Cut n h) (λ xs. return-Cut (x ∷ xs)))

  -- Elements that are read back one by one are read back by the loop.
  pub repeat-Reads :
      (r : Reader A) (write : A → Bytes) (l : List A)
      → All (λ x. Reads r (write x) x) l
      → Reads (repeat_read (length l) r) (write_all write l) l
  unfolding repeat_read
  repeat-Reads r write [] a = record { reads = λ rest. refl }
  repeat-Reads r write (x ∷ l) a =
      bind-Reads _ a.0 (last-Reads (λ xs. x ∷ xs) (repeat-Reads r write l a.1))
