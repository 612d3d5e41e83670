-- ===== src/Types/Schema/Lookup.antt =====
-- What indexOf finds, and where it looks in a merged schema.
use lite_query.Prelude.{
  ◌&&◌, ltb, ◌==◌, if◌then◌else◌, bytes_eq_refl, ◌∙◌, false≢true, sym, All, ◌≢◌, map, bytes_eq,
  bytes_eq-eq, length-map, ℕ, zero, suc, ◌+◌, ◌<◌, ◌≡◌, refl, ap, true, false, arith, Bytes, Option,
  none, some, [], ◌∷◌, ◌++◌, length, get_elem?, Bool-cases, inl, inr,
}
use lite_query.Types.Schema.{
  strncasecmp_eq, to_lower, ColumnDef, Schema, same_name, index_from, index_of, merge,
}

-- A name without regard to the case of its ASCII letters.
unfoldable pub lowered : Bytes → Bytes
lowered = map (λ c. if ltb b'@' c && ltb c b'[' then 32 + c else c)

lowered-to_lower : (c : ℕ) → to_lower c ≡ (if ltb b'@' c && ltb c b'[' then 32 + c else c)
unfolding to_lower
lowered-to_lower c = ground arith

==-eq : (m n : ℕ) → (m == n) ≡ true → m ≡ n
==-eq m n h = ground arith

to_lower-zero : (c : ℕ) → c ≢ 0 → (to_lower c == 0) ≡ false
unfolding to_lower
to_lower-zero c h = ground arith

-- A name that is a text of C: no byte of it is NUL.
abbrev pub IsText : Bytes → Type 0
IsText s = All (λ c. c ≢ 0) s

-- The loop's test is the equality without regard to case, on a name that is a text.
strncasecmp-lowered :
    (a b : Bytes)
    → length a ≡ length b
    → IsText b
    → strncasecmp_eq (length b) a b ≡ bytes_eq (lowered a) (lowered b)
unfolding strncasecmp_eq lowered bytes_eq
strncasecmp-lowered [] [] e t = refl
strncasecmp-lowered [] (d ∷ b) e t = absurd (omega (arith, e))
strncasecmp-lowered (c ∷ a) [] e t = absurd (omega (arith, e))
strncasecmp-lowered (c ∷ a) (d ∷ b) e t =
    let rest = strncasecmp-lowered a b (omega (arith, e)) t.1 in
    rw (sym (lowered-to_lower c), sym (lowered-to_lower d))
      (elim (Bool-cases (to_lower c == to_lower d)) [
        | inl same ↦
            let not_end : (to_lower c == 0) ≡ false = rw (==-eq _ _ same) (to_lower-zero d t.0) in
            rw (same, not_end) rest
        | inr other ↦ rw other refl
      ])

length-lowered : (s : Bytes) → length (lowered s) ≡ length s
unfolding lowered
length-lowered s = length-map s _

same_name-lowered : (a b : Bytes) → IsText b → same_name a b ≡ bytes_eq (lowered a) (lowered b)
unfolding same_name
same_name-lowered a b t = elim (Bool-cases (length a == length b)) [
  | inl e ↦ rw e (strncasecmp-lowered a b (==-eq _ _ e) t)
  | inr e ↦ rw e (elim (Bool-cases (bytes_eq (lowered a) (lowered b))) [
    | inl k ↦
        absurd (ground (arith, ap length (bytes_eq-eq _ _ k), length-lowered a, length-lowered b))
    | inr k ↦ sym k
  ])
]

same_name-true : (a b : Bytes) → IsText b → same_name a b ≡ true → lowered a ≡ lowered b
same_name-true a b t h = bytes_eq-eq _ _ (sym (same_name-lowered a b t) ∙ h)

same_name-false : (a b : Bytes) → IsText b → same_name a b ≡ false → lowered a ≢ lowered b
same_name-false a b t h same = false≢true (
    sym h
    ∙ same_name-lowered a b t
    ∙ ap (λ k. bytes_eq k (lowered b)) same
    ∙ bytes_eq_refl (lowered b))

-- Column `k` has the name, and no column before it does.
pub record IsFirst (s : Schema) (name : Bytes) (k : ℕ) : Type 0 where
  pub column : ColumnDef
  pub at : get_elem? s k ≡ some column
  pub same : lowered column.name ≡ lowered name
  pub earlier :
      (j : ℕ) (c : ColumnDef) → j < k → get_elem? s j ≡ some c → lowered c.name ≢ lowered name

-- No column has the name.
abbrev pub IsAbsent : Schema → Bytes → Type 0
IsAbsent s name = (j : ℕ) (c : ColumnDef) → get_elem? s j ≡ some c → lowered c.name ≢ lowered name

-- What the answer of indexOf has to mean.
abbrev pub Answers : Schema → Bytes → Option ℕ → Type 0
Answers s name none = IsAbsent s name
Answers s name (some k) = IsFirst s name k

-- An answer for the tail, behind a column with another name.
abbrev shift : Option ℕ → Option ℕ
shift none = none
shift (some k) = some (suc k)

index_from-suc :
    (i : ℕ) (s : Schema) (name : Bytes) → index_from (suc i) s name ≡ shift (index_from i s name)
unfolding index_from
index_from-suc i [] name = refl
index_from-suc i (c ∷ s) name = elim (Bool-cases (same_name c.name name)) [
  | inl e ↦ rw e
  | inr e ↦ rw e (index_from-suc (suc i) s name)
]

head-IsFirst :
    (c : ColumnDef) (s : Schema) (name : Bytes)
    → lowered c.name ≡ lowered name
    → IsFirst (c ∷ s) name 0
head-IsFirst c s name e = record {
  column = c;
  at = refl;
  same = e;
  earlier = λ j d lt h. absurd (omega arith);
}

some-injective {ℓ} : {A : Type ℓ} {a b : A} → some a ≡ some b → a ≡ b
some-injective h = cc

head-differs :
    (c d : ColumnDef) (s : Schema) (name : Bytes)
    → lowered c.name ≢ lowered name
    → get_elem? (c ∷ s) 0 ≡ some d
    → lowered d.name ≢ lowered name
head-differs c d s name e p same = e (ap (λ k. lowered k.name) (some-injective p) ∙ same)

none-here :
    (c : ColumnDef) (s : Schema) (name : Bytes)
    → lowered c.name ≢ lowered name
    → (k : ℕ)
    → ((j : ℕ) (d : ColumnDef) → j < k → get_elem? s j ≡ some d → lowered d.name ≢ lowered name)
    → (j : ℕ) (d : ColumnDef) → j < suc k
    → get_elem? (c ∷ s) j ≡ some d
    → lowered d.name ≢ lowered name
none-here c s name e k h zero d lt p = head-differs c d s name e p
none-here c s name e k h (suc j) d lt p = h j d (omega arith) p

IsAbsent-cons :
    (c : ColumnDef) (s : Schema) (name : Bytes)
    → lowered c.name ≢ lowered name
    → IsAbsent s name
    → IsAbsent (c ∷ s) name
IsAbsent-cons c s name e h zero d p = head-differs c d s name e p
IsAbsent-cons c s name e h (suc j) d p = h j d p

answer-cons :
    (c : ColumnDef) (s : Schema) (name : Bytes) (o : Option ℕ)
    → lowered c.name ≢ lowered name
    → Answers s name o
    → Answers (c ∷ s) name (shift o)
answer-cons c s name none e h = IsAbsent-cons c s name e h
answer-cons c s name (some k) e h = record {
  column = h.column;
  at = h.at;
  same = h.same;
  earlier = none-here c s name e k h.earlier;
}

-- indexOf of a name without a NUL byte answers with the first column whose name is the same without
-- regard to the case of ASCII letters, or that there is none.
pub index_of-Answers : (s : Schema) (name : Bytes) → IsText name → Answers s name (index_of s name)
unfolding index_of index_from
index_of-Answers [] name t = λ j c p. cc
index_of-Answers (c ∷ s) name t = elim (Bool-cases (same_name c.name name)) [
  | inl e ↦ rw e (head-IsFirst c s name (same_name-true c.name name t e))
  | inr e ↦
      rw (e, index_from-suc 0 s name)
        (answer-cons c s name (index_from 0 s name) (same_name-false c.name name t e)
          (index_of-Answers s name t))
]

-- Where the answer for a merged schema comes from: the left schema shadows the right one.
abbrev pub merged_index : ℕ → Option ℕ → Option ℕ → Option ℕ
merged_index n (some k) r = some k
merged_index n none none = none
merged_index n none (some k) = some (n + k)

merged_zero : (r : Option ℕ) → r ≡ merged_index 0 none r
merged_zero none = refl
merged_zero (some k) = ap some (omega arith)

shift-merged :
    (n : ℕ) (l r : Option ℕ) → shift (merged_index n l r) ≡ merged_index (suc n) (shift l) r
shift-merged n (some k) r = refl
shift-merged n none none = refl
shift-merged n none (some k) = ap some (omega arith)

-- In a merged schema a name means the left column, if there is one, and else the right column.
pub index_of-merge :
    (l r : Schema) (name : Bytes)
    → index_of (merge l r) name ≡ merged_index (length l) (index_of l name) (index_of r name)
unfolding index_of index_from merge
index_of-merge [] r name = merged_zero (index_from 0 r name)
index_of-merge (c ∷ l) r name = elim (Bool-cases (same_name c.name name)) [
  | inl e ↦ rw e
  | inr e ↦
      rw (e, index_from-suc 0 (l ++ r) name, index_from-suc 0 l name, index_of-merge l r name)
        (shift-merged (length l) (index_from 0 l name) (index_from 0 r name))
]
