-- ===== src/Execution/Operator/Join/Widths.antt =====
-- src/execution/physical_plan.cpp, HashJoin: the rows of a join are as wide as the two schemas together.
use lite_query.Prelude.{
  ℕ, zero, suc, ◌+◌, ◌≡◌, refl, ap, arith, Bool, true, false, List, [], ◌∷◌, ◌++◌, map, length,
  length-append, filter, if◌then◌else◌, Bool-cases, inl, inr,
}
use lite_query.Types.Value.{Row}
use lite_query.Types.Batch.Contents.{Widths, Widths-append}
use lite_query.Parser.Ast.{JoinType}
use lite_query.Execution.Operator.{Operator}
use lite_query.Execution.Operator.Stream.{Yields, eos, more}
use lite_query.Execution.Operator.Join.Pairs.{nulls}
use lite_query.Execution.Operator.Join.Pairs.{any, pairs_of, all_pairs, unmatched_pairs, join_spec}

-- What an operator produces is as wide as its schema.
pub Yields-Widths :
    {F S : Type 0} (op : Operator F S) {s : S} {rows : List (Row F)}
    → Yields op s rows
    → Widths (length op.schema) rows
Yields-Widths op (eos b s' e z) = tt
Yields-Widths op (more b s' rows rest e hb p y split) =
    rw split (Widths-append (length op.schema) rows rest hb.widths (Yields-Widths op y))

length-nulls : (F : Type 0) (n : ℕ) → length (nulls {F = F} n) ≡ n
unfolding nulls
length-nulls F zero = refl
length-nulls F (suc n) = ap suc (length-nulls F n)

module _ {F : Type 0} where
  pub filter-Widths :
      (p : Row F → Bool) (n : ℕ) (rows : List (Row F)) → Widths n rows → Widths n (filter p rows)
  filter-Widths p n [] w = tt
  filter-Widths p n (row ∷ rows) w = elim (Bool-cases (p row)) [
    | inl e ↦ rw e (w.0, filter-Widths p n rows w.1)
    | inr e ↦ rw e (filter-Widths p n rows w.1)
  ]

  beside-Widths :
      (l : Row F) (m n : ℕ) (rows : List (Row F))
      → length l ≡ m
      → Widths n rows
      → Widths (m + n) (map (λ r. l ++ r) rows)
  beside-Widths l m n [] e w = tt
  beside-Widths l m n (r ∷ rows) e w =
      (omega (arith, length-append l r, e, w.0), beside-Widths l m n rows e w.1)

  if-Widths :
      (b : Bool) (n : ℕ) (xs ys : List (Row F))
      → Widths n xs
      → Widths n ys
      → Widths n (if b then xs else ys)
  if-Widths true n xs ys p q = p
  if-Widths false n xs ys p q = q

module _ {F : Type 0} (matches : Row F → Row F → Bool) (outer : Bool) (m n : ℕ) where
  pairs_of-Widths :
      (right_rows : List (Row F)) (l : Row F)
      → length l ≡ m
      → Widths n right_rows
      → Widths (m + n) (pairs_of matches outer n right_rows l)
  unfolding pairs_of
  pairs_of-Widths right_rows l e w =
      let extended : Widths (m + n) ((l ++ nulls n) ∷ []) =
        (omega (arith, length-append l (nulls n), length-nulls F n, e), tt) in
      Widths-append (m + n) _ _
        (beside-Widths l m n (filter (matches l) right_rows) e
          (filter-Widths (matches l) n right_rows w))
        (if-Widths (any (matches l) right_rows) (m + n) [] _ tt
          (if-Widths outer (m + n) ((l ++ nulls n) ∷ []) [] extended tt))

  all_pairs-Widths :
      (rows right_rows : List (Row F))
      → Widths m rows
      → Widths n right_rows
      → Widths (m + n) (all_pairs matches outer n right_rows rows)
  unfolding all_pairs
  all_pairs-Widths [] right_rows v w = tt
  all_pairs-Widths (l ∷ rows) right_rows v w =
      Widths-append (m + n) _ _ (pairs_of-Widths right_rows l v.0 w)
        (all_pairs-Widths rows right_rows v.1 w)

module _ {F : Type 0} (matches : Row F → Row F → Bool) (m n : ℕ) where
  unmatched_pairs-Widths :
      (ls rs : List (Row F)) → Widths n rs → Widths (m + n) (unmatched_pairs matches m ls rs)
  unfolding unmatched_pairs
  unmatched_pairs-Widths ls rs w =
      beside-Widths (nulls m) m n _ (length-nulls F m) (filter-Widths _ n rs w)

  outer-Widths :
      (outer : Bool) (ls rs : List (Row F))
      → Widths m ls
      → Widths n rs
      → Widths (m + n) (all_pairs matches outer n rs ls ++ unmatched_pairs matches m ls rs)
  outer-Widths outer ls rs v w =
      Widths-append (m + n) _ _ (all_pairs-Widths matches outer m n ls rs v w)
        (unmatched_pairs-Widths ls rs w)

  pub join_spec-Widths :
      (kind : JoinType) (ls rs : List (Row F))
      → Widths m ls
      → Widths n rs
      → Widths (m + n) (join_spec matches kind m n ls rs)
  unfolding join_spec
  join_spec-Widths JoinType.inner = all_pairs-Widths matches false m n
  join_spec-Widths JoinType.left = all_pairs-Widths matches true m n
  join_spec-Widths JoinType.right = outer-Widths false
  join_spec-Widths JoinType.full = outer-Widths true
  join_spec-Widths JoinType.cross = all_pairs-Widths matches false m n
