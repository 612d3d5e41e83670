-- ===== src/Execution/Operator/Sort/Integers.antt =====
-- src/execution/physical_plan.cpp, Sort: a key of integers and NULLs orders the rows strictly and weakly.
use lite_query.Prelude.{
  ◌∙◌, ◌≡◌, refl, sym, ap, arith, Bool, true, false, not, false≢true, if◌then◌else◌, Option, none,
  some, [], ◌∷◌,
}
use lite_query.Prelude.Int.{ℤ, ltb_ℤ}
use lite_query.Prelude.Result.{ok, ◌>>=◌}
use lite_query.Types.Floats.{Floats}
use lite_query.Types.Value.{Value, Row, null, int64, is_null, value_lt, same_type_lt, type_id}
use lite_query.Types.Schema.{Schema}
use lite_query.Parser.Ast.{SortOrder, NullsOrder}
use lite_query.Execution.Eval.{evaluate}
use lite_query.Execution.Operator.Sort.{
  Key, nulls_come_first, by_direction, key_verdict, or_later, row_less,
}
use lite_query.Execution.Operator.Sort.Stable.{Ordering}

-- The order of the integers by the direction, with the NULLs before or behind all of them.
unfoldable pub before : SortOrder → Bool → Option ℤ → Option ℤ → Bool
before order first none none = false
before order first none (some b) = first
before order first (some a) none = not first
before SortOrder.asc first (some a) (some b) = ltb_ℤ a b
before SortOrder.desc first (some a) (some b) = ltb_ℤ b a

asymmetric_ltb : (a b : ℤ) → ltb_ℤ a b ≡ true → ltb_ℤ b a ≡ false
asymmetric_ltb a b h = ground arith

cotransitive_ltb : (a b c : ℤ) → ltb_ℤ a b ≡ false → ltb_ℤ b c ≡ false → ltb_ℤ a c ≡ false
cotransitive_ltb a b c h k = ground arith

not_false : (b : Bool) → b ≡ false → not b ≡ false → {A : Type 0} → A
not_false true h k = absurd (false≢true (sym h))
not_false false h k = absurd (false≢true (sym k))

not_back : (b : Bool) → not b ≡ true → b ≡ false
not_back true h = sym h
not_back false h = refl

not_true : (b : Bool) → b ≡ true → not b ≡ false
not_true true h = refl
not_true false h = sym h

before_asymmetric :
    (order : SortOrder) (first : Bool) (a b : Option ℤ)
    → before order first a b ≡ true
    → before order first b a ≡ false
unfolding before
before_asymmetric order first none none h = refl
before_asymmetric order first none (some b) h = not_true first h
before_asymmetric order first (some a) none h = not_back first h
before_asymmetric SortOrder.asc first (some a) (some b) h = asymmetric_ltb a b h
before_asymmetric SortOrder.desc first (some a) (some b) h = asymmetric_ltb b a h

before_cotransitive :
    (order : SortOrder) (first : Bool) (a b c : Option ℤ)
    → before order first a b ≡ false
    → before order first b c ≡ false
    → before order first a c ≡ false
unfolding before
before_cotransitive order first none none none h k = refl
before_cotransitive order first none none (some c) h k = k
before_cotransitive order first none (some b) none h k = refl
before_cotransitive order first none (some b) (some c) h k = h
before_cotransitive order first (some a) none none h k = h
before_cotransitive order first (some a) none (some c) h k = not_false first k h
before_cotransitive order first (some a) (some b) none h k = k
before_cotransitive SortOrder.asc first (some a) (some b) (some c) h k = cotransitive_ltb a b c h k
before_cotransitive SortOrder.desc first (some a) (some b) (some c) h k = cotransitive_ltb c b a k h

less_first :
    (l g : Bool)
    → or_later (if l then some true else if g then some false else none) (ok false) ≡ ok l
less_first true g = refl
less_first false true = refl
less_first false false = refl

greater_first :
    (l g : Bool)
    → (l ≡ true → g ≡ false)
    → or_later (if l then some false else if g then some true else none) (ok false) ≡ ok g
greater_first true g h = ap ok (sym (h refl))
greater_first false true h = refl
greater_first false false h = refl

module _ {F : Type 0} ⦃fl : Floats F⦄ where
  abbrev pub key_value : Option ℤ → Value F
  key_value none = null
  key_value (some n) = int64 n

verdict-before :
    (F : Type 0) ⦃fl : Floats F⦄ (order : SortOrder) (nulls : NullsOrder) (a b : Option ℤ)
    → (key_verdict order nulls (key_value {F = F} a) (key_value b) >>= (λ v. or_later v (ok false)))
      ≡ ok (before order (nulls_come_first nulls order) a b)
unfolding key_verdict before is_null value_lt same_type_lt type_id by_direction
verdict-before F order nulls none none = refl
verdict-before F order nulls none (some b) = refl
verdict-before F order nulls (some a) none = refl
verdict-before F SortOrder.asc nulls (some a) (some b) = less_first (ltb_ℤ a b) (ltb_ℤ b a)
verdict-before F SortOrder.desc nulls (some a) (some b) =
    greater_first (ltb_ℤ a b) (ltb_ℤ b a) (asymmetric_ltb a b)

-- The order of integers with NULL as the least value.
unfoldable pub null_least : Option ℤ → Option ℤ → Bool
null_least _ none = false
null_least none (some b) = true
null_least (some a) (some b) = ltb_ℤ a b

-- What ORDER BY asks of such a key: without NULLS FIRST or NULLS LAST the order with NULL as the least
-- value, or its reverse; with one of them the NULLs in front of, or behind, the integers.
unfoldable pub asked : NullsOrder → SortOrder → Option ℤ → Option ℤ → Bool
unfolding null_least
asked NullsOrder.unspecified SortOrder.asc a b = null_least a b
asked NullsOrder.unspecified SortOrder.desc a b = null_least b a
asked NullsOrder.nulls_first order none (some b) = true
asked NullsOrder.nulls_first order _ none = false
asked NullsOrder.nulls_last order none _ = false
asked NullsOrder.nulls_last order (some a) none = true
asked nulls SortOrder.asc (some a) (some b) = ltb_ℤ a b
asked nulls SortOrder.desc (some a) (some b) = ltb_ℤ b a

before-asked :
    (nulls : NullsOrder) (order : SortOrder) (a b : Option ℤ)
    → before order (nulls_come_first nulls order) a b ≡ asked nulls order a b
unfolding before nulls_come_first asked null_least
before-asked NullsOrder.unspecified SortOrder.asc a b = ground arith
before-asked NullsOrder.unspecified SortOrder.desc a b = ground arith
before-asked NullsOrder.nulls_first SortOrder.asc a b = ground arith
before-asked NullsOrder.nulls_first SortOrder.desc a b = ground arith
before-asked NullsOrder.nulls_last SortOrder.asc a b = ground arith
before-asked NullsOrder.nulls_last SortOrder.desc a b = ground arith

-- On rows in which a key has integers and NULLs as its values, the comparator of Sort by that key is a
-- strict weak ordering: that of the key's direction. NULL counts as the least value, which comes last
-- in descending order, unless NULLS FIRST or NULLS LAST is said; these hold in either direction.
pub integer_key-Ordering :
    {F : Type 0} ⦃fl : Floats F⦄ (k : Key F) (schema : Schema) (key_of : Row F → Option ℤ)
    → Ordering
        (λ row. evaluate schema row k.expr ≡ ok (key_value (key_of row)))
        (row_less (k ∷ []) schema)
        (λ a b. asked k.nulls k.order (key_of a) (key_of b))
unfolding row_less
integer_key-Ordering {F} k schema key_of =
    let first = nulls_come_first k.nulls k.order in
    let same : (a b : Option ℤ) → asked k.nulls k.order a b ≡ before k.order first a b =
      λ a b. sym (before-asked k.nulls k.order a b) in
    record {
      answers = λ a b pa pb.
          rw (pa, pb)
            (verdict-before F k.order k.nulls (key_of a) (key_of b)
              ∙ ap ok (before-asked k.nulls k.order (key_of a) (key_of b)));
      asymmetric = λ a b pa pb h.
          same (key_of b) (key_of a)
          ∙ before_asymmetric k.order first (key_of a) (key_of b)
              (before-asked k.nulls k.order (key_of a) (key_of b) ∙ h);
      cotransitive = λ a b c pa pb pc h h'.
          same (key_of a) (key_of c)
          ∙ before_cotransitive k.order first (key_of a) (key_of b) (key_of c)
              (before-asked k.nulls k.order (key_of a) (key_of b) ∙ h)
              (before-asked k.nulls k.order (key_of b) (key_of c) ∙ h');
    }
