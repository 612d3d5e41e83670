-- ===== src/Execution/Operator/Aggregate/Groups.antt =====
-- src/execution/physical_plan.cpp, HashAggregate::build: the groups are what a fold over the rows of
-- each key gives.
use lite_query.Prelude.{
  ◌≡◌, refl, sym, ap, ap₂, ◌∙◌, Bool, true, false, false≢true, not, ◌&&◌, ◌||◌, if◌then◌else◌,
  Bool-cases, inl, inr, Bytes, bytes_eq, bytes_eq-eq, bytes_eq_refl, bytes_eq_comm, none, some,
  List, [], ◌∷◌, ◌++◌, map, map-append, filter, append_assoc, append-nil,
}
use lite_query.Prelude.Result.{Result, ok, ok-injective, >>=-eq-ok, map_result}
use lite_query.Types.Floats.{Floats}
use lite_query.Types.Value.{Row}
use lite_query.Types.Schema.{Schema}
use lite_query.Types.Batch.Contents.{fold_result}
use lite_query.Parser.Ast.{Expr}
use lite_query.Execution.Eval.{evaluate}
use lite_query.Execution.Operator.Distinct.{row_key, key_seen}
use lite_query.Execution.Operator.Distinct.Firsts.{
  firsts, filter-filter, filter-congr, seen-absorbs, de_morgan_seen,
}
use lite_query.Execution.Operator.Aggregate.{
  emplaced, Agg, Cell, Group, Grouping, find_group, set_cells, new_cells, update_cells, with_group,
  update_group, aggregate_row,
}

or_true : (b : Bool) → (b || true) ≡ true
or_true true = refl
or_true false = refl

or_false : (b : Bool) → (b || false) ≡ false → b ≡ false
or_false true h = h
or_false false h = refl

or_comm : (a b : Bool) → (a || b) ≡ (b || a)
or_comm true true = refl
or_comm true false = refl
or_comm false true = refl
or_comm false false = refl

key_seen-snoc :
    (seen : List Bytes) (k x : Bytes)
    → key_seen (seen ++ k ∷ []) x ≡ (key_seen seen x || bytes_eq k x)
unfolding key_seen
key_seen-snoc [] k x = elim (Bool-cases (bytes_eq k x)) [ inl e ↦ rw e refl | inr e ↦ rw e refl ]
key_seen-snoc (s ∷ seen) k x = elim (Bool-cases (bytes_eq s x)) [
  | inl e ↦ rw e refl
  | inr e ↦ rw e (key_seen-snoc seen k x)
]

-- A state of the groups, by key, with one entry changed.
abbrev pub put {ℓ} : {A : Type ℓ} → (Bytes → A) → Bytes → A → Bytes → A
put cur k c x = if bytes_eq k x then c else cur x

module _ {F : Type 0} ⦃fl : Floats F⦄ (schema : Schema) (keys : List (Expr F)) (aggs : List (Agg F))
    (key_of : Row F → Row F) where
  abbrev pub key : Row F → Bytes
  key r = row_key (key_of r)

  -- The key expressions evaluate on each of the rows.
  abbrev pub HaveKeys : List (Row F) → Type 0
  HaveKeys [] = Unit {0}
  HaveKeys (row ∷ rows) =
      (map_result (λ e. evaluate schema row e) keys ≡ ok (key_of row)) × HaveKeys rows

  -- The rows of one key, folded into the cells of their group.
  abbrev pub fold_key : List (Cell F) → Bytes → List (Row F) → Result (List (Cell F))
  fold_key cells k rows =
      fold_result (λ c r. update_cells schema aggs r c) cells
        (filter (λ r. bytes_eq (key r) k) rows)

  -- The entries for the first rows `fs` of the keys so far, when the cells are `cur`.
  abbrev pub groups_of : (Bytes → List (Cell F)) → List (Row F) → List (Bytes × Group F)
  groups_of cur [] = []
  groups_of cur (f ∷ fs) =
      (key f, record { cells = cur (key f); key_values = key_of f }) ∷ groups_of cur fs

  groups_of-snoc :
      (cur : Bytes → List (Cell F)) (fs : List (Row F)) (r : Row F)
      → groups_of cur (fs ++ r ∷ []) ≡ groups_of cur fs ++ groups_of cur (r ∷ [])
  groups_of-snoc cur [] r = refl
  groups_of-snoc cur (f ∷ fs) r =
      ap (λ l. (key f, record { cells = cur (key f); key_values = key_of f }) ∷ l)
        (groups_of-snoc cur fs r)

  find-unseen :
      (cur : Bytes → List (Cell F)) (fs : List (Row F)) (k : Bytes)
      → key_seen (map key fs) k ≡ false
      → find_group (groups_of cur fs) k ≡ none
  unfolding find_group key_seen
  find-unseen cur [] k h = refl
  find-unseen cur (f ∷ fs) k h = elim (Bool-cases (bytes_eq (key f) k)) [
    | inl e ↦ absurd (false≢true (sym (rw e at h)))
    | inr e ↦ rw e (find-unseen cur fs k (rw e at h))
  ]

  -- The first row of a key that was seen, and its group.
  pub find-seen :
      (cur : Bytes → List (Cell F)) (fs : List (Row F)) (k : Bytes)
      → key_seen (map key fs) k ≡ true
      → (f : Row F) × (find_group (groups_of cur fs) k
          ≡ some (record { cells = cur k; key_values = key_of f }))
  unfolding find_group key_seen
  find-seen cur [] k h = absurd (false≢true h)
  find-seen cur (f ∷ fs) k h = elim (Bool-cases (bytes_eq (key f) k)) [
    | inl e ↦ (
      f,
      rw e (
          ap (λ x. some (record { cells = cur x; key_values = key_of f }))
            (bytes_eq-eq (key f) k e)),
    )
    | inr e ↦ let (g, q) = find-seen cur fs k (rw e at h) in (g, rw e q)
  ]

  set-groups_of :
      (cur : Bytes → List (Cell F)) (fs : List (Row F)) (k : Bytes) (c : List (Cell F))
      → set_cells (groups_of cur fs) k c ≡ groups_of (put cur k c) fs
  unfolding set_cells
  set-groups_of cur [] k c = refl
  set-groups_of cur (f ∷ fs) k c = elim (Bool-cases (bytes_eq (key f) k)) [
    | inl e ↦ rw (e, sym (bytes_eq_comm (key f) k) ∙ e, set-groups_of cur fs k c) refl
    | inr e ↦ rw (e, sym (bytes_eq_comm (key f) k) ∙ e, set-groups_of cur fs k c) refl
  ]

  groups_of-congr :
      (cur cur' : Bytes → List (Cell F)) (fs : List (Row F))
      → ((k : Bytes) → cur k ≡ cur' k)
      → groups_of cur fs ≡ groups_of cur' fs
  groups_of-congr cur cur' [] h = refl
  groups_of-congr cur cur' (f ∷ fs) h =
      ap₂ (λ c l. (key f, record { cells = c; key_values = key_of f }) ∷ l) (h (key f))
        (groups_of-congr cur cur' fs h)

  -- The state of the loop, with the first rows of its groups.
  abbrev pub state : (Bytes → List (Cell F)) → List (Row F) → Bool → Grouping F
  state cur fs some_rows = record {
    groups = groups_of cur fs;
    order = map key fs;
    any_rows = some_rows;
  }

  update-seen :
      (cur : Bytes → List (Cell F)) (fs : List (Row F)) (r : Row F) (cells : List (Cell F))
      → key_seen (map key fs) (key r) ≡ true
      → update_cells schema aggs r (cur (key r)) ≡ ok cells
      → update_group schema aggs r (key r) (state cur fs true)
        ≡ ok (state (put cur (key r) cells) fs true)
  unfolding update_group
  update-seen cur fs r cells h hu =
      let (f, found) = find-seen cur fs (key r) h in
      rw (found, hu, set-groups_of cur fs (key r) cells) refl

  with-seen :
      (cur : Bytes → List (Cell F)) (fs : List (Row F)) (some_rows : Bool) (r : Row F)
      → key_seen (map key fs) (key r) ≡ true
      → with_group aggs (key r) (key_of r) (state cur fs some_rows) ≡ state cur fs true
  unfolding with_group emplaced
  with-seen cur fs some_rows r h = let (f, found) = find-seen cur fs (key r) h in rw found refl

  with-unseen :
      (cur : Bytes → List (Cell F)) (fs : List (Row F)) (some_rows : Bool) (r : Row F)
      → key_seen (map key fs) (key r) ≡ false
      → cur (key r) ≡ new_cells aggs
      → with_group aggs (key r) (key_of r) (state cur fs some_rows) ≡ state cur (fs ++ r ∷ []) true
  unfolding with_group emplaced
  with-unseen cur fs some_rows r h fresh =
      rw (find-unseen cur fs (key r) h, groups_of-snoc cur fs r, fresh, map-append key fs (r ∷ []))
        refl

  snoc-seen : (fs : List (Row F)) (r : Row F) → key_seen (map key (fs ++ r ∷ [])) (key r) ≡ true
  snoc-seen fs r =
      rw
        (
          map-append key fs (r ∷ []),
          key_seen-snoc (map key fs) (key r) (key r),
          bytes_eq_refl (key r),
        )
        (or_true (key_seen (map key fs) (key r)))

  step-seen :
      (cur : Bytes → List (Cell F)) (fs : List (Row F)) (some_rows : Bool) (r : Row F)
      (cells : List (Cell F))
      → map_result (λ e. evaluate schema r e) keys ≡ ok (key_of r)
      → key_seen (map key fs) (key r) ≡ true
      → update_cells schema aggs r (cur (key r)) ≡ ok cells
      → aggregate_row schema keys aggs (state cur fs some_rows) r
        ≡ ok (state (put cur (key r) cells) fs true)
  unfolding aggregate_row
  step-seen cur fs some_rows r cells hk h hu =
      rw hk (rw (with-seen cur fs some_rows r h) (update-seen cur fs r cells h hu))

  step-unseen :
      (cur : Bytes → List (Cell F)) (fs : List (Row F)) (some_rows : Bool) (r : Row F)
      (cells : List (Cell F))
      → map_result (λ e. evaluate schema r e) keys ≡ ok (key_of r)
      → key_seen (map key fs) (key r) ≡ false
      → cur (key r) ≡ new_cells aggs
      → update_cells schema aggs r (cur (key r)) ≡ ok cells
      → aggregate_row schema keys aggs (state cur fs some_rows) r
        ≡ ok (state (put cur (key r) cells) (fs ++ r ∷ []) true)
  unfolding aggregate_row
  step-unseen cur fs some_rows r cells hk h fresh hu = rw hk (
      rw (with-unseen cur fs some_rows r h fresh)
        (update-seen cur (fs ++ r ∷ []) r cells (snoc-seen fs r) hu))

  abbrev pub unseen_key : List (Row F) → Row F → Bool
  unseen_key fs r = not (key_seen (map key fs) (key r))

  abbrev pub any_of : Bool → List (Row F) → Bool
  any_of b [] = b
  any_of b (r ∷ rows) = true

  -- Every key's rows fold into its final cells.
  abbrev pub Finals : (Bytes → List (Cell F)) → (Bytes → List (Cell F)) → List (Row F) → Type 0
  Finals cur finals rows = (k : Bytes) → fold_key (cur k) k rows ≡ ok (finals k)

  -- Cells that no row has reached are new.
  abbrev Untouched : (Bytes → List (Cell F)) → List (Row F) → Type 0
  Untouched cur fs = (k : Bytes) → key_seen (map key fs) k ≡ false → cur k ≡ new_cells aggs

  -- The first row is one of its own key, and of no other.
  first-fold :
      (cur finals : Bytes → List (Cell F)) (r : Row F) (rows : List (Row F))
      → Finals cur finals (r ∷ rows)
      → (cells : List (Cell F)) × (update_cells schema aggs r (cur (key r)) ≡ ok cells)
        × Finals (put cur (key r) cells) finals rows
  first-fold cur finals r rows h =
      let own : fold_result (λ c x. update_cells schema aggs x c) (cur (key r))
            (r ∷ filter (λ x. bytes_eq (key x) (key r)) rows)
          ≡ ok (finals (key r)) =
        rw (bytes_eq_refl (key r)) at (h (key r)) in
      let (cells, first, later) = >>=-eq-ok (update_cells schema aggs r (cur (key r))) _ own in
      (
        cells,
        first,
        λ k. elim (Bool-cases (bytes_eq (key r) k)) [
          | inl e ↦ rw (e, sym (bytes_eq-eq (key r) k e)) later
          | inr e ↦ rw e (rw e at (h k))
        ],
      )

  any_of-true : (rows : List (Row F)) → any_of true rows ≡ true
  any_of-true [] = refl
  any_of-true (r ∷ rows) = refl

  put-Untouched-seen :
      (cur : Bytes → List (Cell F)) (fs : List (Row F)) (r : Row F) (cells : List (Cell F))
      → key_seen (map key fs) (key r) ≡ true
      → Untouched cur fs
      → Untouched (put cur (key r) cells) fs
  put-Untouched-seen cur fs r cells seen u k unseen = elim (Bool-cases (bytes_eq (key r) k)) [
    | inl e ↦ absurd (
        false≢true (sym unseen ∙ ap (key_seen (map key fs)) (sym (bytes_eq-eq (key r) k e)) ∙ seen))
    | inr e ↦ rw e (u k unseen)
  ]

  put-Untouched-snoc :
      (cur : Bytes → List (Cell F)) (fs : List (Row F)) (r : Row F) (cells : List (Cell F))
      → Untouched cur fs
      → Untouched (put cur (key r) cells) (fs ++ r ∷ [])
  put-Untouched-snoc cur fs r cells u k unseen =
      let unseen' : (key_seen (map key fs) k || bytes_eq (key r) k) ≡ false =
        sym (key_seen-snoc (map key fs) (key r) k)
        ∙ ap (λ l. key_seen l k) (sym (map-append key fs (r ∷ [])))
        ∙ unseen in
      elim (Bool-cases (bytes_eq (key r) k)) [
        | inl e ↦ absurd (false≢true (sym unseen' ∙ rw e (or_true (key_seen (map key fs) k))))
        | inr e ↦ rw e (u k (or_false (key_seen (map key fs) k) (rw e at unseen')))
      ]

  later-seen :
      (fs : List (Row F)) (r : Row F) (rows : List (Row F))
      → key_seen (map key fs) (key r) ≡ true
      → filter (unseen_key fs) (firsts key (r ∷ rows)) ≡ filter (unseen_key fs) (firsts key rows)
  unfolding firsts
  later-seen fs r rows seen =
      let other : Row F → Bool = λ x. not (bytes_eq (key r) (key x)) in
      rw seen (
        filter-filter (unseen_key fs) other (firsts key rows)
        ∙ filter-congr _ (unseen_key fs) (firsts key rows)
            (λ x. seen-absorbs (map key fs) (key r) (key x) seen))

  later-unseen :
      (fs : List (Row F)) (r : Row F) (rows : List (Row F))
      → key_seen (map key fs) (key r) ≡ false
      → filter (unseen_key fs) (firsts key (r ∷ rows))
        ≡ r ∷ filter (unseen_key (fs ++ r ∷ [])) (firsts key rows)
  unfolding firsts
  later-unseen fs r rows unseen =
      let other : Row F → Bool = λ x. not (bytes_eq (key r) (key x)) in
      let both : (x : Row F) → (other x && unseen_key fs x) ≡ unseen_key (fs ++ r ∷ []) x = λ x.
        de_morgan_seen (bytes_eq (key r) (key x)) (key_seen (map key fs) (key x))
        ∙ ap not (
            or_comm (bytes_eq (key r) (key x)) (key_seen (map key fs) (key x))
            ∙ sym (key_seen-snoc (map key fs) (key r) (key x))
            ∙ ap (λ l. key_seen l (key x)) (sym (map-append key fs (r ∷ [])))) in
      rw unseen (
        ap (λ l. r ∷ l)
          (filter-filter (unseen_key fs) other (firsts key rows)
            ∙ filter-congr _ _ (firsts key rows) both))

  -- The loop over the rows leaves one group for each key, in the order of the first rows.
  pub aggregate_fold :
      (cur finals : Bytes → List (Cell F)) (fs : List (Row F)) (some_rows : Bool)
      (rows : List (Row F))
      → HaveKeys rows
      → Untouched cur fs
      → Finals cur finals rows
      → fold_result (aggregate_row schema keys aggs) (state cur fs some_rows) rows
        ≡ ok (state finals (fs ++ filter (unseen_key fs) (firsts key rows)) (any_of some_rows rows))
  unfolding firsts
  aggregate_fold cur finals fs b [] hk u h = rw append-nil (
      ap (λ l. ok (record { groups = l; order = map key fs; any_rows = b }))
        (groups_of-congr cur finals fs (λ k. ok-injective (h k))))
  aggregate_fold cur finals fs b (r ∷ rows) hk u h =
      let (cells, hu, later) = first-fold cur finals r rows h in
      elim (Bool-cases (key_seen (map key fs) (key r))) [
        | inl seen ↦
            rw (step-seen cur fs b r cells hk.0 seen hu, later-seen fs r rows seen)
              (aggregate_fold (put cur (key r) cells) finals fs true rows hk.1
                  (put-Untouched-seen cur fs r cells seen u) later
                ∙ ap (λ b. ok (state finals (fs ++ filter (unseen_key fs) (firsts key rows)) b))
                    (any_of-true rows))
        | inr unseen ↦
            rw
              (
                step-unseen cur fs b r cells hk.0 unseen (u (key r) unseen) hu,
                later-unseen fs r rows unseen,
              )
              (aggregate_fold (put cur (key r) cells) finals (fs ++ r ∷ []) true rows hk.1
                  (put-Untouched-snoc cur fs r cells u) later
                ∙ ap₂ (λ l b. ok (state finals l b))
                    (append_assoc fs (r ∷ [])
                      (filter (unseen_key (fs ++ r ∷ [])) (firsts key rows)))
                    (any_of-true rows))
      ]

  pub all_unseen_keys : (rows : List (Row F)) → filter (unseen_key []) rows ≡ rows
  unfolding key_seen
  all_unseen_keys [] = refl
  all_unseen_keys (r ∷ rows) = ap (λ l. r ∷ l) (all_unseen_keys rows)
