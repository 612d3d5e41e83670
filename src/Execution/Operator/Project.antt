-- ===== src/Execution/Operator/Project.antt =====
-- src/execution/physical_plan.cpp, Project: compute the output expressions of each row.
use lite_query.Prelude.{
  suc, ◌≡◌, refl, sym, ap, ◌∙◌, subst, arith, List, [], ◌∷◌, ◌++◌, length, map, Bytes, append_assoc,
  append-nil, map-append, length-map, if◌then◌else◌,
}
use lite_query.Prelude.Result.{Result, ok, ◌>>=◌, map_result, >>=-eq-ok, ok-injective}
use lite_query.Types.Floats.{Floats}
use lite_query.Types.DataType.{DataType}
use lite_query.Types.Value.{Row}
use lite_query.Types.Schema.{ColumnDef, Schema}
use lite_query.Types.Batch.{Batch, batch, is_empty, append_row, for_each_row}
use lite_query.Types.Batch.Contents.{
  Holds, Holds-batch, append_row-Holds, extended, for_each_row-Holds, fold_result,
}
use lite_query.Parser.Ast.{Expr}
use lite_query.Execution.Eval.{evaluate}
use lite_query.Execution.Operator.{Operator}
use lite_query.Execution.Operator.Stream.{Yields, eos, more, is_empty-zero, is_empty-cons, Added}

-- Project::Item
pub record Item (F : Type 0) : Type 0 where
  pub expr : Expr F
  pub name : Bytes
  pub type : DataType

abbrev item_column : {F : Type 0} → Item F → ColumnDef
item_column it = record { name = it.name; type = it.type }

-- The constructor's loop over the items.
unfoldable pub project_schema : {F : Type 0} → List (Item F) → Schema
project_schema items = map item_column items

length-project_schema :
    {F : Type 0} (items : List (Item F)) → length (project_schema items) ≡ length items
unfolding project_schema
length-project_schema items = length-map items item_column

module _ {F S : Type 0} ⦃fl : Floats F⦄ (child : Operator F S) (items : List (Item F)) where
  -- One value for each output column; `numRows` grows with the row here.
  unfoldable pub project_row : Batch F → Row F → Result (Batch F)
  project_row out row = do
    values ← map_result (λ it. evaluate child.schema row it.expr) items
    append_row out values

  unfoldable pub project_next : S → Result (Batch F × S)
  unfolding project_row is_empty batch
  project_next s = do
    r ← child.next s
    if is_empty r.0
        then ok (batch (project_schema items), r.1)
        else do out ← for_each_row r.0 project_row (batch (project_schema items)); ok (out, r.1)

  abbrev pub project_op : Operator F S
  project_op = record { schema = project_schema items; next = project_next }

  -- The items evaluate on each of the rows, to the row that `f` gives.
  abbrev pub Projects : (Row F → Row F) → List (Row F) → Type 0
  Projects f [] = Unit {0}
  Projects f (row ∷ rows) =
      (map_result (λ it. evaluate child.schema row it.expr) items ≡ ok (f row)) × Projects f rows

length-map_result :
    {A B : Type 0} (g : A → Result B) (xs : List A) {ys : List B}
    → map_result g xs ≡ ok ys
    → length ys ≡ length xs
length-map_result g [] h = ap length (sym (ok-injective h))
length-map_result g (x ∷ xs) h =
    let (y, e, k) = >>=-eq-ok (g x) _ h in
    let (rest, e2, k2) = >>=-eq-ok (map_result g xs) _ k in
    ap length (sym (ok-injective k2)) ∙ ap suc (length-map_result g xs e2)

module _ {F S : Type 0} ⦃fl : Floats F⦄ (child : Operator F S) (items : List (Item F))
    (f : Row F → Row F) where
  Projects-split :
      (xs ys : List (Row F))
      → Projects child items f (xs ++ ys)
      → Projects child items f xs × Projects child items f ys
  Projects-split [] ys h = (tt, h)
  Projects-split (x ∷ xs) ys h = let (a, b) = Projects-split xs ys h.1 in ((h.0, a), b)

  fold-project_row :
      (b : Batch F) (done rows : List (Row F))
      → Holds b (project_schema items) done
      → Projects child items f rows
      → Added
          (project_schema items)
          (fold_result (project_row child items) b rows)
          (done ++ map f rows)
  unfolding project_row
  fold-project_row b done [] h e = record { result = b; done = refl; holds = rw append-nil h }
  fold-project_row b done (row ∷ rows) h e =
      let wide : length (f row) ≡ length (project_schema items) =
        length-map_result (λ it. evaluate child.schema row it.expr) items e.0
        ∙ sym (length-project_schema items) in
      let (q, k) = append_row-Holds done (f row) h wide in
      rw (e.0, q, sym (append_assoc done (f row ∷ []) (map f rows)))
        (fold-project_row (extended b (project_schema items) (done ++ f row ∷ []))
          (done ++ f row ∷ []) rows k e.1)

  -- Project over a child that produces `rows`, on all of which the items evaluate, produces one row
  -- of their values for each, in order.
  pub project-Yields :
      {s : S} {rows : List (Row F)}
      → Yields child s rows
      → Projects child items f rows
      → Yields (project_op child items) s (map f rows)
  unfolding project_next batch
  project-Yields (eos b s' e z) h =
      eos (batch (project_schema items)) s' (rw (e, is_empty-zero b z)) refl
  project-Yields (more {all = total} b s' rows rest e hb p y split) h =
      let (er, et) = Projects-split rows rest (subst (Projects child items f) split h) in
      let one =
        fold-project_row (batch (project_schema items)) [] rows (Holds-batch (project_schema items))
          er in
      more one.result s' (map f rows) (map f rest)
        (rw (
          e,
          is_empty-cons rows hb p,
          for_each_row-Holds (project_row child items) rows (batch (project_schema items)) hb,
          one.done,
        ))
        one.holds (omega (arith, length-map rows f)) (project-Yields y et) (rw (split, map-append))
