-- ===== src/Steps/Rows.antt =====
-- The row of one workflow, and the tasks added since a given list.
use wiseorder.Prelude.{
  ℕ, String, ◌≡◌, ap, ◌∙◌, false, Option, some, List, [], ◌∷◌, ◌++◌, map, ◌==◌, ==_refl,
  Option-cases, inl, inr,
}
use mathlib.Core.List.{append_assoc, map-append}
use mathlib.Core.Option
use wiseorder.Db.{
  Status, Task, Workflow, find, ids, set_row, add_row, has_id, find-set_row, set_row-last,
}

abbrev pub workflow_row : ℕ → List Workflow → Option Workflow
workflow_row i ws = find (λ w. w.id) i ws

abbrev pub status_of : ℕ → List Workflow → Option Status
status_of i ws = Option.map (λ w. w.status) (workflow_row i ws)

-- The type, the status and the workflow of a task.
abbrev pub label : Task → String × Status × Option ℕ
label t = (t.type, t.status, t.workflow_id)

abbrev pub Labels : Type 0
Labels = List (String × Status × Option ℕ)

module _ (wf : ℕ) (before : List Workflow) where
  -- The workflow `wf` has this status, and every other row is as it was before.
  pub record Row (st : Status) (ws : List Workflow) : Type 0 where
    pub status : status_of wf ws ≡ some st
    pub others : (j : ℕ) → (wf == j) ≡ false → workflow_row j ws ≡ workflow_row j before

  pub Row-found :
      (st : Status) (ws : List Workflow)
      → Row st ws
      → (r : Workflow) × (workflow_row wf ws ≡ some r)
  Row-found st ws h = elim (Option-cases (workflow_row wf ws)) [
    | inl p ↦ cc (h.status, ap (Option.map (λ w. w.status)) p)
    | inr q ↦ q
  ]

  pub Row-set :
      (f : Workflow → Workflow) (g : Status → Status) (st : Status) (ws : List Workflow)
      → ((w : Workflow) → (f w).id ≡ w.id)
      → ((w : Workflow) → (f w).status ≡ g w.status)
      → Row st ws
      → Row (g st) (set_row (λ w. w.id) wf f ws)
  Row-set f g st ws keeps sets h =
      let (r, p) = Row-found st ws h in
      let same : some r.status ≡ some st = rw p at h.status in
      record {
        status =
            rw (find-set_row (λ w. w.id) wf wf f ws keeps)
              (rw (==_refl wf) (rw p (ap some (sets r) ∙ ap (Option.map g) same)));
        others = λ j ne. find-set_row (λ w. w.id) wf j f ws keeps ∙ rw ne (h.others j ne);
      }

-- The tasks are those of `base`, and then added ones with these labels.
pub record Ran (base : List Task) (done : Labels) (tasks : List Task) : Type 0 where
  pub added : List Task
  pub split : tasks ≡ base ++ added
  pub labels : map label added ≡ done

-- One more task has been added, with this label, and its id is new.
pub record Open (base : List Task) (done : Labels) (id : ℕ) (last : String × Status × Option ℕ)
    (tasks : List Task) : Type 0 where
  pub earlier : List Task
  pub task : Task
  pub ran : Ran base done earlier
  pub split : tasks ≡ add_row task earlier
  pub fresh : has_id id (ids (λ t. t.id) earlier) ≡ false
  pub id_is : task.id ≡ id
  pub labelled : label task ≡ last

pub Ran-add :
    (base earlier tasks : List Task) (done : Labels) (t : Task) (last : String × Status × Option ℕ)
    → Ran base done earlier
    → tasks ≡ add_row t earlier
    → label t ≡ last
    → Ran base (done ++ last ∷ []) tasks
Ran-add base earlier tasks done t last h e l = record {
  added = h.added ++ t ∷ [];
  split = e ∙ ap (add_row t) h.split ∙ append_assoc base h.added (t ∷ []);
  labels = map-append label h.added (t ∷ []) ∙ (λ i. h.labels i ++ l i ∷ []);
}

-- An assignment to the last task, which keeps its id.
pub Open-set :
    (base tasks : List Task) (done : Labels) (id : ℕ) (last : String × Status × Option ℕ)
    (f : Task → Task)
    → (o : Open base done id last tasks)
    → set_row (λ t. t.id) id f tasks ≡ add_row (f o.task) o.earlier
Open-set base tasks done id last f o =
    ap (set_row (λ t. t.id) id f) o.split
    ∙ set_row-last (λ t. t.id) id f o.task o.earlier o.fresh o.id_is
