-- ===== src/Steps/Effects.antt =====
-- What the helpers do to the row of one workflow and to the tasks added since a given list, where the
-- database takes every transaction.
use wiseorder.Prelude.{ℕ, String, ◌≡◌, refl, ap, ◌∙◌, Option, none, some, List, [], ◌∷◌, ◌++◌}
use wiseorder.Prelude.Text.{concat}
use wiseorder.Values.{Fields}
use wiseorder.Exec.{ok, Exn, Exec}
use wiseorder.Exec.Ends.{returns, raises, Run, >>=-Run, try_except-Run}
use wiseorder.Db.{
  Status, running, completed, failed, Task, Workflow, Db, find, ids, set_row, find-last,
}
use wiseorder.Runtime.{World, Env, session_scope, tick}
use wiseorder.Steps.{
  create_task, complete_task, fail_task, append_log, fail_workflow, complete_workflow,
  assign_workflow, assign_task, guarded, workflow_logged, workflow_failed, workflow_completed,
  task_completed, task_failed, created_task,
}
use wiseorder.Steps.Rows.{
  Row, Row-set, Row-found, Ran, Ran-add, Open, Open-set, label, Labels, workflow_row,
}

-- The label of a task of this workflow.
abbrev pub step_label : ℕ → String → Status → String × Status × Option ℕ
step_label wf type st = (type, st, some wf)

module _ {R : Type 0} (wf : ℕ) (before : List Workflow) (base : List Task) where
  -- Between two steps: the workflow's status, and the labels of the tasks that it has added.
  pub record Idle (st : Status) (done : Labels) (w : World R) : Type 0 where
    pub row : Row wf before st w.db.workflows
    pub ran : Ran base done w.db.tasks

  -- Inside a step: the workflow is running, and so is the task with this id, the last one.
  pub record Busy (id : ℕ) (type : String) (done : Labels) (w : World R) : Type 0 where
    pub row : Row wf before running w.db.workflows
    pub open_task : Open base done id (step_label wf type running) w.db.tasks

module _ {R : Type 0} (env : Env R) (up : (n : ℕ) → env.postgres.refuses n ≡ none) where
  session_ok :
      {A : Type 0} (body : ℕ → Exec Db A) (w : World R) (a : A) (db' : Db)
      → body w.calls w.db ≡ (ok a, db')
      → session_scope env body w ≡ (ok a, record (tick w) { db = db' })
  unfolding session_scope
  session_ok body w a db' e = rw (up w.calls) (rw e)

assign_workflow_ok :
    (i : ℕ) (f : Workflow → Workflow) (db : Db) (r : Workflow)
    → workflow_row i db.workflows ≡ some r
    → assign_workflow i f db
      ≡ (ok tt, record db { workflows = set_row (λ w. w.id) i f db.workflows })
assign_workflow_ok i f db r p = rw p

assign_task_ok :
    (i : ℕ) (f : Task → Task) (db : Db) (t : Task)
    → find (λ t. t.id) i db.tasks ≡ some t
    → assign_task i f db ≡ (ok tt, record db { tasks = set_row (λ t. t.id) i f db.tasks })
assign_task_ok i f db t p = rw p

module _ {R : Type 0} (env : Env R) (up : (n : ℕ) → env.postgres.refuses n ≡ none) (wf : ℕ)
    (before : List Workflow) (base : List Task) {E : Exn → World R → Type 0} where
  -- A session that assigns to the workflow's row.
  workflow_session :
      (f : ℕ → Workflow → Workflow) (g : Status → Status) (st : Status) (done : Labels)
      (w : World R)
      → ((n : ℕ) (x : Workflow) → (f n x).id ≡ x.id)
      → ((n : ℕ) (x : Workflow) → (f n x).status ≡ g x.status)
      → Idle wf before base st done w
      → Run
          (λ _. Idle wf before base (g st) done)
          E
          (session_scope env (λ n. assign_workflow wf (f n)))
          w
  workflow_session f g st done w keeps sets h =
      let (r, p) = Row-found wf before st w.db.workflows h.row in
      rw
        (session_ok env up (λ n. assign_workflow wf (f n)) w tt _
          (assign_workflow_ok wf (f w.calls) w.db r p))
        (returns (record {
          row =
              Row-set wf before (f w.calls) g st w.db.workflows (keeps w.calls) (sets w.calls)
                h.row;
          ran = h.ran;
        }))

  pub append_log-Idle :
      (st : Status) (done : Labels) (event : String) (details : Fields) (w : World R)
      → Idle wf before base st done w
      → Run (λ _. Idle wf before base st done) E (append_log env wf event details) w
  unfolding append_log
  append_log-Idle st done event details w h =
      workflow_session (workflow_logged env event details) (λ s. s) st done w (λ n x. refl)
        (λ n x. refl) h

  pub fail_workflow-Idle :
      (st : Status) (done : Labels) (event error : String) (w : World R)
      → Idle wf before base st done w
      → Run (λ _. Idle wf before base failed done) E (fail_workflow env event wf error) w
  unfolding fail_workflow
  fail_workflow-Idle st done event error w h =
      workflow_session (workflow_failed env event error) (λ s. failed) st done w (λ n x. refl)
        (λ n x. refl) h

  pub complete_workflow-Idle :
      (st : Status) (done : Labels) (event : String) (details : Fields) (w : World R)
      → Idle wf before base st done w
      → Run (λ _. Idle wf before base completed done) E (complete_workflow env event details wf) w
  unfolding complete_workflow
  complete_workflow-Idle st done event details w h =
      workflow_session (workflow_completed env event details) (λ s. completed) st done w
        (λ n x. refl) (λ n x. refl) h

  -- A session that assigns to the running task, and ends it with this status.
  task_session :
      (f : ℕ → Task → Task) (id : ℕ) (type : String) (st : Status) (done : Labels) (w : World R)
      → ((n : ℕ) (t : Task) → label (f n t) ≡ (t.type, st, t.workflow_id))
      → Busy wf before base id type done w
      → Run
          (λ _. Idle wf before base running (done ++ step_label wf type st ∷ []))
          E
          (session_scope env (λ n. assign_task id (f n)))
          w
  task_session f id type st done w sets h =
      let o = h.open_task in
      rw
        (session_ok env up (λ n. assign_task id (f n)) w tt _
          (assign_task_ok id (f w.calls) w.db o.task (
            ap (find (λ t. t.id) id) o.split
            ∙ find-last (λ t. t.id) id o.task o.earlier o.fresh o.id_is)))
        (returns (record {
          row = h.row;
          ran =
              Ran-add base o.earlier _ done (f w.calls o.task) (step_label wf type st) o.ran
                (Open-set base w.db.tasks done id (step_label wf type running) (f w.calls) o)
                (sets w.calls o.task ∙ ap (λ l. (l.0, st, l.2)) o.labelled);
        }))

  pub complete_task-Busy :
      (id : ℕ) (type : String) (done : Labels) (result : Fields) (w : World R)
      → Busy wf before base id type done w
      → Run
          (λ _. Idle wf before base running (done ++ step_label wf type completed ∷ []))
          E
          (complete_task env id result)
          w
  unfolding complete_task
  complete_task-Busy id type done result w h =
      task_session (task_completed env result) id type completed done w (λ n t. refl) h

  pub fail_task-Busy :
      (id : ℕ) (type : String) (done : Labels) (error : String) (w : World R)
      → Busy wf before base id type done w
      → Run
          (λ _. Idle wf before base running (done ++ step_label wf type failed ∷ []))
          E
          (fail_task env id error)
          w
  unfolding fail_task
  fail_task-Busy id type done error w h =
      task_session (task_failed env error) id type failed done w (λ n t. refl) h

  pub create_task-Idle :
      (type : String) (done : Labels) (payload : Fields) (w : World R)
      → Idle wf before base running done w
      → Run (λ id. Busy wf before base id type done) E (create_task env type wf payload) w
  unfolding create_task
  create_task-Idle type done payload w h =
      let used = ids (λ (t : Task). t.id) w.db.tasks in
      rw (up w.calls) (
        returns (record {
          row = h.row;
          open_task = record {
            earlier = w.db.tasks;
            task = created_task env type wf payload w.calls (env.postgres.serial w.calls used);
            ran = h.ran;
            split = refl;
            fresh = env.postgres.serial_fresh w.calls used;
            id_is = refl;
            labelled = refl;
          };
        }))

module _ {R : Type 0} (env : Env R) (up : (n : ℕ) → env.postgres.refuses n ≡ none) (wf : ℕ)
    (before : List Workflow) (base : List Task) where
  -- The try block of a step: if its body raises while the task is running, the task and the workflow
  -- are marked failed and the exception is raised on.
  pub guarded-Run :
      {A : Type 0} {Q : A → World R → Type 0} (what : String) (id : ℕ) (type : String)
      (done : Labels) (body : Exec (World R) A) (w : World R)
      → Run Q (λ _. Busy wf before base id type done) body w
      → Run Q
          (λ _. Idle wf before base failed (done ++ step_label wf type failed ∷ []))
          (guarded env wf what id body)
          w
  unfolding guarded
  guarded-Run what id type done body w h = try_except-Run body _ w h λ e t busy.
      >>=-Run (fail_task env id e.message) _ t
        (fail_task-Busy env up wf before base id type done e.message t busy)
        λ _ t₁ idle.
          >>=-Run
            (fail_workflow env "workflow_failed" wf (concat (what ∷ " failed: " ∷ e.message ∷ [])))
            _ t₁
            (fail_workflow-Idle env up wf before base running
              (done ++ step_label wf type failed ∷ []) "workflow_failed" _ t₁ idle)
            λ _ t₂ stopped. raises stopped
