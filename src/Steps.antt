-- ===== src/Steps.antt =====
-- The database helpers that workflows/commit_pipeline.py and workflows/demo_forge.py both declare, with
-- the same bodies but for the event of `_fail_workflow`.
pub mod Rows
pub mod Effects
use wiseorder.Prelude.{ℕ, String, Option, none, some, List, [], ◌∷◌, ◌++◌}
use wiseorder.Prelude.Text.{concat}
use wiseorder.Values.{Fields, field, text, end}
use wiseorder.Exec.{Exec, Exn, pure, raise, modify, ◌>>=◌, ◌>>◌, try_except}
use wiseorder.Db.{
  Status, running, completed, failed, Task, Workflow, LogEntry, Db, find, ids, set_row, add_row,
}
use wiseorder.Runtime.{World, Env, scalar_one, session_scope, log_entry}

-- row = select(Task).where(Task.id == i); row.x = ..
abbrev pub assign_task : ℕ → (Task → Task) → Exec Db (Unit {0})
assign_task i f = do
  db ← λ db. pure db db
  scalar_one (find (λ t. t.id) i db.tasks)
  modify (λ db. record db { tasks = set_row (λ t. t.id) i f db.tasks })

abbrev pub assign_workflow : ℕ → (Workflow → Workflow) → Exec Db (Unit {0})
assign_workflow i f = do
  db ← λ db. pure db db
  scalar_one (find (λ w. w.id) i db.workflows)
  modify (λ db. record db { workflows = set_row (λ w. w.id) i f db.workflows })

module _ {R : Type 0} (env : Env R) where
  abbrev now : ℕ → ℕ
  now n = env.clock n

  -- The assignments of the helpers, at the call with this number.
  abbrev pub task_completed : Fields → ℕ → Task → Task
  task_completed result n t = record t {
    status = completed;
    result = some result;
    completed_at = some (now n);
  }

  abbrev pub task_failed : String → ℕ → Task → Task
  task_failed error n t = record t {
    status = failed;
    error = some error;
    completed_at = some (now n);
  }

  abbrev pub workflow_logged : String → Fields → ℕ → Workflow → Workflow
  workflow_logged event details n w = record w {
    logs = w.logs ++ log_entry env n event details ∷ [];
  }

  abbrev pub workflow_failed : String → String → ℕ → Workflow → Workflow
  workflow_failed event error n w = record w {
    status = failed;
    logs = w.logs ++ log_entry env n event (field "error" (text error) end) ∷ [];
    completed_at = some (now n);
  }

  abbrev pub workflow_completed : String → Fields → ℕ → Workflow → Workflow
  workflow_completed event details n w = record w {
    status = completed;
    completed_at = some (now n);
    logs = w.logs ++ log_entry env n event details ∷ [];
  }

  abbrev pub created_task : String → ℕ → Fields → ℕ → ℕ → Task
  created_task type workflow_id payload n id = record {
    id = id;
    type = type;
    status = running;
    payload = payload;
    result = none;
    error = none;
    workflow_id = some workflow_id;
    created_at = now n;
    started_at = some (now n);
    completed_at = none;
  }

  unfoldable pub create_task : String → ℕ → Fields → Exec (World R) ℕ
  unfolding session_scope
  create_task type workflow_id payload = session_scope env λ n db.
      let id = env.postgres.serial n (ids (λ t. t.id) db.tasks) in
      let t = created_task type workflow_id payload n id in
      pure id (record db { tasks = add_row t db.tasks })

  unfoldable pub complete_task : ℕ → Fields → Exec (World R) (Unit {0})
  unfolding session_scope
  complete_task task_id result =
      session_scope env λ n. assign_task task_id (task_completed result n)

  unfoldable pub fail_task : ℕ → String → Exec (World R) (Unit {0})
  unfolding session_scope
  fail_task task_id error = session_scope env λ n. assign_task task_id (task_failed error n)

  unfoldable pub append_log : ℕ → String → Fields → Exec (World R) (Unit {0})
  unfolding session_scope
  append_log workflow_id event details =
      session_scope env λ n. assign_workflow workflow_id (workflow_logged event details n)

  -- `event` is "workflow_failed" in the commit pipeline and "demo_request_failed" in demo_forge.
  unfoldable pub fail_workflow : String → ℕ → String → Exec (World R) (Unit {0})
  unfolding session_scope
  fail_workflow event workflow_id error =
      session_scope env λ n. assign_workflow workflow_id (workflow_failed event error n)

  -- The handler of each `except Exception as e` of the commit pipeline: the task and the workflow are marked
  -- failed, and the exception is raised again.
  unfoldable pub guarded : {A : Type 0} → ℕ → String → ℕ → Exec (World R) A → Exec (World R) A
  guarded workflow_id what task_id body = try_except body λ e. do
    fail_task task_id e.message
    fail_workflow "workflow_failed" workflow_id (concat (what ∷ " failed: " ∷ e.message ∷ []))
    raise e

  -- The last session of both workflows.
  unfoldable pub complete_workflow : String → Fields → ℕ → Exec (World R) (Unit {0})
  unfolding session_scope
  complete_workflow event details workflow_id =
      session_scope env λ n. assign_workflow workflow_id (workflow_completed event details n)

  -- `wf = Workflow(..); session.add(wf); await session.flush(); workflow_id = wf.id`
  unfoldable pub start_workflow : String → List String → String → Fields → Exec (World R) ℕ
  unfolding session_scope
  start_workflow name task_chain event details = session_scope env λ n db.
      let id = env.postgres.serial n (ids (λ w. w.id) db.workflows) in
      let w : Workflow = record {
        id = id;
        workflow_name = name;
        task_chain = task_chain;
        status = running;
        logs = log_entry env n event details ∷ [];
        created_at = now n;
        completed_at = none;
      } in
      pure id (record db { workflows = add_row w db.workflows })
