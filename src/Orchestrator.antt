-- ===== src/Orchestrator.antt =====
-- core/orchestrator/main.py: the handling of one job, the worker's loop, the reaper of orphan
-- workflows, and the check of the address that the API binds to. `repr` is Python's.
pub mod Handlers
pub mod Jobs
pub mod Kept
pub mod Registered
pub mod Settled
pub mod Answered
pub mod Arrived
pub mod Startup
pub mod Stop
pub mod Told
pub mod Awaited
pub mod Stopped
pub mod Selected
pub mod Orphans
pub mod Binding
use wiseorder.Prelude.{
  ℕ, ◌+◌, String, Bool, true, false, not, ◌&&◌, ◌||◌, Option, none, some, List, [], ◌∷◌, ◌++◌, map,
  keep, length, ltb, ◌==◌, if◌then◌else◌,
}
use wiseorder.Prelude.Text.{str_eq, concat, is_empty}
use wiseorder.Values.{Fields, field, text, num, end}
use wiseorder.Exec.{
  Result, ok, err, Exn, raised, runtime_error, Exec, pure, raise, ◌>>=◌, ◌>>◌, try_except,
}
use wiseorder.Job.{Job, new}
use wiseorder.Queue
use wiseorder.Queue.{high, normal}
use wiseorder.Db.{Db, Task, Workflow, Status, running, interrupted}
use wiseorder.Runtime.{World, Env, tick, on_redis, session_scope, log_entry}

abbrev pub Handler : Type 0 → Type 0
Handler R = Fields → Exec (World R) Fields

-- self._handlers.get(type)
unfoldable pub handler_of : {R : Type 0} → List (String × Handler R) → String → Option (Handler R)
handler_of [] type = none
handler_of ((t, h) ∷ hs) type = if str_eq t type then some h else handler_of hs type

module _ {R : Type 0} (env : Env R) (repr : String → String) where
  -- q.fail(job, error)
  unfoldable pub dead_letter : Job → String → Exec (World R) (Unit {0})
  dead_letter job error w =
      on_redis (Queue.fail env.redis env.json (env.iso (env.clock w.calls)) job error) w

  -- The handler runs with the job's id as context, which is reset in the end.
  unfoldable pub run_handler : Handler R → Job → Exec (World R) (Unit {0})
  unfolding dead_letter
  run_handler handler job w =
      let (r, w') =
        try_except (handler job.payload >> pure tt) (λ e. dead_letter job e.message)
          (record w { current_job_id = some job.id }) in
      (r, record w' { current_job_id = w.current_job_id })

  unfoldable pub run_job : List (String × Handler R) → Job → Exec (World R) (Unit {0})
  unfolding handler_of run_handler
  run_job handlers job = elim (handler_of handlers job.type) [
    | none ↦ dead_letter job (concat ("no handler for type " ∷ repr job.type ∷ []))
    | some handler ↦ run_handler handler job
  ]

  -- A round of the worker's loop. The exceptions of dequeue are logged, those of _run_job are not
  -- caught.
  unfoldable pub taken : List (String × Handler R) → Option Job → Exec (World R) (Unit {0})
  unfolding run_job
  taken handlers none = pure tt
  taken handlers (some job) = run_job handlers job

  unfoldable pub worker_round : List (String × Handler R) → Exec (World R) (Unit {0})
  unfolding taken
  worker_round handlers = do
    job ←
        try_except (on_redis (Queue.dequeue env.redis env.json (high ∷ normal ∷ [])))
          (λ e. pure none)
    taken handlers job

  -- The loop, given what `self._stop.is_set()` reads before each round.
  unfoldable pub worker : List (String × Handler R) → List Bool → Exec (World R) (Unit {0})
  unfolding worker_round
  worker handlers [] = pure tt
  worker handlers (true ∷ stops) = pure tt
  worker handlers (false ∷ stops) = worker_round handlers >> worker handlers stops

  -- enqueue_manual(type, payload), with the id and the time that Job.new takes
  unfoldable pub enqueue_manual : String → String → String → Fields → Exec (World R) String
  enqueue_manual uuid now type payload = do
    let job = new uuid now type payload none none
    on_redis (Queue.enqueue env.redis env.json job high)
    pure job.id

abbrev pub is_running : Status → Bool
is_running running = true
is_running _ = false

-- Workflow.status == "running", Workflow.created_at < cutoff, for the cutoff `now - max_age`
unfoldable pub is_orphan : ℕ → ℕ → Workflow → Bool
is_orphan now max_age w = is_running w.status && ltb (w.created_at + max_age) now

abbrev pub belongs : ℕ → Option ℕ → Bool
belongs i none = false
belongs i (some j) = i == j

abbrev pub interrupted_task : ℕ → Task → Task
interrupted_task now t = record t {
  status = interrupted;
  completed_at = some now;
  error = some "orphaned at orchestrator startup";
}

-- The update of the running tasks of one workflow.
unfoldable pub interrupt_task : ℕ → ℕ → Task → Task
interrupt_task now workflow_id t =
    if is_running t.status && belongs workflow_id t.workflow_id then interrupted_task now t else t

-- The loop over the orphans, with one update of the tasks for each.
unfoldable pub interrupt_tasks : ℕ → List Workflow → List Task → List Task
unfolding interrupt_task
interrupt_tasks now [] tasks = tasks
interrupt_tasks now (w ∷ ws) tasks = interrupt_tasks now ws (map (interrupt_task now w.id) tasks)

module _ {R : Type 0} (env : Env R) where
  -- The assignments to an orphan, at the call with this number.
  abbrev pub interrupted_workflow : ℕ → ℕ → Workflow → Workflow
  interrupted_workflow n max_age w = record w {
    status = interrupted;
    completed_at = some (env.clock n);
    logs =
        w.logs
        ++ log_entry env n "workflow_interrupted_at_startup"
            (field "reason" (text "orphan reaper") (field "max_age_seconds" (num max_age) end))
          ∷ [];
  }

  abbrev pub reaped : ℕ → ℕ → Workflow → Workflow
  reaped n max_age w =
      if is_orphan (env.clock n) max_age w then interrupted_workflow n max_age w else w

  unfoldable pub reap_orphan_workflows : ℕ → Exec (World R) ℕ
  unfolding session_scope is_orphan interrupt_tasks
  reap_orphan_workflows max_age = session_scope env λ n db.
      let rows = keep (is_orphan (env.clock n) max_age) db.workflows in
      pure (length rows) (record db {
        workflows = map (reaped n max_age) db.workflows;
        tasks = interrupt_tasks (env.clock n) rows db.tasks;
      })

abbrev is_loopback : String → Bool
is_loopback host = str_eq host "127.0.0.1" || str_eq host "localhost" || str_eq host "::1"

-- _validate_bind_safety(host, allow_remote, auth_token)
unfoldable pub validate_bind_safety : (String → String) → String → Bool → String → Result (Unit {0})
validate_bind_safety repr host allow_remote auth_token =
    if is_loopback host
    then ok tt
    else if not allow_remote
    then err (
        raised runtime_error (
          concat (
            "refusing to bind API to non-loopback host "
            ∷ repr host
            ∷ ". Set WISEORDER_API_ALLOW_REMOTE_BIND=true to opt in."
            ∷ [])))
    else if is_empty auth_token
    then err (
        raised runtime_error (
          concat (
            "refusing to bind API to "
            ∷ repr host
            ∷ " without auth. Set WISEORDER_API_AUTH_TOKEN to a non-empty secret first."
            ∷ [])))
    else ok tt
