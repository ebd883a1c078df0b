-- ===== src/Api.antt =====
-- api/server.py: the endpoints, with what each answers. A parameter `limit` is a natural number. ChromaDB
-- and the connection that db.ping opens are parameters.
pub mod Rows
pub mod Auth
pub mod Pages
pub mod Status
pub mod Ready
pub mod Counts
use wiseorder.Prelude.{
  ℕ, String, Bool, true, false, ◌&&◌, Option, none, some, List, [], ◌∷◌, map, keep, last_n,
  if◌then◌else◌, ◌==◌,
}
use wiseorder.Prelude.Text
use wiseorder.Prelude.Text.{str_eq, is_empty, starts_with}
use wiseorder.Prelude.Sorting.{sort_by}
use wiseorder.Values.{
  Value, Items, nil, item, Fields, field, end, null, flag, text, num, arr, obj, texts, opt_text,
  lookup,
}
use wiseorder.Exec.{
  Result, ok, err, Exn, raised, http_exception, Exec, pure, raise, lift, ◌>>=◌, ◌>>◌, try_except,
}
use wiseorder.Job.{Job}
use wiseorder.Queue
use wiseorder.Db.{Db, Task, Workflow, Memory, Approval, find}
use wiseorder.Runtime.{World, Env, tick, on_redis, session_scope, db_ping}
use wiseorder.Gateway.{decide}
use wiseorder.Orchestrator.{enqueue_manual}
use wiseorder.Daily.{DailyConfig, DailyResult, run_daily_summary, latest_daily}
use wiseorder.Watchers.Integrity.{IntegrityWatcher}
use wiseorder.Watchers.Ci.{CiCheck}
use wiseorder.Vector.{QueryResult, Hit, query}
use Rows.{
  task_dict, wf_dict, approval_dict, memory_dict, page, older, with_status, undecided, all_rows,
  recent_lines, line_dict, counts_dict, status_text, objects, check_dict, per_repo,
}

pub record ApiConfig : Type 0 where
  pub api_auth_token : String
  pub daily : DailyConfig
  -- str(uuid.uuid4()) and Python's repr
  pub uuid : ℕ → String
  pub repr : String → String
  -- what opening a connection and SELECT 1 raise
  pub connect_fails : ℕ → Option Exn
  -- GROUP BY status with count(id), over the statuses of a table's rows
  pub group_counts : List String → List (String × ℕ)
  pub vector_count : ℕ → Result ℕ
  pub vector_query : ℕ → String → ℕ → Result QueryResult

module _ {R : Type 0} where
  -- `Bearer ` is 7 characters.
  unfoldable pub check_bearer : String → Option String → Exec (World R) (Unit {0})
  check_bearer expected none = raise (raised (http_exception 401) "Bearer token required")
  check_bearer expected (some header) =
      if starts_with header "Bearer "
      then (if str_eq (Text.drop 7 header) expected
          then pure tt
          else raise (raised (http_exception 403) "invalid token"))
      else raise (raised (http_exception 401) "Bearer token required")

  -- _require_token(authorization), where hmac.compare_digest compares the bytes of two texts
  unfoldable pub require_token : String → Option String → Exec (World R) (Unit {0})
  unfolding check_bearer
  require_token expected authorization =
      if is_empty expected then pure tt else check_bearer expected authorization

module _ {R : Type 0} (env : Env R) (config : ApiConfig) where
  -- `dependencies=[Depends(_require_token)]`: the handler is called where the dependency returned.
  unfoldable pub guarded_by_token :
      {A : Type 0} → Option String → Exec (World R) A → Exec (World R) A
  unfolding require_token
  guarded_by_token authorization handler =
      require_token config.api_auth_token authorization >> handler

  -- A session that lists a page of one table.
  abbrev pub listing :
      {A : Type 0}
      → (Db → List A)
      → (A → ℕ)
      → (A → Bool)
      → ℕ
      → (A → Fields)
      → Exec (World R) (List Fields)
  listing rows_of id_of p limit dict_of =
      session_scope env λ n db. pure (map dict_of (page id_of p limit (rows_of db))) db

  unfoldable pub list_tasks : Option String → ℕ → Exec (World R) (List Fields)
  list_tasks status limit =
      listing (λ db. db.tasks) (λ t. t.id) (λ t. with_status status t.status) limit (task_dict env)

  unfoldable pub list_workflows : ℕ → Option String → Exec (World R) (List Fields)
  list_workflows limit status =
      listing (λ db. db.workflows) (λ w. w.id) (λ w. with_status status w.status) limit
        (wf_dict env)

  unfoldable pub list_approvals : Bool → ℕ → Exec (World R) (List Fields)
  list_approvals pending limit =
      listing (λ db. db.approvals) (λ a. a.id) (undecided pending) limit (approval_dict env)

  unfoldable pub memory_recent : ℕ → Exec (World R) (List Fields)
  memory_recent limit = listing (λ db. db.memory) (λ m. m.id) all_rows limit (memory_dict env)

  abbrev belongs_to : ℕ → Task → Bool
  belongs_to wf_id t = elim t.workflow_id [ none ↦ false | some i ↦ i == wf_id ]

  -- SELECT .. FROM tasks WHERE workflow_id = wf_id ORDER BY id
  unfoldable pub tasks_of : ℕ → List Task → List Task
  tasks_of wf_id ts = sort_by (older (λ (t : Task). t.id)) (keep (belongs_to wf_id) ts)

  abbrev with_tasks : List Task → Fields → Fields
  with_tasks ts end = field "tasks" (arr (objects (map (task_dict env) ts))) end
  with_tasks ts (field k v fs) = field k v (with_tasks ts fs)

  unfoldable pub get_workflow : ℕ → Exec (World R) Fields
  unfolding session_scope tasks_of
  get_workflow wf_id = session_scope env λ n db. elim (find (λ w. w.id) wf_id db.workflows) [
    | none ↦ raise (raised (http_exception 404) "workflow not found") db
    | some w ↦ pure (with_tasks (tasks_of wf_id db.tasks) (wf_dict env w)) db
  ]

  unfoldable pub decided_answer : ℕ → String → Bool → Exec (World R) Fields
  decided_answer approval_id decision true =
      pure (field "approval_id" (num approval_id) (field "decision" (text decision) end))
  decided_answer approval_id decision false =
      raise (raised (http_exception 404) "approval not found")

  unfoldable pub decide_approval : ℕ → String → Exec (World R) Fields
  unfolding decided_answer
  decide_approval approval_id decision = do
    found ← decide env approval_id decision
    decided_answer approval_id decision found

  unfoldable pub trigger : String → Fields → Exec (World R) Fields
  trigger type payload = do
    (uuid, now) ← λ w. pure (config.uuid w.calls, env.iso (env.clock w.calls)) w
    job_id ← enqueue_manual env config.repr uuid now type payload
    pure (field "job_id" (text job_id) end)

  unfoldable pub run_summary_now : Exec (World R) DailyResult
  run_summary_now = run_daily_summary env config.daily

  -- The three requests that change state.
  abbrev pub post_decide : Option String → ℕ → String → Exec (World R) Fields
  post_decide authorization approval_id decision =
      guarded_by_token authorization (decide_approval approval_id decision)

  abbrev pub post_trigger : Option String → String → Fields → Exec (World R) Fields
  post_trigger authorization type payload = guarded_by_token authorization (trigger type payload)

  abbrev pub post_run_now : Option String → Exec (World R) DailyResult
  post_run_now authorization = guarded_by_token authorization run_summary_now
