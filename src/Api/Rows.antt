-- ===== src/Api/Rows.antt =====
-- api/server.py: the dicts that the endpoints answer with, and the pages of rows.
use wiseorder.Prelude.{
  ℕ, ltb, String, Bool, true, false, Option, none, some, List, [], ◌∷◌, ◌++◌, map, keep, take,
  last_n, if◌then◌else◌,
}
use wiseorder.Prelude.Text.{str_eq, is_empty}
use wiseorder.Prelude.Sorting.{sort_by}
use wiseorder.Values.{
  Value, Items, nil, item, Fields, field, end, text, num, obj, arr, null, texts, opt_num, opt_text,
}
use wiseorder.Db.{
  Status, pending, running, completed, failed, interrupted, Task, Workflow, LogEntry, Memory,
  Approval,
}
use wiseorder.Runtime.{Env}
use wiseorder.Watchers.Integrity.{IntegrityCheck}
use wiseorder.Watchers.Ci.{CiCheck, WorkflowRun}
use Prim.Native.String.{compare}
use Prim.Native.Nat.{Ordering}

-- The text of the column.
unfoldable pub status_text : Status → String
status_text pending = "pending"
status_text running = "running"
status_text completed = "completed"
status_text failed = "failed"
status_text interrupted = "interrupted"

abbrev opt_obj : Option Fields → Value
opt_obj none = null
opt_obj (some fs) = obj fs

abbrev log_dict : LogEntry → Fields
log_dict e =
    field "ts" (text e.ts) (field "event" (text e.event) (field "data" (obj e.details) end))

abbrev log_items : List LogEntry → Items
log_items [] = nil
log_items (e ∷ es) = item (obj (log_dict e)) (log_items es)

abbrev pub objects : List Fields → Items
objects [] = nil
objects (fs ∷ fss) = item (obj fs) (objects fss)

module _ {R : Type 0} (env : Env R) where
  abbrev time : Option ℕ → Value
  time none = null
  time (some t) = text (env.iso t)

  -- _task_dict
  unfoldable pub task_dict : Task → Fields
  unfolding status_text
  task_dict t = field "id" (num t.id) (
      field "type" (text t.type) (
        field "status" (text (status_text t.status)) (
          field "workflow_id" (opt_num t.workflow_id) (
            field "payload" (obj t.payload) (
              field "result" (opt_obj t.result) (
                field "error" (opt_text t.error) (
                  field "created_at" (text (env.iso t.created_at))
                    (field "completed_at" (time t.completed_at) end))))))))

  -- _wf_dict
  unfoldable pub wf_dict : Workflow → Fields
  unfolding status_text
  wf_dict w = field "id" (num w.id) (
      field "workflow_name" (text w.workflow_name) (
        field "status" (text (status_text w.status)) (
          field "task_chain" (arr (texts w.task_chain)) (
            field "logs" (arr (log_items w.logs)) (
              field "created_at" (text (env.iso w.created_at))
                (field "completed_at" (time w.completed_at) end))))))

  -- _approval_dict
  unfoldable pub approval_dict : Approval → Fields
  approval_dict a = field "id" (num a.id) (
      field "workflow_id" (opt_num a.workflow_id) (
        field "task_id" (opt_num a.task_id) (
          field "summary" (text a.summary) (
            field "outputs" (obj a.outputs) (
              field "affected" (arr (texts a.affected)) (
                field "risk_level" (text a.risk_level) (
                  field "decision" (opt_text a.decision) (
                    field "delivered_via" (opt_text a.delivered_via) (
                      field "created_at" (text (env.iso a.created_at))
                        (field "decided_at" (time a.decided_at) end))))))))))

  -- The dict of a row of /memory/recent.
  unfoldable pub memory_dict : Memory → Fields
  memory_dict m = field "id" (num m.id) (
      field "category" (text m.category) (
        field "content" (text m.content)
          (field "metadata" (obj m.meta) (field "created_at" (text (env.iso m.created_at)) end))))

-- ORDER BY id DESC, and ORDER BY id
abbrev pub newer : {A : Type 0} → (A → ℕ) → A → A → Bool
newer id_of a b = ltb (id_of b) (id_of a)

abbrev pub older : {A : Type 0} → (A → ℕ) → A → A → Bool
older id_of a b = ltb (id_of a) (id_of b)

-- SELECT .. WHERE p ORDER BY id DESC LIMIT n
unfoldable pub page : {A : Type 0} → (A → ℕ) → (A → Bool) → ℕ → List A → List A
page id_of p limit rows = take limit (sort_by (newer id_of) (keep p rows))

-- `if status: stmt = stmt.where(..)`
abbrev pub with_status : Option String → Status → Bool
with_status none st = true
with_status (some s) st = if is_empty s then true else str_eq (status_text st) s

abbrev pub undecided : Bool → Approval → Bool
undecided false a = true
undecided true a = elim a.decision [ none ↦ true | some d ↦ false ]

abbrev pub all_rows : {A : Type 0} → A → Bool
all_rows a = true

-- The last ten log entries of each workflow, each with the workflow's id.
unfoldable pub log_lines : List Workflow → List (ℕ × LogEntry)
log_lines [] = []
log_lines (w ∷ ws) = map (λ e. (w.id, e)) (last_n 10 w.logs) ++ log_lines ws

-- entries.sort(key=ts, reverse=True), which keeps the order of equal keys
abbrev pub later_line : ℕ × LogEntry → ℕ × LogEntry → Bool
later_line y x = elim (compare y.1.ts x.1.ts) [ Ordering.gt ↦ true | _ ↦ false ]

unfoldable pub recent_lines : ℕ → List Workflow → List (ℕ × LogEntry)
unfolding log_lines page
recent_lines limit ws =
    take limit (sort_by later_line (log_lines (page (λ w. w.id) all_rows 20 ws)))

abbrev pub line_dict : ℕ × LogEntry → Fields
line_dict (i, e) = field "workflow_id" (num i) (log_dict e)

abbrev pub counts_dict : List (String × ℕ) → Fields
counts_dict [] = end
counts_dict ((s, n) ∷ rest) = field s (num n) (counts_dict rest)

-- IntegrityCheck.to_dict(), CICheck.to_dict()
abbrev pub check_dict : IntegrityCheck → Fields
check_dict c = field "ts" (text c.ts) (
    field "status" (text c.status) (
      field "count" (num c.count) (
        field "head" (opt_text c.head)
          (field "chain_dir" (text c.chain_dir) (field "note" (text c.note) end)))))

abbrev ci_run_dict : WorkflowRun → Fields
ci_run_dict r = field "repo" (text r.repo) (
    field "name" (text r.name) (
      field "status" (text r.status) (
        field "conclusion" (text r.conclusion) (
          field "head_sha" (text r.head_sha)
            (field "created_at" (text r.created_at) (field "url" (text r.url) end))))))

abbrev pub ci_check_dict : CiCheck → Fields
ci_check_dict c = field "ts" (text c.ts) (
    field "repo" (text c.repo) (
      field "status" (text c.status) (
        field "note" (text c.note) (
          field "failed_runs" (arr (objects (map ci_run_dict c.failed_runs))) (
            field "in_flight_runs" (arr (objects (map ci_run_dict c.in_flight_runs)))
              (field "flaky_workflows" (arr (texts c.flaky_workflows)) end))))))

abbrev pub per_repo : List (String × List CiCheck) → Fields
per_repo [] = end
per_repo ((repo, checks) ∷ rest) =
    field repo (arr (objects (map ci_check_dict (last_n 10 checks)))) (per_repo rest)
