-- ===== src/Examples/Endpoints.antt =====
-- The endpoints of the HTTP API and the scheduler over the sample servers.
use wiseorder.Prelude.{
  ℕ, ◌+◌, ◌≤◌, ◌<◌, ◌%◌, ◌≡◌, refl, String, true, none, some, List, [], ◌∷◌, length, arith,
}
use wiseorder.Prelude.Text.{str_eq}
use wiseorder.Values.{end}
use wiseorder.Exec.{ok, err, raised, other}
use wiseorder.Exec.Ends.{Run}
use wiseorder.Redis.{View}
use wiseorder.Db.{Task, Workflow, Memory, Approval, LogEntry, completed}
use wiseorder.Runtime.{World}
use wiseorder.Daily.{next_fire}
use wiseorder.Daily.Schedule.{next_fire-daily}
use wiseorder.Api.{
  ApiConfig, decide_approval, trigger, run_summary_now, post_decide, post_trigger, post_run_now,
  list_tasks, list_workflows, list_approvals, memory_recent,
}
use wiseorder.Api.Auth.{Guarded, posts-Guarded}
use wiseorder.Api.Pages.{Listed, HasStatus, Undecided, lists-Listed}
use wiseorder.Api.Rows.{recent_lines, task_dict, wf_dict, approval_dict, memory_dict}
use wiseorder.Api.Counts.{LineOf, recent_lines-lem}
use wiseorder.Orchestrator.Startup.{StartConfig, prepare, Prepared, SameRows, prepare-Run}
use wiseorder.Settings.{split_paths, raw}
use wiseorder.Settings.Lists.{IsEntry, has_char, split_paths-join}
use wiseorder.Prelude.Text.{join, strip}
use wiseorder.Prelude.{inl, inr, subst, sym}
use mathlib.Core.List.Memᴰ.{cases_cons, not-nil}
use wiseorder.Events.{start_watching, takes}
use wiseorder.Events.Start.{AllWatched, start_watching-AllWatched}
use wiseorder.Prelude.{Bool}
use wiseorder.Schema.{
  Schema, run_all, upgrade, downgrade, tasks_table, workflows_table, memory_table, approvals_table,
}
use wiseorder.Schema.Grows.{Grows, AllPresent}
use wiseorder.Schema.Upgrade.{upgrade-twice}
use wiseorder.Examples.Sample.{sample_env, start}
use mathlib.Core.List.{Memᴰ}

abbrev pub sample_api : ApiConfig
sample_api = record {
  api_auth_token = "secret";
  daily = record {
    date_of = λ n. "d";
    most_common = λ names. [];
    log_tail = λ n. none;
    append_fails = λ n. none;
  };
  uuid = λ n. "u";
  repr = λ s. s;
  connect_fails = λ n. none;
  group_counts = λ ss. [];
  vector_count = λ n. ok 0;
  vector_query = λ n q k. err (raised other "no index");
}

posts-Guarded_example :
    Guarded sample_env sample_api
      (some "Bearer wrong")
      start
      (post_decide sample_env sample_api (some "Bearer wrong") 1 "approved")
      (decide_approval sample_env sample_api 1 "approved")
    × Guarded sample_env sample_api
        (some "Bearer wrong")
        start
        (post_trigger sample_env sample_api (some "Bearer wrong") "t" end)
        (trigger sample_env sample_api "t" end)
    × Guarded sample_env sample_api
        (some "Bearer wrong")
        start
        (post_run_now sample_env sample_api (some "Bearer wrong"))
        (run_summary_now sample_env sample_api)
posts-Guarded_example =
    posts-Guarded sample_env sample_api (some "Bearer wrong") start 1 "approved" "t" end

abbrev finished_workflow : Workflow
finished_workflow = record {
  id = 4;
  workflow_name = "commit_pipeline";
  task_chain = [];
  status = completed;
  logs = record { ts = "t"; event = "workflow_started"; details = end } ∷ [];
  created_at = 0;
  completed_at = some 1;
}

abbrev one_workflow : World View
one_workflow = record start { db = record start.db { workflows = finished_workflow ∷ [] } }

lists-Listed_example :
    Run
      (Listed sample_env sample_api one_workflow
        (λ db. db.tasks)
        (λ (t : Task). t.id)
        (λ t. HasStatus (some "completed") t.status)
        50
        (task_dict sample_env))
      (λ e t. t.db ≡ one_workflow.db)
      (list_tasks sample_env sample_api (some "completed") 50)
      one_workflow
    × Run
        (Listed sample_env sample_api one_workflow
          (λ db. db.workflows)
          (λ (x : Workflow). x.id)
          (λ x. HasStatus (some "completed") x.status)
          50
          (wf_dict sample_env))
        (λ e t. t.db ≡ one_workflow.db)
        (list_workflows sample_env sample_api 50 (some "completed"))
        one_workflow
    × Run
        (Listed sample_env sample_api one_workflow
          (λ db. db.approvals)
          (λ (a : Approval). a.id)
          (Undecided true)
          50
          (approval_dict sample_env))
        (λ e t. t.db ≡ one_workflow.db)
        (list_approvals sample_env sample_api true 50)
        one_workflow
    × Run
        (Listed sample_env sample_api one_workflow
          (λ db. db.memory)
          (λ (m : Memory). m.id)
          (λ m. Unit {0})
          50
          (memory_dict sample_env))
        (λ e t. t.db ≡ one_workflow.db)
        (memory_recent sample_env sample_api 50)
        one_workflow
lists-Listed_example = lists-Listed sample_env sample_api one_workflow (some "completed") true 50

abbrev statuses : List String
statuses = "completed" ∷ "failed" ∷ "completed" ∷ []

recent_lines-lem_example :
    (length (recent_lines 100 (finished_workflow ∷ [])) ≤ 100)
    × (length (recent_lines 100 (finished_workflow ∷ [])) ≤ 200)
    × ((line : ℕ × LogEntry)
        → Memᴰ line (recent_lines 100 (finished_workflow ∷ []))
        → LineOf (finished_workflow ∷ []) line)
recent_lines-lem_example = recent_lines-lem 100 (finished_workflow ∷ [])

next_fire-daily_example :
    (fire : ℕ) × (next_fire 9 100000 ≡ ok fire)
    × (100000 < fire)
    × (fire ≤ 100000 + 86400)
    × (fire % 86400 ≡ 32400)
    × ((late : ℕ) → late < 86400 → next_fire 9 (fire + late) ≡ ok (fire + 86400))
next_fire-daily_example = next_fire-daily 9 100000 (omega arith)

abbrev start_config : StartConfig
start_config = record {
  num_workers = 2;
  database_url = "postgresql://";
  redis_url = "redis://";
  orphan_workflow_max_age_seconds = 600;
  connect_fails = λ n. none;
  migrate_fails = λ n. none;
  watcher_fails = λ n. none;
}

prepare-Run_example :
    Run
      (Prepared sample_env start_config start)
      (λ e. SameRows start)
      (prepare sample_env start_config)
      start
prepare-Run_example = prepare-Run sample_env start_config start

abbrev paths : List String
paths = "/a" ∷ "/b c" ∷ []

paths-IsEntry : (p : String) → Memᴰ p paths → IsEntry p
unfolding has_char strip
paths-IsEntry p m = elim (cases_cons m) [
  | inl e ↦ subst IsEntry (sym e) (record { no_comma = refl; nonempty = refl; stripped = refl })
  | inr t ↦ elim (cases_cons t) [
    | inl e ↦ subst IsEntry (sym e) (record { no_comma = refl; nonempty = refl; stripped = refl })
    | inr u ↦ absurd (not-nil u)
  ]
]

split_paths-join_example : split_paths (raw (join "," paths)) ≡ paths
split_paths-join_example = split_paths-join paths paths-IsEntry

-- One of two paths is a repository, and its head moves during the start.
abbrev with_git : String → Bool
with_git r = str_eq r "/a"

start_watching-AllWatched_example :
    AllWatched with_git
      (λ r. some "old")
      (λ r. some "new")
      paths
      (start_watching with_git (λ r. some "old") (λ r. some "new") (λ r. takes) paths)
start_watching-AllWatched_example =
    start_watching-AllWatched with_git (λ r. some "old") (λ r. some "new") paths

abbrev no_tables : Schema
no_tables = record { tables = []; indexes = [] }

abbrev first_schema : Schema
first_schema = record {
  tables = tasks_table ∷ workflows_table ∷ memory_table ∷ approvals_table ∷ [];
  indexes =
      record { name = "idx_tasks_status"; table = "tasks"; column = "status" }
      ∷ record { name = "idx_tasks_workflow"; table = "tasks"; column = "workflow_id" }
      ∷ record { name = "idx_workflows_status"; table = "workflows"; column = "status" }
      ∷ record { name = "idx_memory_category"; table = "memory"; column = "category" }
      ∷ record { name = "idx_approvals_decision"; table = "approvals"; column = "decision" }
      ∷ [];
}

-- Up and down again.
there_and_back :
    (run_all upgrade no_tables ≡ ok first_schema) × (run_all downgrade first_schema ≡ ok no_tables)
unfolding run_all
there_and_back = (refl, refl)

upgrade-twice_example :
    (s' : Schema) × (run_all upgrade no_tables ≡ ok s')
    × Grows no_tables s'
    × AllPresent upgrade s'
    × (run_all upgrade s' ≡ ok s')
upgrade-twice_example =
    upgrade-twice no_tables (λ e c m. cc, (λ e c m. cc, (λ e c m. cc, (λ e c m. cc, tt))))
