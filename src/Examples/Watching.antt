-- ===== src/Examples/Watching.antt =====
-- The watchers and the daily summary over the sample servers.
use wiseorder.Prelude.{last_n, ◌↔◌, String, ◌≡◌, refl, true, false, none, some, List, [], ◌∷◌, any}
use wiseorder.Prelude.Text.{str_eq}
use wiseorder.Exec.{ok}
use wiseorder.Exec.Ends.{Run}
use wiseorder.Redis.Sample.{sample_redis}
use wiseorder.Queue
use wiseorder.Queue.{high, normal}
use wiseorder.Runtime.{World, on_redis}
use wiseorder.Watchers.Integrity.{
  IntegrityWatcher, IntegrityCheck, Verification, verified, no_directory,
}
use wiseorder.Watchers.Polls.{
  Wait, stopped, timed_out, before_stop, run_integrity, run_ci, no_checks,
}
use wiseorder.Watchers.Kept.{all_checks, last_valid, run_integrity-history}
use wiseorder.Watchers.Repos.{history_of, found_over, run_ci-history}
use wiseorder.Watchers.Ci.{
  WorkflowRun, check_runs, detect_flaky_workflows, GhOutcome, not_installed,
}
use wiseorder.Watchers.Flaky.{FailedAndPassed}
use wiseorder.Watchers.Complete.{detect_flaky_workflows_lem}
use wiseorder.Watchers.Classed.{Classed, check_runs-Classed}
use wiseorder.Daily.Stats.{DailyStats}
use wiseorder.Daily.Format.{format_summary, count_error_lines}
use wiseorder.Daily.{DailyConfig, run_daily_summary, already_ran, written}
use wiseorder.Events.{GitHeadHandler}
use wiseorder.Events.Chain.{HeadEvent, handle_events, Leads, handle_events-Leads}
use wiseorder.Daily.Once.{run_daily_summary-run_daily_summary}
use wiseorder.Logging.{
  Logging, LogRecord, elsewhere, lines, bind_job, bind_workflow, configure_logging,
}
use wiseorder.Logging.Lines.{both, stamped, lines-configured}
use wiseorder.Examples.Sample.{sample_env, start, below-above}

abbrev watcher : IntegrityWatcher
watcher = record { chain_dir = "chain"; history = []; last_head = none }

-- A valid chain is found, then the directory is missing, then the watcher is stopped.
abbrev meets : List (Wait (String × Verification))
meets = timed_out ("u", no_directory) ∷ stopped ∷ timed_out ("v", no_directory) ∷ []

abbrev all_made : List IntegrityCheck
all_made = all_checks "chain" (("t", verified "CHAIN_VALID" 1 (some "h") none) ∷ before_stop meets)

run_integrity-history_example :
    ((run_integrity watcher ("t", verified "CHAIN_VALID" 1 (some "h") none) meets).history
      ≡ last_n 100 all_made)
    × ((run_integrity watcher ("t", verified "CHAIN_VALID" 1 (some "h") none) meets).last_head
        ≡ last_valid none all_made)
run_integrity-history_example =
    run_integrity-history watcher ("t", verified "CHAIN_VALID" 1 (some "h") none) meets refl

abbrev no_gh : String → String × GhOutcome
no_gh repo = ("t", not_installed)

run_ci-history_example :
    history_of "a" (
      run_ci
        (λ s. ok [])
        (λ v. "")
        ("a" ∷ "b" ∷ [])
        (no_checks ("a" ∷ "b" ∷ []))
        no_gh
        (timed_out no_gh ∷ []))
    ≡ last_n 50 (found_over (λ s. ok []) (λ v. "") "a" ("a" ∷ "b" ∷ []) (no_gh ∷ no_gh ∷ []))
run_ci-history_example =
    run_ci-history (λ s. ok []) (λ v. "") "a" ("a" ∷ "b" ∷ []) no_gh (timed_out no_gh ∷ [])

abbrev runs : List WorkflowRun
runs =
    (record {
      repo = "r";
      name = "ci";
      status = "completed";
      conclusion = "failure";
      head_sha = "a";
      created_at = "";
      url = "";
    })
    ∷ []

check_runs-Classed_example : Classed runs (check_runs (λ s. ok []) (λ v. "") "t" "r" runs)
check_runs-Classed_example = check_runs-Classed (λ s. ok []) (λ v. "") "t" "r" runs

abbrev daily : DailyConfig
daily = record {
  date_of = λ n. "d";
  most_common = λ names. [];
  log_tail = λ n. none;
  append_fails = λ n. none;
}

abbrev no_stats : DailyStats
no_stats = record {
  period_start_utc = "t";
  period_end_utc = "t";
  workflows_completed = 0;
  workflows_failed = 0;
  workflows_interrupted = 0;
  workflows_running = 0;
  tasks_completed = 0;
  tasks_failed = 0;
  approvals_pending = 0;
  approvals_decided = 0;
  approvals_approved = 0;
  approvals_rejected = 0;
  queue_depth_high = 0;
  queue_depth_normal = 0;
  queue_depth_failed = 0;
  most_common_workflow_names = [];
  most_common_failure_types = [];
  error_log_lines_count = 0;
}

abbrev first_text : String
first_text = format_summary (λ n. "d") no_stats 0

first_summary :
    (run_daily_summary sample_env daily start).0 ≡ ok (written 1 "d" first_text no_stats)
unfolding run_daily_summary wiseorder.Daily.latest_daily Queue.all_depths Queue.depth on_redis
    sample_redis wiseorder.Runtime.session_scope wiseorder.Daily.count_workflows
    wiseorder.Daily.count_tasks wiseorder.Daily.count_approvals wiseorder.Daily.failure_types
    count_error_lines
first_summary = refl

run_daily_summary-run_daily_summary_example :
    Run
      (λ r s. (r ≡ already_ran 1 "d") × (s.db ≡ (run_daily_summary sample_env daily start).1.db))
      (λ e s. s.db ≡ (run_daily_summary sample_env daily start).1.db)
      (run_daily_summary sample_env daily)
      (run_daily_summary sample_env daily start).1
run_daily_summary-run_daily_summary_example =
    run_daily_summary-run_daily_summary sample_env daily (λ n js i h. below-above js i h) 1 "d"
      first_text no_stats start (run_daily_summary sample_env daily start).1
      (run_daily_summary sample_env daily start).1
      (λ i. (first_summary i, (run_daily_summary sample_env daily start).1)) refl refl

abbrev head_handler : GitHeadHandler
head_handler = record { repo_path = "r"; last_sha = some "a" }

abbrev head_event : String → HeadEvent
head_event sha =
    (record { whole = "r/.git/HEAD"; parts = "r" ∷ ".git" ∷ "HEAD" ∷ []; name = "HEAD" }, some sha)

handle_events-Leads_example :
    Leads
      (some "a")
      (handle_events head_handler (head_event "b" ∷ head_event "b" ∷ head_event "c" ∷ [])).1
      (handle_events head_handler
        (head_event "b" ∷ head_event "b" ∷ head_event "c" ∷ [])).0.last_sha
handle_events-Leads_example =
    handle_events-Leads head_handler (head_event "b" ∷ head_event "b" ∷ head_event "c" ∷ [])

abbrev rerun : String → WorkflowRun
rerun conclusion = record {
  repo = "r";
  name = "ci";
  status = "completed";
  conclusion = conclusion;
  head_sha = "a";
  created_at = "";
  url = "";
}

detect_flaky_workflows_lem_example :
    (any (str_eq "ci") (detect_flaky_workflows (rerun "success" ∷ rerun "failure" ∷ [])) ≡ true)
    ↔ FailedAndPassed (rerun "success" ∷ rerun "failure" ∷ []) "ci"
detect_flaky_workflows_lem_example =
    detect_flaky_workflows_lem (rerun "success" ∷ rerun "failure" ∷ []) "ci"

-- The root logger before the logging is configured, and a record.
abbrev fresh_logging : Logging
fresh_logging = record {
  configured = false;
  level = "WARNING";
  handlers = record { target = elsewhere "pytest"; correlates = false } ∷ [];
}

abbrev a_record : LogRecord
a_record = record {
  name = "n";
  levelname = "INFO";
  message = "m";
  workflow_id = none;
  job_id = none;
}

lines-configured_example :
    (lines
        (bind_job (some "j") (bind_workflow none start).1).1
        (configure_logging "INFO" "logs" fresh_logging).handlers
        a_record
      ≡ both "logs" (stamped none (some "j") a_record))
    × (configure_logging "DEBUG" "x" (configure_logging "INFO" "logs" fresh_logging)
        ≡ configure_logging "INFO" "logs" fresh_logging)
lines-configured_example =
    lines-configured "INFO" "logs" "DEBUG" "x" fresh_logging start none (some "j") a_record refl
      (refl, refl)
