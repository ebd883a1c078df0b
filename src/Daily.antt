-- ===== src/Daily.antt =====
-- workflows/daily_summary.py: the summary of a day. The lists that Counter and GROUP BY put in an order
-- that the code does not fix are parameters, and so is the reading of the log file.
pub mod Stats
pub mod Clean
pub mod Format
pub mod Once
pub mod Schedule
use Stats.{DailyStats, stats_dict}
use Format.{format_summary, count_error_lines}
use wiseorder.Prelude.{
  ℕ, ◌+◌, ◌-◌, ◌*◌, ◌/◌, String, Bool, true, false, ◌&&◌, ◌||◌, Option, none, some, List, [], ◌∷◌,
  ◌++◌, map, keep, length, take, ltb, leb, if◌then◌else◌,
}
use wiseorder.Prelude.Text.{str_eq, lower, contains}
use wiseorder.Values.{Value, text, num, arr, obj, Items, nil, item, Fields, field, end, lookup}
use wiseorder.Exec.{Result, ok, err, Exn, raised, value_error, Exec, pure, ◌>>=◌, ◌>>◌, try_except}
use wiseorder.Queue
use wiseorder.Db.{
  Db, Task, Workflow, Memory, Approval, Status, running, completed, failed, interrupted, ids,
  add_row,
}
use wiseorder.Runtime.{World, Env, tick, on_redis, session_scope}

-- What the answer of run_daily_summary says.
pub data DailyResult : Type 0 where
  already_ran : (memory_id : ℕ) (date : String) → DailyResult
  written : (memory_id : ℕ) (date summary : String) (stats : DailyStats) → DailyResult

-- What the summary takes from outside.
pub record DailyConfig : Type 0 where
  -- now.strftime("%Y-%m-%d") of a time in seconds
  pub date_of : ℕ → String
  -- the five most common, with their counts, of a list of texts
  pub most_common : List String → List (String × ℕ)
  -- the last 1500000 bytes of logs/wiseorder.jsonl as text, at this call; `none` where there is no file
  pub log_tail : ℕ → Option (Result String)
  pub append_fails : ℕ → Option Exn

-- _classify_error(text)
unfoldable pub classify_error : String → String
classify_error s =
    let t = lower s in
    if contains "timeout" t || contains "timed out" t
    then "timeout"
    else if contains "connection" t && (contains "refused" t || contains "reset" t)
    then "connection_refused"
    else if contains "permission" t || contains "authoriz" t
    then "permission_denied"
    else if contains "invalid" t && contains "json" t
    then "json_parse"
    else if contains "no handler" t
    then "no_handler"
    else if contains "summarize failed" t || contains "draft failed" t
    then "llm_failed"
    else "other"

-- Created in the period from start to end, where end is not of it.
abbrev pub within : ℕ → ℕ → ℕ → Bool
within start stop created = leb start created && ltb created stop

abbrev pub same_status : Status → Status → Bool
same_status running running = true
same_status completed completed = true
same_status failed failed = true
same_status interrupted interrupted = true
same_status _ _ = false

-- The counts by status of the rows of the period.
unfoldable pub count_workflows : ℕ → ℕ → Status → List Workflow → ℕ
count_workflows start stop st ws =
    length (keep (λ w. within start stop w.created_at && same_status st w.status) ws)

unfoldable pub count_tasks : ℕ → ℕ → Status → List Task → ℕ
count_tasks start stop st ts =
    length (keep (λ t. within start stop t.created_at && same_status st t.status) ts)

-- `row[0] or "pending"`
abbrev pub decision_name : Option String → String
decision_name none = "pending"
decision_name (some d) = if str_eq d "" then "pending" else d

unfoldable pub count_approvals : ℕ → ℕ → String → List Approval → ℕ
count_approvals start stop d rows =
    length (keep (λ a. within start stop a.created_at && str_eq (decision_name a.decision) d) rows)

-- The classes of the errors of the failed tasks of the period, of which the first 200 are counted.
unfoldable pub failure_types : ℕ → ℕ → List Task → List String
unfolding classify_error
failure_types start stop [] = []
failure_types start stop (t ∷ ts) =
    let rest = failure_types start stop ts in
    if same_status failed t.status && within start stop t.created_at
    then elim t.error [ none ↦ rest | some e ↦ classify_error e ∷ rest ]
    else rest

-- SELECT .. WHERE category == "daily_summary" ORDER BY id DESC LIMIT 1
abbrev later : Memory → Option Memory → Option Memory
later m none = some m
later m (some n) = if ltb n.id m.id then some m else some n

unfoldable pub latest_daily : List Memory → Option Memory
latest_daily [] = none
latest_daily (m ∷ ms) =
    let rest = latest_daily ms in if str_eq m.category "daily_summary" then later m rest else rest

-- existing.meta.get("date") == today
abbrev pub has_date : String → Option Value → Bool
has_date date (some (text s)) = str_eq s date
has_date date _ = false

abbrev today_of : String → Option Memory → Option ℕ
today_of date none = none
today_of date (some m) = if has_date date (lookup "date" m.meta) then some m.id else none

-- now.replace(hour=target_hour, minute=0, ..), or a day later where that is past; `replace` raises for an
-- hour that no day has. Times are whole seconds of UTC.
unfoldable pub next_fire : ℕ → ℕ → Result ℕ
next_fire target_hour now =
    let fire = now / 86400 * 86400 + target_hour * 3600 in
    if ltb target_hour 24
    then ok (if leb fire now then fire + 86400 else fire)
    else err (raised value_error "hour must be in 0..23")

module _ {R : Type 0} (env : Env R) (config : DailyConfig) where
  -- The id of today's summary, if the last summary is today's.
  existing_today : String → Exec (World R) (Option ℕ)
  unfolding session_scope latest_daily lookup
  existing_today date = session_scope env λ n db. pure (today_of date (latest_daily db.memory)) db

  abbrev counts_of : ℕ → ℕ → Db → (ℕ × ℕ × ℕ) → ℕ → DailyStats
  counts_of start stop db depths lines = record {
    period_start_utc = env.iso start;
    period_end_utc = env.iso stop;
    workflows_completed = count_workflows start stop completed db.workflows;
    workflows_failed = count_workflows start stop failed db.workflows;
    workflows_interrupted = count_workflows start stop interrupted db.workflows;
    workflows_running = count_workflows start stop running db.workflows;
    tasks_completed = count_tasks start stop completed db.tasks;
    tasks_failed = count_tasks start stop failed db.tasks;
    approvals_pending = count_approvals start stop "pending" db.approvals;
    approvals_decided =
        count_approvals start stop "approved" db.approvals
        + count_approvals start stop "rejected" db.approvals;
    approvals_approved = count_approvals start stop "approved" db.approvals;
    approvals_rejected = count_approvals start stop "rejected" db.approvals;
    queue_depth_high = depths.0;
    queue_depth_normal = depths.1;
    queue_depth_failed = depths.2;
    most_common_workflow_names =
        config.most_common
          (map (λ w. w.workflow_name) (keep (λ w. within start stop w.created_at) db.workflows));
    most_common_failure_types = config.most_common (take 200 (failure_types start stop db.tasks));
    error_log_lines_count = lines;
  }

  gather_stats : ℕ → ℕ → Exec (World R) DailyStats
  unfolding session_scope count_error_lines count_workflows count_tasks count_approvals
      failure_types
  gather_stats start stop = do
    db ← session_scope env (λ n db. pure db db)
    depths ← on_redis (Queue.all_depths env.redis env.json)
    lines ← λ w. pure (count_error_lines (config.log_tail w.calls)) w
    pure (counts_of start stop db depths lines)

  abbrev summary_row : ℕ → ℕ → String → String → DailyStats → Memory
  summary_row n id date summary stats = record {
    id = id;
    category = "daily_summary";
    content = summary;
    embedding_id = none;
    meta = field "date" (text date) (
        field "period_start_utc" (text stats.period_start_utc) (
          field "period_end_utc" (text stats.period_end_utc)
            (field "stats" (obj (stats_dict stats)) end)));
    created_at = env.clock n;
  }

  add_summary : String → String → DailyStats → Exec (World R) ℕ
  unfolding session_scope stats_dict
  add_summary date summary stats = session_scope env λ n db.
      let id = env.postgres.serial n (ids (λ m. m.id) db.memory) in
      let m = summary_row n id date summary stats in
      pure id (record db { memory = add_row m db.memory })

  -- The line is appended to logs/daily_summary.jsonl, or the exception is caught.
  append_summary : Fields → Exec (World R) (Unit {0})
  append_summary line w = elim (config.append_fails w.calls) [
    | some e ↦ (ok tt, tick w)
    | none ↦ (ok tt, record (tick w) { summaries_log = w.summaries_log ++ line ∷ [] })
  ]

  write_summary : ℕ → String → Exec (World R) DailyResult
  unfolding gather_stats format_summary add_summary append_summary stats_dict
  write_summary now date = do
    stats ← gather_stats (now - 86400) now
    let summary = format_summary config.date_of stats now
    memory_id ← add_summary date summary stats
    append_summary (
        field "ts" (text (env.iso now)) (
          field "date" (text date) (
            field "memory_id" (num memory_id)
              (field "stats" (obj (stats_dict stats)) (field "summary" (text summary) end)))))
    pure (written memory_id date summary stats)

  answer : ℕ → String → Option ℕ → Exec (World R) DailyResult
  unfolding write_summary
  answer now date (some memory_id) = pure (already_ran memory_id date)
  answer now date none = write_summary now date

  unfoldable pub run_daily_summary : Exec (World R) DailyResult
  unfolding existing_today answer
  run_daily_summary = do
    now ← λ w. pure (env.clock w.calls) w
    let date = config.date_of now
    existing ← existing_today date
    answer now date existing

  abbrev next_waking : ℕ → Exec (World R) ℕ
  next_waking target_hour w = (next_fire target_hour (env.clock w.calls), w)

  -- The scheduler, given whether each sleep is cancelled: the loop has no other end. An exception of a
  -- run is logged, and the target hour is checked in each round.
  unfoldable pub schedule_daily_summary : ℕ → List Bool → Exec (World R) (Unit {0})
  unfolding next_fire run_daily_summary
  schedule_daily_summary target_hour [] = pure tt
  schedule_daily_summary target_hour (cancelled ∷ rounds) =
      let more = schedule_daily_summary target_hour rounds in
      let run = try_except (run_daily_summary >> pure tt) (λ e. pure tt) in
      next_waking target_hour >> (if cancelled then pure tt else (run >> more))
