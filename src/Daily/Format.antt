-- ===== src/Daily/Format.antt =====
-- workflows/daily_summary.py: the text of the summary, in five sections, and the count of error lines.
use wiseorder.Prelude.{
  ℕ, String, Bool, true, false, not, ◌&&◌, ◌||◌, Option, none, some, List, [], ◌∷◌, ◌++◌, ltb, ◌==◌,
  take, map, keep, length, if◌then◌else◌,
}
use wiseorder.Prelude.Text.{concat, join, split, contains, rstrip}
use wiseorder.Prelude.Decimal.{str}
use wiseorder.Exec.{Result, ok, err}
use wiseorder.Daily.Stats.{DailyStats}

-- _count_recent_error_lines, given what the end of the file holds; its lines end with a newline only.
unfoldable pub count_error_lines : Option (Result String) → ℕ
count_error_lines none = 0
count_error_lines (some (err e)) = 0
count_error_lines (some (ok tail)) =
    length (keep (contains "\"levelname\": \"ERROR\"") (split "\n" tail))

-- bool(n), bool(xs)
abbrev pub is_some_number : ℕ → Bool
is_some_number n = not (n == 0)

abbrev pub is_nonempty : {A : Type 0} → List A → Bool
is_nonempty [] = false
is_nonempty (x ∷ xs) = true

-- `if b: lines.append(..)`
abbrev pub when : Bool → List String → List String
when b lines = if b then lines else []

abbrev counted : ℕ → String → List String
counted n what = when (is_some_number n) (concat (str n ∷ what ∷ []) ∷ [])

abbrev most_common_line : List (String × ℕ) → List String
most_common_line [] = []
most_common_line ((name, n) ∷ rest) =
    concat ("most common: `" ∷ name ∷ "` (" ∷ str n ∷ "x)." ∷ []) ∷ []

-- What changed
unfoldable pub changed_lines : DailyStats → List String
changed_lines s =
    if s.workflows_completed == 0
      && s.workflows_failed == 0
      && s.workflows_interrupted == 0
      && s.workflows_running == 0
    then "nothing — the runtime was idle." ∷ []
    else concat (
        join ", " (
          concat (str s.workflows_completed ∷ " workflow(s) completed" ∷ [])
          ∷ (counted s.workflows_failed " failed"
              ++ counted s.workflows_interrupted " interrupted"
              ++ counted s.workflows_running " still running"))
        ∷ "."
        ∷ [])
      ∷ most_common_line s.most_common_workflow_names

abbrev shape : String × ℕ → String
shape (k, n) = concat ("`" ∷ k ∷ "` (" ∷ str n ∷ ")" ∷ [])

abbrev failure_shapes : List (String × ℕ) → List String
failure_shapes [] = []
failure_shapes ((k, n) ∷ []) =
    concat ("failure shape: `" ∷ k ∷ "` (" ∷ str n ∷ " task(s))." ∷ []) ∷ []
failure_shapes (x ∷ y ∷ xs) =
    concat ("top failure shapes: " ∷ join ", " (map shape (take 3 (x ∷ y ∷ xs))) ∷ "." ∷ []) ∷ []

-- What failed
unfoldable pub failed_lines : DailyStats → List String
failed_lines s =
    if s.workflows_failed == 0
      && s.queue_depth_failed == 0
      && not (is_nonempty s.most_common_failure_types)
      && s.error_log_lines_count == 0
    then "nothing." ∷ []
    else counted s.workflows_failed " workflow(s) marked failed."
      ++ when (is_some_number s.queue_depth_failed) (
          concat (
            "dead-letter queue holds "
            ∷ str s.queue_depth_failed
            ∷ " job(s); see `GET /queues/failed`."
            ∷ [])
          ∷ [])
      ++ failure_shapes s.most_common_failure_types
      ++ when (is_some_number s.error_log_lines_count) (
          concat (
            "`logs/wiseorder.jsonl` has "
            ∷ str s.error_log_lines_count
            ∷ " ERROR-level line(s) in the recent tail."
            ∷ [])
          ∷ [])

unfoldable pub matter_lines : DailyStats → List String
matter_lines s =
    counted s.approvals_pending " pending approval card(s) — operator action required."
    ++ counted s.workflows_interrupted " interrupted workflow(s) — possible orchestrator restart."
    ++ counted s.queue_depth_failed " dead-letter job(s) — investigate or discard."
    ++ when (ltb 5 s.workflows_running) (
        concat (
          str s.workflows_running
          ∷ " workflows in 'running' state — verify they are actually progressing."
          ∷ [])
        ∷ [])

-- What matters most
unfoldable pub urgent_lines : DailyStats → List String
unfolding matter_lines
urgent_lines s =
    let found = matter_lines s in if is_nonempty found then found else "nothing urgent." ∷ []

-- Recommended next action
unfoldable pub next_action : DailyStats → String
next_action s =
    if is_some_number s.approvals_pending
    then "Review pending approvals first. Each card carries the engineering summary, social draft, and risk level."
    else if is_some_number s.queue_depth_failed || is_some_number s.workflows_failed
    then "Triage the dead-letter queue and failed workflows. `GET /queues/failed` lists each with timestamped error notes."
    else if is_some_number s.workflows_interrupted
    then "Investigate why workflow(s) were interrupted. Likely causes: orchestrator restart, host crash, or workflow stuck in 'running' past max-age."
    else if is_some_number s.workflows_running
    then "Confirm in-flight workflows are progressing. `GET /workflows/{id}` shows the per-task chain."
    else "None. The runtime is in a clean state."

abbrev decided_summary : DailyStats → String
decided_summary s =
    if s.approvals_rejected == 0
    then concat ("all " ∷ str s.approvals_decided ∷ " approved" ∷ [])
    else if s.approvals_approved == 0
    then concat ("all " ∷ str s.approvals_decided ∷ " rejected" ∷ [])
    else concat
        (str s.approvals_approved ∷ " approved, " ∷ str s.approvals_rejected ∷ " rejected" ∷ [])

-- Approval backlog
unfoldable pub backlog_line : DailyStats → String
backlog_line s =
    if s.approvals_pending == 0 && s.approvals_decided == 0
    then "no approvals in the last 24h."
    else concat (
        join "; " (
          concat (str s.approvals_pending ∷ " pending" ∷ [])
          ∷ when (is_some_number s.approvals_decided)
              (concat (str s.approvals_decided ∷ " decided (" ∷ decided_summary s ∷ ")" ∷ []) ∷ []))
        ∷ "."
        ∷ [])

unfoldable pub summary_lines : (ℕ → String) → DailyStats → ℕ → List String
unfolding changed_lines failed_lines urgent_lines next_action backlog_line
summary_lines date_of s now =
    (concat ("WiseOrder daily summary — " ∷ date_of now ∷ " (last 24 hours)." ∷ [])
      ∷ ""
      ∷ "**What changed**"
      ∷ [])
    ++ changed_lines s
    ++ ("" ∷ "**What failed**" ∷ [])
    ++ failed_lines s
    ++ ("" ∷ "**What matters most**" ∷ [])
    ++ urgent_lines s
    ++ ("" ∷ "**Recommended next action**" ∷ [])
    ++ (next_action s ∷ [])
    ++ ("" ∷ "**Approval backlog**" ∷ [])
    ++ (backlog_line s ∷ [])

-- _format_summary(s, now)
unfoldable pub format_summary : (ℕ → String) → DailyStats → ℕ → String
unfolding summary_lines
format_summary date_of s now = concat (rstrip (join "\n" (summary_lines date_of s now)) ∷ "\n" ∷ [])
