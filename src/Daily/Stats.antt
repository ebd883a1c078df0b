-- ===== src/Daily/Stats.antt =====
-- workflows/daily_summary.py, the dataclass DailyStats.
use wiseorder.Prelude.{ℕ, String, List, [], ◌∷◌}
use wiseorder.Values.{text, num, arr, Items, nil, item, Fields, field, end}

pub record DailyStats : Type 0 where
  pub period_start_utc : String
  pub period_end_utc : String
  pub workflows_completed : ℕ
  pub workflows_failed : ℕ
  pub workflows_interrupted : ℕ
  pub workflows_running : ℕ
  pub tasks_completed : ℕ
  pub tasks_failed : ℕ
  pub approvals_pending : ℕ
  pub approvals_decided : ℕ
  pub approvals_approved : ℕ
  pub approvals_rejected : ℕ
  pub queue_depth_high : ℕ
  pub queue_depth_normal : ℕ
  pub queue_depth_failed : ℕ
  pub most_common_workflow_names : List (String × ℕ)
  pub most_common_failure_types : List (String × ℕ)
  pub error_log_lines_count : ℕ

-- DailyStats.to_dict()
pairs : List (String × ℕ) → Items
pairs [] = nil
pairs ((s, n) ∷ xs) = item (arr (item (text s) (item (num n) nil))) (pairs xs)

unfoldable pub stats_dict : DailyStats → Fields
unfolding pairs
stats_dict s = field "period_start_utc" (text s.period_start_utc) (
    field "period_end_utc" (text s.period_end_utc) (
      field "workflows_completed" (num s.workflows_completed) (
        field "workflows_failed" (num s.workflows_failed) (
          field "workflows_interrupted" (num s.workflows_interrupted) (
            field "workflows_running" (num s.workflows_running) (
              field "tasks_completed" (num s.tasks_completed) (
                field "tasks_failed" (num s.tasks_failed) (
                  field "approvals_pending" (num s.approvals_pending) (
                    field "approvals_decided" (num s.approvals_decided) (
                      field "approvals_approved" (num s.approvals_approved) (
                        field "approvals_rejected" (num s.approvals_rejected) (
                          field "queue_depth_high" (num s.queue_depth_high) (
                            field "queue_depth_normal" (num s.queue_depth_normal) (
                              field "queue_depth_failed" (num s.queue_depth_failed) (
                                field "most_common_workflow_names"
                                  (arr (pairs s.most_common_workflow_names))
                                  (field "most_common_failure_types"
                                    (arr (pairs s.most_common_failure_types))
                                    (field "error_log_lines_count" (num s.error_log_lines_count)
                                      end)))))))))))))))))
