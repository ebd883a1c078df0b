-- ===== src/Examples/Approvals.antt =====
-- The approval gateway over the sample places.
use wiseorder.Prelude.{◌≡◌, refl, none, some, [], ◌∷◌}
use wiseorder.Exec.Ends.{Run}
use wiseorder.Values.{end}
use wiseorder.Gateway.{ApprovalRequest, send, decide}
use wiseorder.Gateway.Delivered.{Sent, send-Run}
use wiseorder.Gateway.Decisions.{Decision, decide-Run}
use wiseorder.Examples.Sample.{sample_env, start}

abbrev request : ApprovalRequest
request = record {
  summary = "s";
  outputs = end;
  affected = "a.py" ∷ [];
  risk_level = "low";
  workflow_id = some 1;
  task_id = none;
}

send-Run_example : Run (Sent sample_env request start) (λ e t. ⊥) (send sample_env request) start
send-Run_example = send-Run sample_env (λ n. refl) request start

decide-Run_example :
    Run
      (Decision sample_env 1 "approved" (send sample_env request start).1)
      (λ e t. t.db ≡ (send sample_env request start).1.db)
      (decide sample_env 1 "approved")
      (send sample_env request start).1
decide-Run_example = decide-Run sample_env 1 "approved" (send sample_env request start).1
