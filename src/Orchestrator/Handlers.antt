-- ===== src/Orchestrator/Handlers.antt =====
-- core/orchestrator/main.py: the two handlers that the orchestrator registers, with the dicts that they
-- return.
use wiseorder.Prelude.{String, true, List, [], ◌∷◌}
use wiseorder.Values.{Fields, field, end, text, num, obj, flag, opt_num}
use wiseorder.Exec.{pure, ◌>>=◌}
use wiseorder.Runtime.{Env}
use wiseorder.Pipeline.{run_commit_pipeline}
use wiseorder.Pipeline.Records.{RunResult, finished, skipped, summary_dict}
use wiseorder.Forge.{ForgeResult, run_demo_forge_request}
use wiseorder.Forge.Config.{ForgeConfig}
use wiseorder.Orchestrator.{Handler}

abbrev pub run_dict : RunResult → Fields
run_dict (finished workflow_id approval_id eng post) = field "workflow_id" (num workflow_id) (
    field "approval_id" (num approval_id)
      (field "summary" (obj (summary_dict eng)) (field "social_post" (text post) end)))
run_dict (skipped workflow_id reason) =
    field "workflow_id" (opt_num workflow_id)
      (field "skipped" (flag true) (field "reason" (text reason) end))

abbrev pub forge_dict : ForgeResult → Fields
forge_dict r = field "workflow_id" (num r.workflow_id) (
    field "approval_id" (num r.approval_id)
      (field "scenario" (text r.scenario) (field "artifact_count" (num r.artifact_count) end)))

module _ {R : Type 0} (env : Env R) (config : ForgeConfig) where
  abbrev pub commit_handler : Handler R
  commit_handler payload = run_commit_pipeline env payload >>= λ r. pure (run_dict r)

  abbrev pub forge_handler : Handler R
  forge_handler payload = run_demo_forge_request env config payload >>= λ r. pure (forge_dict r)

  -- self._handlers of a new Orchestrator
  abbrev pub registered : List (String × Handler R)
  registered = ("commit_pipeline", commit_handler) ∷ ("demo_request", forge_handler) ∷ []
