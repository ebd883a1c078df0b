-- ===== src/Forge.antt =====
-- workflows/demo_forge.py: the handler of `demo_request` jobs. What `make` does, what the file system
-- holds, SHA-256 and Python's `repr` are parameters.
pub mod Artifacts
pub mod Config
pub mod Described
pub mod Steps
pub mod Stages
pub mod Delivery
pub mod Outcome
pub mod Context
pub mod Request
use wiseorder.Prelude.{
  ℕ, String, Bool, true, false, not, ◌||◌, Option, none, some, List, [], ◌∷◌, map, last_n,
  if◌then◌else◌,
}
use wiseorder.Prelude.Text
use wiseorder.Prelude.Text.{str_eq, concat, join, strip, is_empty, split}
use wiseorder.Prelude.Decimal.{str}
use wiseorder.Values.{Value, Fields, field, end, lookup, text, num, arr, flag, texts}
use wiseorder.Exec.{
  Result, ok, err, raised, value_error, runtime_error, file_not_found, Exec, pure, raise, lift,
  ◌>>=◌, ◌>>◌,
}
use wiseorder.Db.{Memory, Db, ids, add_row}
use wiseorder.Runtime.{World, Env, tick, session_scope}
use wiseorder.Gateway.{ApprovalRequest, send}
use wiseorder.Steps.{
  create_task, complete_task, fail_task, fail_workflow, complete_workflow, start_workflow,
}
use wiseorder.Pipeline.{with_workflow}
use Artifacts.{
  Artifact, Manifest, title_of, build_manifest, artifacts_of, manifest_dict, total_bytes, names_of,
  commas, format_outputs,
}
use Config.{ForgeConfig, Process, finished, timed_out, not_started, CommandResult, truthy}
use wiseorder.Prelude.{length}
use Steps.{tools_step, capture_step, render_step, manifest_step, save_manifest, approve_step}

-- What the handler returns.
pub record ForgeResult : Type 0 where
  pub workflow_id : ℕ
  pub approval_id : ℕ
  pub scenario : String
  pub artifact_count : ℕ

abbrev pub forge_chain : List String
forge_chain = "check_tools" ∷ "capture" ∷ "narrate" ∷ "render" ∷ "manifest" ∷ "approve" ∷ []

-- VALID_SCENARIOS
abbrev pub is_scenario : String → Bool
is_scenario s = str_eq s "001" || str_eq s "002" || str_eq s "003"

abbrev pub forge_result : ℕ → ℕ → String → Manifest → ForgeResult
forge_result workflow_id approval_id scenario manifest = record {
  workflow_id = workflow_id;
  approval_id = approval_id;
  scenario = scenario;
  artifact_count = length manifest.artifacts;
}

module _ {R : Type 0} (env : Env R) (config : ForgeConfig) where
  unfoldable pub run_forge_steps : ℕ → String → String → Bool → Exec (World R) ForgeResult
  unfolding tools_step capture_step render_step manifest_step save_manifest approve_step
  run_forge_steps workflow_id scenario trigger skip_render = do
    tools_step env config workflow_id scenario
    capture_step env config workflow_id scenario
    render_step env config workflow_id scenario skip_render
    manifest ← manifest_step env config workflow_id scenario
    save_manifest env config scenario manifest
    approval_id ← approve_step env config workflow_id scenario trigger manifest
    complete_workflow env "demo_request_completed" (field "approval_id" (num approval_id) end)
        workflow_id
    pure (forge_result workflow_id approval_id scenario manifest)

  abbrev str_of : String → Option Value → String
  str_of default none = default
  str_of default (some (text s)) = s
  str_of default (some v) = config.py_str v

  unfoldable pub check_scenario : String → Exec (World R) (Unit {0})
  check_scenario scenario =
      if is_scenario scenario
      then pure tt
      else raise (
          raised value_error (
            concat (
              "demo_request payload.scenario must be one of ['001', '002', '003'], got "
              ∷ config.repr scenario
              ∷ [])))

  -- `(df_dir / "Makefile").is_file()`
  unfoldable pub check_makefile : Exec (World R) (Unit {0})
  check_makefile w = if config.has_makefile w.calls then (ok tt, tick w) else (
    err (
        raised file_not_found (
          concat (
            "DEMO_FORGE_NOT_FOUND: " ∷ config.df_dir
            ∷ " does not contain a Makefile. Set WISEORDER_DEMO_FORGE_DIR to a valid demo-forge clone."
            ∷ []))),
    tick w,
  )

  abbrev pub scenario_of : Fields → String
  scenario_of payload = strip (str_of "" (lookup "scenario" payload))

  abbrev pub trigger_of : Fields → String
  trigger_of payload = str_of "manual" (lookup "trigger" payload)

  abbrev pub skips_render : Fields → Bool
  skips_render payload = truthy (lookup "skip_render" payload)

  abbrev pub started_details : Fields → Fields
  started_details payload = field "scenario" (text (scenario_of payload)) (
      field "trigger" (text (trigger_of payload)) (
        field "demo_forge_dir" (text config.df_dir)
          (field "skip_render" (flag (skips_render payload)) end)))

  -- From the workflow's row on.
  unfoldable pub begin_request : Fields → Exec (World R) ForgeResult
  begin_request payload = do
    workflow_id ←
        start_workflow env "demo_request" forge_chain "demo_request_started"
          (started_details payload)
    with_workflow workflow_id (
        run_forge_steps workflow_id (scenario_of payload) (trigger_of payload)
          (skips_render payload))

  unfoldable pub run_demo_forge_request : Fields → Exec (World R) ForgeResult
  unfolding check_scenario check_makefile lookup
  run_demo_forge_request payload = do
    check_scenario (scenario_of payload)
    check_makefile
    begin_request payload
