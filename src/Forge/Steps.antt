-- ===== src/Forge/Steps.antt =====
-- workflows/demo_forge.py: the steps of a demo request, in the order of `_run_steps`.
use wiseorder.Prelude.{
  ℕ, String, Bool, true, false, none, some, List, [], ◌∷◌, map, last_n, if◌then◌else◌,
}
use wiseorder.Prelude.Text
use wiseorder.Prelude.Text.{str_eq, concat, join, strip, is_empty, split}
use wiseorder.Prelude.Decimal.{str}
use wiseorder.Values.{Fields, field, end, text, num, arr, flag, texts}
use wiseorder.Exec.{Result, ok, err, raised, runtime_error, Exec, pure, raise, ◌>>=◌, ◌>>◌}
use wiseorder.Db.{Memory, ids, add_row}
use wiseorder.Runtime.{World, Env, tick, session_scope}
use wiseorder.Gateway.{ApprovalRequest, send}
use wiseorder.Steps.{create_task, complete_task, fail_task, fail_workflow}
use wiseorder.Forge.Artifacts.{
  Manifest, title_of, build_manifest, manifest_dict, total_bytes, names_of, commas, format_outputs,
}
use wiseorder.Forge.Config.{ForgeConfig, Process, finished, timed_out, not_started, CommandResult}
use wiseorder.Prelude.{length}

abbrev pub demo_name : String → String
demo_name scenario = concat ("DEMO_" ∷ scenario ∷ [])

-- A call of the outside, by its number.
abbrev pub ask : {R A : Type 0} → (ℕ → Result A) → Exec (World R) A
ask f w = (f w.calls, tick w)

abbrev pub capture_command : String → List String
capture_command scenario = "make" ∷ concat ("demo-" ∷ scenario ∷ []) ∷ []

abbrev pub render_command : String → List String
render_command scenario =
    "make" ∷ concat ("outputs/" ∷ demo_name scenario ∷ "/" ∷ demo_name scenario ∷ ".mp4" ∷ []) ∷ []

-- What `_run` makes of the subprocess, given the timeout as it prints.
unfoldable pub result_of : String → Process → Result CommandResult
result_of timeout (not_started e) = err e
result_of timeout timed_out = ok (record {
  rc = "-1";
  out = "";
  error = concat ("subprocess timeout after " ∷ timeout ∷ "s" ∷ []);
})
result_of timeout (finished rc out error) = ok (record { rc = rc; out = out; error = error })

module _ {R : Type 0} (env : Env R) (config : ForgeConfig) where
  -- _run(cmd, cwd=df_dir, timeout), with the timeout as it prints
  abbrev pub run_command : List String → String → Exec (World R) CommandResult
  run_command cmd timeout = ask (λ n. result_of timeout (config.run n cmd))

  abbrev pub scenario_payload : String → Fields
  scenario_payload scenario = field "scenario" (text scenario) end

  -- `rc != 0`: the task and the workflow are marked failed, and RuntimeError is raised.
  unfoldable pub give_up : {A : Type 0} → ℕ → ℕ → String → String → String → Exec (World R) A
  give_up workflow_id task_id error workflow_error message = do
    fail_task env task_id error
    fail_workflow env "demo_request_failed" workflow_id workflow_error
    raise (raised runtime_error message)

  -- What is done with the return of each command.
  unfoldable pub tools_run : ℕ → ℕ → CommandResult → Exec (World R) (Unit {0})
  unfolding give_up
  tools_run workflow_id task_id r =
      if str_eq r.rc "0"
      then complete_task env task_id (field "out" (text (Text.take 500 (strip r.out))) end)
      else give_up workflow_id task_id
          (concat ("DEMO_FORGE_MISSING_TOOLS: make check-tools rc=" ∷ r.rc ∷ []))
          "missing tools in demo-forge env"
          (concat (
            "DEMO_FORGE_MISSING_TOOLS: "
            ∷ (if is_empty (strip r.error) then strip r.out else strip r.error)
            ∷ []))

  unfoldable pub tools_step : ℕ → String → Exec (World R) (Unit {0})
  unfolding tools_run
  tools_step workflow_id scenario = do
    task_id ← create_task env "check_tools" workflow_id (scenario_payload scenario)
    r ← run_command ("make" ∷ "check-tools" ∷ []) "90.0"
    tools_run workflow_id task_id r

  abbrev list_repr : List String → String
  list_repr xs = concat ("[" ∷ join ", " (map config.repr xs) ∷ "]" ∷ [])

  abbrev target_of : String → String
  target_of scenario = concat ("demo-" ∷ scenario ∷ [])

  unfoldable pub capture_run : ℕ → ℕ → String → CommandResult → Exec (World R) (Unit {0})
  unfolding give_up
  capture_run workflow_id task_id scenario r =
      let target = target_of scenario in
      let lines = split "\n" (strip r.out) in
      if str_eq r.rc "0"
      then complete_task env task_id (field "out_tail" (arr (texts (last_n 30 lines))) end)
      else give_up workflow_id task_id
          (concat ("DEMO_FORGE_SUBPROCESS_FAIL: make " ∷ target ∷ " rc=" ∷ r.rc ∷ []))
          "demo capture failed"
          (concat (
            "DEMO_FORGE_SUBPROCESS_FAIL: stdout(last 200 lines)=\n"
            ∷ list_repr (last_n 200 lines)
            ∷ "\nstderr=\n"
            ∷ Text.take 1000 (strip r.error)
            ∷ []))

  unfoldable pub capture_step : ℕ → String → Exec (World R) (Unit {0})
  unfolding capture_run
  capture_step workflow_id scenario = do
    task_id ← create_task env "capture" workflow_id (scenario_payload scenario)
    r ← run_command (capture_command scenario) "180"
    capture_run workflow_id task_id scenario r

  unfoldable pub render_run : ℕ → CommandResult → Exec (World R) (Unit {0})
  render_run task_id r =
      if str_eq r.rc "0"
      then complete_task env task_id (field "ok" (flag true) end)
      else fail_task env task_id
          (concat ("DEMO_FORGE_MP4_FAIL: rc=" ∷ r.rc ∷ " (continuing without MP4)" ∷ []))

  -- `if not skip_render:`, whose failure does not end the request
  unfoldable pub render_step : ℕ → String → Bool → Exec (World R) (Unit {0})
  unfolding render_run
  render_step workflow_id scenario true = pure tt
  render_step workflow_id scenario false = do
    task_id ← create_task env "render_mp4" workflow_id (scenario_payload scenario)
    r ← run_command (render_command scenario) "120"
    render_run task_id r

  abbrev pub out_dir_of : String → String
  out_dir_of scenario = concat (config.df_dir ∷ "/outputs/" ∷ demo_name scenario ∷ [])

  -- `out_dir.is_dir()`
  abbrev pub is_dir : String → Exec (World R) Bool
  is_dir dir = ask (λ n. ok (config.is_dir n dir))

  -- _build_manifest(out_dir, scenario)
  abbrev pub manifest_at : String → ℕ → Result Manifest
  manifest_at scenario n =
      let dir = out_dir_of scenario in
      build_manifest config.sha256 (config.listing n dir) dir scenario (config.stamp (env.clock n))

  unfoldable pub manifest_found : ℕ → ℕ → String → Bool → Exec (World R) Manifest
  unfolding build_manifest give_up
  manifest_found workflow_id task_id scenario true = do
    manifest ← ask (manifest_at scenario)
    complete_task env task_id (field "artifact_count" (num (length manifest.artifacts)) end)
    pure manifest
  manifest_found workflow_id task_id scenario false =
      give_up workflow_id task_id "DEMO_FORGE_MANIFEST_FAIL: outputs dir missing"
        "manifest computation failed"
        (concat ("DEMO_FORGE_MANIFEST_FAIL: " ∷ out_dir_of scenario ∷ " not found" ∷ []))

  unfoldable pub manifest_step : ℕ → String → Exec (World R) Manifest
  unfolding manifest_found
  manifest_step workflow_id scenario = do
    task_id ← create_task env "manifest" workflow_id (scenario_payload scenario)
    there ← is_dir (out_dir_of scenario)
    manifest_found workflow_id task_id scenario there

  -- The session that adds the manifest's memory row.
  unfoldable pub save_manifest : String → Manifest → Exec (World R) (Unit {0})
  unfolding session_scope commas total_bytes manifest_dict title_of
  save_manifest scenario manifest = session_scope env λ n db.
      let m : Memory = record {
        id = env.postgres.serial n (ids (λ m. m.id) db.memory);
        category = "demo_forge_manifest";
        content = concat (
            demo_name scenario
            ∷ " ("
            ∷ title_of "" scenario
            ∷ ") — "
            ∷ str (length manifest.artifacts)
            ∷ " artifacts, "
            ∷ commas (total_bytes manifest.artifacts)
            ∷ " bytes"
            ∷ []);
        embedding_id = none;
        meta = manifest_dict manifest;
        created_at = env.clock n;
      } in
      pure tt (record db { memory = add_row m db.memory })

  -- _format_outputs_for_approval(manifest, out_dir)
  abbrev pub outputs_at : String → Manifest → ℕ → Result Fields
  outputs_at scenario manifest n =
      let x_thread_path =
        concat (out_dir_of scenario ∷ "/" ∷ demo_name manifest.scenario ∷ "_x_thread.md" ∷ []) in
      format_outputs config.digest (config.read_text n x_thread_path) manifest

  unfoldable pub demo_request : ℕ → ℕ → String → String → Manifest → Fields → ApprovalRequest
  unfolding title_of names_of
  demo_request workflow_id task_id scenario trigger manifest outputs = record {
    summary = concat (
        "Demo ready — "
        ∷ demo_name scenario
        ∷ " ("
        ∷ title_of "unknown" scenario
        ∷ "). Trigger: "
        ∷ trigger
        ∷ ". Approve to publish."
        ∷ []);
    outputs = outputs;
    affected = names_of manifest.artifacts;
    risk_level = "low";
    workflow_id = some workflow_id;
    task_id = some task_id;
  }

  unfoldable pub approve_step : ℕ → String → String → Manifest → Exec (World R) ℕ
  unfolding format_outputs demo_request
  approve_step workflow_id scenario trigger manifest = do
    task_id ← create_task env "approve" workflow_id (scenario_payload scenario)
    outputs ← ask (outputs_at scenario manifest)
    approval_id ← send env (demo_request workflow_id task_id scenario trigger manifest outputs)
    complete_task env task_id (field "approval_id" (num approval_id) end)
    pure approval_id
