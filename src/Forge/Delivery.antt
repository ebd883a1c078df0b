-- ===== src/Forge/Delivery.antt =====
-- The last steps of a demo request, where the database takes every transaction: the render, the manifest
-- and the approval.
use wiseorder.Prelude.{
  ℕ, String, Bool, true, false, Bool-cases, ◌≡◌, refl, none, List, [], ◌∷◌, ◌++◌, inl, inr, subst,
  sym,
}
use mathlib.Core.List.{append-nil}
use wiseorder.Prelude.Text.{str_eq}
use wiseorder.Values.{field, num, end}
use wiseorder.Exec.{Exn, pure, ok, ◌>>=◌, ◌>>◌}
use wiseorder.Exec.Ends.{returns, Run, >>=-Run, >>=-ok-Run, Ends-no_raise, Ends-weaken}
use wiseorder.Db.{running, completed, Task, Workflow}
use wiseorder.Runtime.{World, Env, session_scope}
use wiseorder.Gateway.{send}
use wiseorder.Gateway.Keeps.{send-Keeps}
use wiseorder.Gateway.Delivered.{send-Run}
use wiseorder.Steps.{create_task, complete_task}
use wiseorder.Steps.Rows.{Labels}
use wiseorder.Steps.Effects.{
  step_label, Idle, Busy, create_task-Idle, complete_task-Busy, fail_task-Busy,
}
use wiseorder.Pipeline.Stages.{Keeps-Busy}
use wiseorder.Forge.Steps.{
  ask, out_dir_of, manifest_at, outputs_at, demo_request, render_command, result_of, render_step,
  render_run, manifest_step, manifest_found, save_manifest, approve_step,
}
use wiseorder.Forge.Config.{ForgeConfig, CommandResult}
use wiseorder.Forge.Artifacts.{Manifest}
use wiseorder.Forge.Stages.{
  not_asked, made, not_made, Past, Stuck, StepEnds, no_manifest, no_outputs, no_process, ask-Run,
  give_up-Run, asked-Run,
}

module _ {R : Type 0} (env : Env R) (config : ForgeConfig)
    (up : (n : ℕ) → env.postgres.refuses n ≡ none) (wf : ℕ) (before : List Workflow)
    (base : List Task) where
  render_run-Run :
      {E : Exn → World R → Type 0} (done : Labels) (id : ℕ) (r : CommandResult) (w : World R)
      → Busy wf before base id "render_mp4" done w
      → Run (λ _. Past wf before base done false) E (render_run env config id r) w
  unfolding render_run
  render_run-Run {E = E} done id r w busy = elim (Bool-cases (str_eq r.rc "0")) [
    | inl p ↦ rw p (
        Ends-weaken {D = E} (complete_task-Busy env up wf before base id "render_mp4" done _ w busy)
          (λ a i. record { render = _; rendered = made; idle = i }) (λ e x. x))
    | inr p ↦ rw p (
        Ends-weaken {D = E} (fail_task-Busy env up wf before base id "render_mp4" done _ w busy)
          (λ a i. record { render = _; rendered = not_made; idle = i }) (λ e x. x))
  ]

  pub render_step-Run :
      (done : Labels) (scenario : String) (skip : Bool) (w : World R)
      → Idle wf before base running done w
      → Run
          (λ _. Past wf before base done skip)
          (Stuck config wf before base)
          (render_step env config wf scenario skip)
          w
  unfolding render_step
  render_step-Run done scenario true w h = returns (record {
    render = [];
    rendered = not_asked;
    idle = subst (λ l. Idle wf before base running l w) (sym (append-nil done)) h;
  })
  render_step-Run done scenario false w h =
      asked-Run env config up wf before base "render_mp4" done _
        (λ n. result_of "120" (config.run n (render_command scenario))) (render_run env config) w
        (λ n e p. no_process n _ "120" p) (λ e t s. s) (render_run-Run done) h

  manifest_found-Run :
      (done : Labels) (id : ℕ) (scenario : String) (there : Bool) (w : World R)
      → Busy wf before base id "manifest" done w
      → StepEnds config wf before base "manifest" done
          (manifest_found env config wf id scenario there)
          w
  unfolding manifest_found
  manifest_found-Run done id scenario false w busy =
      give_up-Run env config up wf before base id "manifest" done _ _ _ w busy
  manifest_found-Run done id scenario true w busy =
      >>=-Run (ask (manifest_at env config scenario)) _ w
        (Ends-weaken
          (ask-Run (Busy wf before base id "manifest" done) (manifest_at env config scenario) w
            (record { row = busy.row; open_task = busy.open_task }))
          (λ a b. b) (λ e b. inr (record { cause = no_manifest w.calls _ _ _ b.1; row = b.0.row })))
        λ manifest t still.
          >>=-Run (complete_task env id _) _ t
            (complete_task-Busy env up wf before base id "manifest" done _ t still)
            λ _ u idle. returns idle

  pub manifest_step-Run :
      (done : Labels) (scenario : String) (w : World R)
      → Idle wf before base running done w
      → StepEnds config wf before base "manifest" done (manifest_step env config wf scenario) w
  unfolding manifest_step
  manifest_step-Run done scenario w h =
      >>=-Run (create_task env "manifest" wf _) _ w
        (create_task-Idle env up wf before base "manifest" done _ w h)
        λ id t busy.
          >>=-ok-Run (ask (λ n. ok (config.is_dir n (out_dir_of env config scenario))))
            (manifest_found env config wf id scenario) t refl
            (manifest_found-Run done id scenario _ _
              (record { row = busy.row; open_task = busy.open_task }))

  pub save_manifest-Run :
      {E : Exn → World R → Type 0} (done : Labels) (scenario : String) (m : Manifest) (w : World R)
      → Idle wf before base running done w
      → Run (λ _. Idle wf before base running done) E (save_manifest env config scenario m) w
  unfolding save_manifest session_scope
  save_manifest-Run done scenario m w h =
      rw (up w.calls) (returns (record { row = h.row; ran = h.ran }))

  pub approve_step-Run :
      (done : Labels) (scenario trigger : String) (m : Manifest) (w : World R)
      → Idle wf before base running done w
      → Run
          (λ _. Idle wf before base running (done ++ step_label wf "approve" completed ∷ []))
          (Stuck config wf before base)
          (approve_step env config wf scenario trigger m)
          w
  unfolding approve_step
  approve_step-Run done scenario trigger m w h =
      asked-Run env config up wf before base "approve" done _ (outputs_at env config scenario m)
        (λ id outputs.
          send env (demo_request env config wf id scenario trigger m outputs) >>= λ approval_id.
          complete_task env id (field "approval_id" (num approval_id) end) >> pure approval_id)
        w (λ n e p. no_outputs n _ m p) (λ e t s. s)
        (λ id outputs t busy.
          >>=-Run (send env _) _ t
            (Ends-no_raise
              (Keeps-Busy env up wf before base id "approve" done (send env _) (send-Keeps env _) t
                busy)
              (send-Run env up _ t))
            λ approval_id u still.
              >>=-Run (complete_task env id _) _ u
                (complete_task-Busy env up wf before base id "approve" done _ u still)
                λ _ v idle. returns idle)
        h
