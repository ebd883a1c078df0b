-- ===== src/Forge/Outcome.antt =====
-- How a demo request ends, where the database takes every transaction.
use wiseorder.Prelude.{ℕ, String, Bool, ◌≡◌, none, List, [], ◌∷◌, ◌++◌, ◌⊎◌, inl, inr}
use wiseorder.Values.{field, num, end}
use wiseorder.Exec.{Exn, pure, ◌>>=◌, ◌>>◌}
use wiseorder.Exec.Ends.{returns, Run, >>=-Run, Ends-weaken}
use wiseorder.Db.{running, completed, failed, Task, Workflow}
use wiseorder.Runtime.{World, Env}
use wiseorder.Steps.{complete_workflow}
use wiseorder.Steps.Rows.{Labels}
use wiseorder.Steps.Effects.{step_label, Idle, complete_workflow-Idle}
use wiseorder.Forge.{forge_result, run_forge_steps}
use wiseorder.Forge.Steps.{
  tools_step, capture_step, render_step, manifest_step, save_manifest, approve_step,
}
use wiseorder.Forge.Config.{ForgeConfig}
use wiseorder.Forge.Stages.{Rendered, Past, Stuck, StopsAt, tools_step-Run, capture_step-Run}
use wiseorder.Forge.Delivery.{
  render_step-Run, manifest_step-Run, save_manifest-Run, approve_step-Run,
}

abbrev probed : ℕ → Labels
probed wf = step_label wf "check_tools" completed ∷ []

-- The labels after the render, and after the manifest.
abbrev captured : ℕ → Labels → Labels
captured wf render =
    step_label wf "check_tools" completed ∷ step_label wf "capture" completed ∷ render

abbrev described : ℕ → Labels → Labels
described wf render = captured wf render ++ step_label wf "manifest" completed ∷ []

-- The labels of the tasks where a request was given up, by what the last task found wrong.
pub data GaveUp (wf : ℕ) (skip : Bool) : Labels → Type 0 where
  no_tools : GaveUp wf skip (step_label wf "check_tools" failed ∷ [])
  no_capture :
      GaveUp wf skip (step_label wf "check_tools" completed ∷ step_label wf "capture" failed ∷ [])
  no_outputs :
      {render : Labels}
      → Rendered wf skip render
      → GaveUp wf skip (captured wf render ++ step_label wf "manifest" failed ∷ [])

module _ {R : Type 0} (wf : ℕ) (before : List Workflow) (base : List Task) where
  -- The workflow is completed, with one task of each step, completed but for a render that was
  -- skipped or has failed.
  pub record Delivered (skip : Bool) (w : World R) : Type 0 where
    pub render : Labels
    pub rendered : Rendered wf skip render
    pub idle :
        Idle wf before base completed
          (described wf render ++ step_label wf "approve" completed ∷ [])
          w

  -- The workflow is failed, and so is the last task.
  pub record Refused (skip : Bool) (w : World R) : Type 0 where
    pub labels : Labels
    pub gave_up : GaveUp wf skip labels
    pub idle : Idle wf before base failed labels w

module _ {R : Type 0} (env : Env R) (config : ForgeConfig)
    (up : (n : ℕ) → env.postgres.refuses n ≡ none) (wf : ℕ) (before : List Workflow)
    (base : List Task) where
  abbrev pub Broken : Bool → Exn → World R → Type 0
  Broken skip e t = Refused wf before base skip t ⊎ Stuck config wf before base e t

  refused :
      (skip : Bool) (type : String) (done : Labels) (e : Exn) (t : World R)
      → GaveUp wf skip (done ++ step_label wf type failed ∷ [])
      → StopsAt config wf before base type done e t
      → Broken skip e t
  refused skip type done e t g (inl i) = inl (record { labels = _; gave_up = g; idle = i })
  refused skip type done e t g (inr s) = inr s

  after_render :
      (scenario trigger : String) (skip : Bool) (render : Labels)
      → Rendered wf skip render
      → (w : World R) → Idle wf before base running (captured wf render) w
      → Run
          (λ _. Delivered wf before base skip)
          (Broken skip)
          (manifest_step env config wf scenario >>= λ manifest.
            save_manifest env config scenario manifest
            >> (approve_step env config wf scenario trigger manifest >>= λ approval_id.
                complete_workflow env "demo_request_completed"
                  (field "approval_id" (num approval_id) end)
                  wf
                >> pure (forge_result wf approval_id scenario manifest)))
          w
  after_render scenario trigger skip render r w h =
      >>=-Run (manifest_step env config wf scenario) _ w
        (Ends-weaken (manifest_step-Run env config up wf before base _ scenario w h) (λ a q. q)
          (λ e. refused skip "manifest" (captured wf render) e _ (no_outputs r)))
        λ manifest w₁ h₁.
          >>=-Run (save_manifest env config scenario manifest) _ w₁
            (save_manifest-Run env config up wf before base _ scenario manifest w₁ h₁)
            λ _ w₂ h₂.
              >>=-Run (approve_step env config wf scenario trigger manifest) _ w₂
                (Ends-weaken
                  (approve_step-Run env config up wf before base (described wf render) scenario
                    trigger manifest w₂ h₂)
                  (λ a q. q) (λ e. inr))
                λ approval_id w₃ h₃.
                  >>=-Run (complete_workflow env "demo_request_completed" _ wf) _ w₃
                    (complete_workflow-Idle env up wf before base running _ "demo_request_completed"
                      _ w₃ h₃)
                    λ _ w₄ h₄. returns (record { render = render; rendered = r; idle = h₄ })

  -- The steps return with the workflow completed; or they raise, with the workflow and its last task
  -- marked failed, or with an exception of the outside that leaves the workflow running.
  pub run_forge_steps-Run :
      (scenario trigger : String) (skip : Bool) (w : World R)
      → Idle wf before base running [] w
      → Run
          (λ _. Delivered wf before base skip)
          (Broken skip)
          (run_forge_steps env config wf scenario trigger skip)
          w
  unfolding run_forge_steps
  run_forge_steps-Run scenario trigger skip w h =
      >>=-Run {P = λ _. Idle wf before base running (probed wf)} (tools_step env config wf scenario)
        _ w
        (Ends-weaken (tools_step-Run env config up wf before base scenario w h) (λ a q. q)
          (λ e. refused skip "check_tools" [] e _ no_tools))
        λ _ w₁ h₁.
          >>=-Run (capture_step env config wf scenario) _ w₁
            (Ends-weaken (capture_step-Run env config up wf before base (probed wf) scenario w₁ h₁)
              (λ a q. q) (λ e. refused skip "capture" (probed wf) e _ no_capture))
            λ _ w₂ h₂.
              >>=-Run {P = λ _. Past wf before base (captured wf []) skip}
                (render_step env config wf scenario skip) _ w₂
                (Ends-weaken (render_step-Run env config up wf before base _ scenario skip w₂ h₂)
                  (λ a q. q) (λ e. inr))
                λ _ w₃ p. after_render scenario trigger skip p.render p.rendered w₃ p.idle
