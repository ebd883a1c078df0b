-- ===== src/Forge/Request.antt =====
-- A whole `demo_request` job, where the database takes every transaction.
use wiseorder.Prelude.{
  ℕ, String, Bool, false, Bool-cases, ◌≡◌, refl, Option, none, some, List, [], inl, inr, subst, ◌∙◌,
}
use wiseorder.Values.{Fields}
use wiseorder.Exec.{Exn}
use wiseorder.Exec.Ends.{returns, raises, Run, >>=-Run, Ends-weaken}
use wiseorder.Db.{Db, ids, has_id, running, completed, failed, Task, Workflow}
use wiseorder.Runtime.{World, Env}
use wiseorder.Steps.{start_workflow}
use wiseorder.Pipeline.Whole.{Ended, start_workflow-Run, with_workflow-Run, Idle-reset}
use wiseorder.Forge.{
  forge_chain, scenario_of, trigger_of, skips_render, check_scenario, check_makefile, is_scenario,
  run_forge_steps, run_demo_forge_request, begin_request,
}
use wiseorder.Forge.Config.{ForgeConfig}
use wiseorder.Forge.Stages.{Stuck}
use wiseorder.Forge.Outcome.{Delivered, Refused, run_forge_steps-Run}

module _ {R : Type 0} where
  -- How a request that raised has left the state: refused before it began, failed in a step, or
  -- broken off by the outside while its workflow is running.
  pub data Raised (config : ForgeConfig) (skip : Bool) (w : World R) (e : Exn) (t : World R)
      : Type 0 where
    not_begun : t.db ≡ w.db → Raised config skip w e t
    failed_in_step :
        Ended (λ wf before base. Refused wf before base skip) w t → Raised config skip w e t
    broken_off :
        Ended (λ wf before base. Stuck config wf before base e) w t → Raised config skip w e t

  module _ (wf : ℕ) (before : List Workflow) (base : List Task) where
    Delivered-reset :
        (skip : Bool) (t : World R) (o : Option ℕ)
        → Delivered wf before base skip t
        → Delivered wf before base skip (record t { current_workflow_id = o })
    Delivered-reset skip t o h = record {
      render = h.render;
      rendered = h.rendered;
      idle = Idle-reset wf before base completed _ t o h.idle;
    }

    Refused-reset :
        (skip : Bool) (t : World R) (o : Option ℕ)
        → Refused wf before base skip t
        → Refused wf before base skip (record t { current_workflow_id = o })
    Refused-reset skip t o h = record {
      labels = h.labels;
      gave_up = h.gave_up;
      idle = Idle-reset wf before base failed _ t o h.idle;
    }

  Raised-reset :
      (config : ForgeConfig) (skip : Bool) (w : World R) (e : Exn) (t : World R) (o : Option ℕ)
      → Raised config skip w e t
      → Raised config skip w e (record t { current_workflow_id = o })
  Raised-reset config skip w e t o (not_begun p) = not_begun p
  Raised-reset config skip w e t o (failed_in_step q) = failed_in_step (record {
    workflow_id = q.workflow_id;
    fresh = q.fresh;
    ended = Refused-reset q.workflow_id w.db.workflows w.db.tasks skip t o q.ended;
  })
  Raised-reset config skip w e t o (broken_off q) = broken_off (record {
    workflow_id = q.workflow_id;
    fresh = q.fresh;
    ended = record { cause = q.ended.cause; row = q.ended.row };
  })

  Ended-from :
      {Q : ℕ → List Workflow → List Task → World R → Type 0} (w v u : World R)
      → v.db ≡ w.db
      → Ended Q v u
      → Ended Q w u
  Ended-from {Q = Q} w v u p q = record {
    workflow_id = q.workflow_id;
    fresh =
        subst (λ (d : Db). has_id q.workflow_id (ids (λ (x : Workflow). x.id) d.workflows) ≡ false)
          p q.fresh;
    ended = subst (λ (d : Db). Q q.workflow_id d.workflows d.tasks u) p q.ended;
  }

  Raised-from :
      (config : ForgeConfig) (skip : Bool) (w v : World R) (e : Exn) (u : World R)
      → v.db ≡ w.db
      → Raised config skip v e u
      → Raised config skip w e u
  Raised-from config skip w v e u p (not_begun q) = not_begun (q ∙ p)
  Raised-from config skip w v e u p (failed_in_step q) = failed_in_step (Ended-from w v u p q)
  Raised-from config skip w v e u p (broken_off q) = broken_off (Ended-from w v u p q)

module _ {R : Type 0} (env : Env R) (config : ForgeConfig) where
  check_scenario-Run :
      {P : World R → Type 0} (s : String) (w : World R)
      → P w
      → Run (λ _. P) (λ _. P) (check_scenario env config s) w
  unfolding check_scenario
  check_scenario-Run s w p = elim (Bool-cases (is_scenario s)) [
    | inl q ↦ rw q (returns p)
    | inr q ↦ rw q (raises p)
  ]

  check_makefile-Run :
      (w : World R) → Run (λ _ t. t.db ≡ w.db) (λ _ t. t.db ≡ w.db) (check_makefile env config) w
  unfolding check_makefile
  check_makefile-Run w = elim (Bool-cases (config.has_makefile w.calls)) [
    | inl q ↦ rw q (returns refl)
    | inr q ↦ rw q (raises refl)
  ]

module _ {R : Type 0} (env : Env R) (config : ForgeConfig)
    (up : (n : ℕ) → env.postgres.refuses n ≡ none) where
  begun-Run :
      (payload : Fields) (w : World R)
      → Run
          (λ _.
            Ended (λ wf before base. Delivered wf before base (skips_render env config payload)) w)
          (Raised config (skips_render env config payload) w)
          (begin_request env config payload)
          w
  unfolding begin_request
  begun-Run payload w =
      let skip = skips_render env config payload in
      >>=-Run (start_workflow env "demo_request" forge_chain "demo_request_started" _) _ w
        (start_workflow-Run env up _ _ _ _ w)
        λ wf t₁ h.
          with_workflow-Run wf (run_forge_steps env config wf _ _ skip) t₁
            (λ a t o q. record {
              workflow_id = q.workflow_id;
              fresh = q.fresh;
              ended = Delivered-reset q.workflow_id w.db.workflows w.db.tasks skip t o q.ended;
            })
            (Raised-reset config skip w)
            (Ends-weaken
              (run_forge_steps-Run env config up wf w.db.workflows w.db.tasks
                (scenario_of env config payload) (trigger_of env config payload) skip
                (record t₁ { current_workflow_id = some wf })
                (Idle-reset wf w.db.workflows w.db.tasks running [] t₁ (some wf) h.idle))
              (λ a q. record { workflow_id = wf; fresh = h.fresh; ended = q })
              (λ e q. elim q [
                | inl r ↦ failed_in_step (record { workflow_id = wf; fresh = h.fresh; ended = r })
                | inr r ↦ broken_off (record { workflow_id = wf; fresh = h.fresh; ended = r })
              ]))

  -- With Postgres up: a request that returns has added one workflow, completed, with its tasks. One that
  -- raises has left the database as it was, or its new workflow failed with the last task, or, where a
  -- call of the outside raised, its new workflow running for good.
  pub run_demo_forge_request-Run :
      (payload : Fields) (w : World R)
      → Run
          (λ _.
            Ended (λ wf before base. Delivered wf before base (skips_render env config payload)) w)
          (Raised config (skips_render env config payload) w)
          (run_demo_forge_request env config payload)
          w
  unfolding run_demo_forge_request
  run_demo_forge_request-Run payload w =
      >>=-Run {P = λ _ t. t.db ≡ w.db} (check_scenario env config (scenario_of env config payload))
        _ w
        (Ends-weaken
          (check_scenario-Run env config {P = λ t. t.db ≡ w.db} (scenario_of env config payload) w
            refl)
          (λ a p. p) (λ e. not_begun))
        λ _ t₁ p₁.
          >>=-Run {P = λ _ t. t.db ≡ w.db} (check_makefile env config) _ t₁
            (Ends-weaken (check_makefile-Run env config t₁) (λ a p. p ∙ p₁)
              (λ e p. not_begun (p ∙ p₁)))
            λ _ t₂ p₂.
              Ends-weaken (begun-Run payload t₂) (λ a. Ended-from w t₂ _ p₂)
                (λ e. Raised-from config (skips_render env config payload) w t₂ e _ p₂)
