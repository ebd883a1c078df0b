-- ===== src/Forge/Context.antt =====
-- A demo request touches neither the Redis server nor the context variables.
use wiseorder.Prelude.{ℕ, String, Bool, true, false, Bool-cases, refl, inl, inr}
use wiseorder.Values.{Fields}
use wiseorder.Exec.{Exec, Result}
use wiseorder.Runtime.{World, Env}
use wiseorder.Runtime.Apart.{Apart, apart_rules}
use wiseorder.Gateway.Keeps.{send-Apart}
use wiseorder.Pipeline.Context.{step_rules, start_workflow-Apart, with_workflow-Apart}
use wiseorder.Forge.{
  run_forge_steps, check_scenario, check_makefile, begin_request, run_demo_forge_request,
}
use wiseorder.Forge.Steps.{
  ask, give_up, tools_run, tools_step, capture_run, capture_step, render_run, render_step,
  manifest_found, manifest_step, approve_step,
}
use wiseorder.Forge.Config.{ForgeConfig}
use wiseorder.Forge.Artifacts.{Manifest}
use wiseorder.Prelude.{if◌then◌else◌}

ask-Apart : {R A : Type 0} (f : ℕ → Result A) → Apart {R = R} (ask f)
ask-Apart f = record { at = λ w. refl }

if-Apart :
    {R A : Type 0} (b : Bool) (m k : Exec (World R) A)
    → Apart m
    → Apart k
    → Apart (if b then m else k)
if-Apart true m k p q = p
if-Apart false m k p q = q

module _ {R : Type 0} (env : Env R) (config : ForgeConfig) where
  give_up-Apart :
      {A : Type 0} (wf id : ℕ) (e f g : String) → Apart (give_up env config {A = A} wf id e f g)
  unfolding give_up
  give_up-Apart wf id e f g = search step_rules depth 8

  ruleset forge_rules = (step_rules, ask-Apart, if-Apart, give_up-Apart)

  tools_step-Apart : (wf : ℕ) (scenario : String) → Apart (tools_step env config wf scenario)
  unfolding tools_step tools_run
  tools_step-Apart wf scenario = search forge_rules depth 8

  capture_step-Apart : (wf : ℕ) (scenario : String) → Apart (capture_step env config wf scenario)
  unfolding capture_step capture_run
  capture_step-Apart wf scenario = search forge_rules depth 8

  render_step-Apart :
      (wf : ℕ) (scenario : String) (skip : Bool) → Apart (render_step env config wf scenario skip)
  unfolding render_step render_run
  render_step-Apart wf scenario true = search forge_rules depth 8
  render_step-Apart wf scenario false = search forge_rules depth 8

  manifest_found-Apart :
      (wf id : ℕ) (scenario : String) (there : Bool)
      → Apart (manifest_found env config wf id scenario there)
  unfolding manifest_found
  manifest_found-Apart wf id scenario true = search forge_rules depth 8
  manifest_found-Apart wf id scenario false = search forge_rules depth 8

  manifest_step-Apart : (wf : ℕ) (scenario : String) → Apart (manifest_step env config wf scenario)
  unfolding manifest_step
  manifest_step-Apart wf scenario = search (forge_rules, manifest_found-Apart) depth 8

  approve_step-Apart :
      (wf : ℕ) (scenario trigger : String) (m : Manifest)
      → Apart (approve_step env config wf scenario trigger m)
  unfolding approve_step
  approve_step-Apart wf scenario trigger m = search (forge_rules, send-Apart) depth 8

  run_forge_steps-Apart :
      (wf : ℕ) (scenario trigger : String) (skip : Bool)
      → Apart (run_forge_steps env config wf scenario trigger skip)
  unfolding run_forge_steps
  run_forge_steps-Apart wf scenario trigger skip =
      search
        (
          step_rules, tools_step-Apart, capture_step-Apart, render_step-Apart, manifest_step-Apart,
          approve_step-Apart,
        )
        depth 9

  check_scenario-Apart : (s : String) → Apart (check_scenario env config s)
  unfolding check_scenario
  check_scenario-Apart s = search (apart_rules, if-Apart)

  check_makefile-Apart : Apart (check_makefile env config)
  unfolding check_makefile
  check_makefile-Apart = record {
    at = λ w. elim (Bool-cases (config.has_makefile w.calls)) [ inl p ↦ rw p | inr p ↦ rw p ];
  }

  begin_request-Apart : (payload : Fields) → Apart (begin_request env config payload)
  unfolding begin_request
  begin_request-Apart payload =
      search (apart_rules, start_workflow-Apart, with_workflow-Apart, run_forge_steps-Apart) depth 8

  pub run_demo_forge_request-Apart :
      (payload : Fields) → Apart (run_demo_forge_request env config payload)
  unfolding run_demo_forge_request
  run_demo_forge_request-Apart payload =
      search (apart_rules, check_scenario-Apart, check_makefile-Apart, begin_request-Apart) depth 8
