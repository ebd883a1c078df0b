-- ===== src/Pipeline/Context.antt =====
-- The steps of the pipeline touch neither the Redis server nor the context variables.
use wiseorder.Prelude.{ℕ, String, refl, arith, List, some}
use wiseorder.Values.{Fields}
use wiseorder.Exec.{Exec, Result}
use wiseorder.Llm.{EngineeringSummary, SocialDraft}
use wiseorder.Runtime.{World, Env}
use wiseorder.Runtime.Apart.{Apart, apart_rules}
use wiseorder.Gateway.Keeps.{send-Apart}
use wiseorder.Steps.{
  create_task, complete_task, fail_task, append_log, fail_workflow, complete_workflow,
  start_workflow, guarded,
}
use wiseorder.Pipeline.{
  agent, add_memory, mark_embedded, vector_upsert, summarize_step, draft_step, save_step,
  approval_step, run_pipeline_steps, with_workflow,
}
use wiseorder.Pipeline.Records.{Commit}

module _ {R : Type 0} (env : Env R) where
  pub create_task-Apart :
      (type : String) (wf : ℕ) (payload : Fields) → Apart (create_task env type wf payload)
  unfolding create_task
  create_task-Apart type wf payload = search apart_rules

  pub complete_task-Apart : (id : ℕ) (result : Fields) → Apart (complete_task env id result)
  unfolding complete_task
  complete_task-Apart id result = search apart_rules

  pub fail_task-Apart : (id : ℕ) (error : String) → Apart (fail_task env id error)
  unfolding fail_task
  fail_task-Apart id error = search apart_rules

  pub append_log-Apart :
      (wf : ℕ) (event : String) (details : Fields) → Apart (append_log env wf event details)
  unfolding append_log
  append_log-Apart wf event details = search apart_rules

  pub fail_workflow-Apart :
      (event : String) (wf : ℕ) (error : String) → Apart (fail_workflow env event wf error)
  unfolding fail_workflow
  fail_workflow-Apart event wf error = search apart_rules

  pub complete_workflow-Apart :
      (event : String) (details : Fields) (wf : ℕ) → Apart (complete_workflow env event details wf)
  unfolding complete_workflow
  complete_workflow-Apart event details wf = search apart_rules

  pub start_workflow-Apart :
      (name : String) (chain : List String) (event : String) (details : Fields)
      → Apart (start_workflow env name chain event details)
  unfolding start_workflow
  start_workflow-Apart name chain event details = search apart_rules

  pub ruleset step_rules = (
    apart_rules, create_task-Apart, complete_task-Apart, fail_task-Apart, append_log-Apart,
    fail_workflow-Apart, complete_workflow-Apart,
  )

  guarded-Apart :
      {A : Type 0} (wf : ℕ) (what : String) (id : ℕ) (body : Exec (World R) A)
      → Apart body
      → Apart (guarded env wf what id body)
  unfolding guarded
  guarded-Apart wf what id body h = search step_rules

  agent-Apart : {A : Type 0} (f : ℕ → Result A) → Apart (agent env f)
  agent-Apart f = record { at = λ w. refl }

  summarize_step-Apart : (wf : ℕ) (c : Commit) → Apart (summarize_step env wf c)
  unfolding summarize_step
  summarize_step-Apart wf c = search (step_rules, guarded-Apart, agent-Apart) depth 8

  draft_step-Apart :
      (wf : ℕ) (c : Commit) (eng : EngineeringSummary) → Apart (draft_step env wf c eng)
  unfolding draft_step
  draft_step-Apart wf c eng = search (step_rules, guarded-Apart, agent-Apart) depth 8

  vector_upsert-Apart : Apart (vector_upsert env)
  unfolding vector_upsert
  vector_upsert-Apart = record { at = λ w. ground arith }

  save_step-Apart :
      (wf : ℕ) (c : Commit) (eng : EngineeringSummary) → Apart (save_step env wf c eng)
  unfolding save_step add_memory mark_embedded
  save_step-Apart wf c eng = search (step_rules, guarded-Apart, vector_upsert-Apart) depth 8

  approval_step-Apart :
      (wf : ℕ) (c : Commit) (eng : EngineeringSummary) (soc : SocialDraft)
      → Apart (approval_step env wf c eng soc)
  unfolding approval_step
  approval_step-Apart wf c eng soc = search (step_rules, guarded-Apart, send-Apart) depth 8

  pub run_pipeline_steps-Apart : (wf : ℕ) (c : Commit) → Apart (run_pipeline_steps env wf c)
  unfolding run_pipeline_steps
  run_pipeline_steps-Apart wf c =
      search
        (step_rules, summarize_step-Apart, draft_step-Apart, save_step-Apart, approval_step-Apart)
        depth 8

pub with_workflow-Apart :
    {R A : Type 0} (wf : ℕ) (m : Exec (World R) A) → Apart m → Apart (with_workflow wf m)
unfolding with_workflow
with_workflow-Apart wf m h = record {
  at = λ w.
      let e = h.at (record w { current_workflow_id = some wf }) in
      λ i. ((e i).0, w.current_workflow_id, (e i).2);
}
