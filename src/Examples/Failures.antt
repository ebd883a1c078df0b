-- ===== src/Examples/Failures.antt =====
-- A run of the commit pipeline that fails, and what is answered a minute later.
use wiseorder.Prelude.{ℕ, ◌≡◌, refl, true, false, arith, Option, none, some, []}
use wiseorder.Prelude.Text
use wiseorder.Exec.{err, raised, api_connection}
use wiseorder.Exec.Ends.{Run}
use wiseorder.Redis.{View, written, aged}
use wiseorder.Redis.Sample.{sample_redis}
use wiseorder.Dedup
use wiseorder.Db.{Workflow, ids, has_id}
use wiseorder.Llm.{transient}
use wiseorder.Runtime.{World, Env, on_redis}
use wiseorder.Pipeline.{run_commit_pipeline, run_claimed, run_pipeline_steps}
use wiseorder.Pipeline.Records.{skipped}
use wiseorder.Pipeline.Outcome.{Stopped}
use wiseorder.Pipeline.Failed.{run_commit_pipeline-failed}
use wiseorder.Examples.Sample.{sample_env, sample_llm, sample_claims, start, sample_payload}

-- The LLM provider is not reached.
abbrev unreached : Env View
unreached = record sample_env {
  llm = record sample_llm { acompletion = λ n prompt i. transient (raised api_connection "reset") };
}

abbrev failed_world : World View
failed_world = (run_commit_pipeline unreached sample_payload start).1

abbrev later : World View
later = record failed_world { redis = aged 60 failed_world.redis }

first_fails :
    (run_commit_pipeline unreached sample_payload start).0 ≡ err (raised api_connection "reset")
unfolding run_commit_pipeline sample_redis on_redis Dedup.acquire wiseorder.Steps.start_workflow
    Dedup.attach_workflow_id run_pipeline_steps wiseorder.Steps.create_task wiseorder.Llm.summarize
    wiseorder.Llm.llm_call wiseorder.Steps.fail_task wiseorder.Steps.fail_workflow wiseorder.Db.find
    wiseorder.Db.set_row Text.strip Text.take Text.lower Text.strip_char Dedup.key
    wiseorder.Llm.llm_loop run_claimed wiseorder.Prelude.Decimal.str Text.concat Text.replace
    wiseorder.Runtime.session_scope wiseorder.Steps.guarded wiseorder.Values.lookup
    wiseorder.Pipeline.with_workflow wiseorder.Pipeline.require_keys
first_fails = refl

run_commit_pipeline-failed_example :
    (id : ℕ) × (has_id id (ids (λ (x : Workflow). x.id) start.db.workflows) ≡ false)
    × Stopped id start.db.workflows start.db.tasks failed_world
    × Run
        (λ r t. (r ≡ skipped (some id) "duplicate_sha") × (t.db ≡ later.db))
        (λ e t. t.db ≡ later.db)
        (run_commit_pipeline unreached sample_payload)
        later
unfolding sample_redis on_redis Dedup.acquire Dedup.key Text.concat wiseorder.Values.lookup
run_commit_pipeline-failed_example =
    run_commit_pipeline-failed unreached (λ n. refl) (λ k x ex s. (written k x ex s, refl))
      sample_payload sample_payload (record { acquired = true; existing_value = none }) 60
      (raised api_connection "reset") start
      (on_redis (Dedup.acquire sample_redis sample_claims "r" "abc") start).1 failed_world later
      refl refl refl (λ i. (first_fails i, failed_world)) refl refl (omega arith) refl
