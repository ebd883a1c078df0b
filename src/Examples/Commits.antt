-- ===== src/Examples/Commits.antt =====
-- Runs of the commit pipeline, and the claims that they make.
use wiseorder.Prelude.{ℕ, String, ◌≡◌, refl, true, false, arith, Option, none, some, List, [], ◌∷◌}
use wiseorder.Prelude.Text
use wiseorder.Prelude.Decimal.{str}
use wiseorder.Exec.{ok}
use wiseorder.Exec.Ends.{Run}
use wiseorder.Values.{lookup, field, text, end}
use wiseorder.Redis.{View, written, aged}
use wiseorder.Redis.Sample.{sample_redis, empty_view}
use wiseorder.Dedup
use wiseorder.Dedup.{ClaimResult}
use wiseorder.Dedup.Claims
use wiseorder.Db.{find, Workflow, Status, running, completed, failed}
use wiseorder.Runtime.{World, on_redis}
use wiseorder.Llm.{EngineeringSummary}
use wiseorder.Pipeline.{run_commit_pipeline, run_claimed, run_pipeline_steps}
use wiseorder.Pipeline.Records.{finished, skipped, Commit}
use wiseorder.Pipeline.Outcome.{Completed, Stopped, run_pipeline_steps-Run}
use wiseorder.Pipeline.Whole.{Ended, run_claimed-Run}
use wiseorder.Pipeline.Claimed.{run_commit_pipeline-run_commit_pipeline}
use wiseorder.Examples.Sample.{sample_env, sample_claims, start, sample_payload}

abbrev sample_summary : EngineeringSummary
sample_summary = record { summary = "fine"; changed_files = []; changelog = ""; risk_level = "low" }

abbrev sample_commit : Commit
sample_commit = record { repo = "r"; sha = "abc"; subject = "Add"; author = ""; diff = "" }

-- The state after a first run, and a minute later.
abbrev later : World View
later =
    let w = (run_commit_pipeline sample_env sample_payload start).1 in
    record w { redis = aged 60 w.redis }

run_claimed-Run_example :
    Run
      (λ _. Ended Completed start)
      (λ _. Ended Stopped start)
      (run_claimed sample_env sample_commit)
      start
unfolding sample_redis
run_claimed-Run_example =
    run_claimed-Run sample_env (λ n. refl) (λ k x ex s. (written k x ex s, refl)) sample_commit
      start

first_run :
    (run_commit_pipeline sample_env sample_payload start).0
    ≡ ok (finished 1 1 sample_summary "fine")
unfolding run_commit_pipeline sample_redis on_redis Dedup.acquire wiseorder.Steps.start_workflow
    Dedup.attach_workflow_id run_pipeline_steps wiseorder.Steps.create_task wiseorder.Llm.summarize
    wiseorder.Llm.llm_call wiseorder.Steps.complete_task wiseorder.Db.find
    wiseorder.Steps.append_log wiseorder.Llm.draft wiseorder.Db.set_row wiseorder.Gateway.send
    wiseorder.Steps.complete_workflow Text.strip wiseorder.Llm.normalize_risk Text.take Text.lower
    Text.strip_char Dedup.key wiseorder.Gateway.Format.format_discord wiseorder.Gateway.Format.trim
    wiseorder.Llm.llm_loop run_claimed wiseorder.Prelude.Decimal.str Text.concat Text.drop Text.join
    Text.replace wiseorder.Runtime.session_scope wiseorder.Steps.guarded wiseorder.Values.lookup
    wiseorder.Pipeline.with_workflow
first_run = refl

rerun_example :
    Run
      (λ r t. (r ≡ skipped (some 1) "duplicate_sha") × (t.db ≡ later.db))
      (λ e t. t.db ≡ later.db)
      (run_commit_pipeline sample_env sample_payload)
      later
unfolding sample_redis
rerun_example =
    run_commit_pipeline-run_commit_pipeline sample_env sample_payload sample_payload 1 1 60
      sample_summary "fine" start (run_commit_pipeline sample_env sample_payload start).1 later
      (λ i. (first_run i, (run_commit_pipeline sample_env sample_payload start).1)) refl refl
      (omega arith) refl

-- The row of a workflow that has just been started.
abbrev started : World View
started = record start {
  db = record start.db {
    workflows =
        (record {
          id = 1;
          workflow_name = "commit_pipeline";
          task_chain = [];
          status = running;
          logs = [];
          created_at = 0;
          completed_at = none;
        })
        ∷ [];
  };
}

run_pipeline_steps-Run_example :
    Run
      (λ _. Completed 1 started.db.workflows [])
      (λ _. Stopped 1 started.db.workflows [])
      (run_pipeline_steps sample_env 1 sample_commit)
      started
unfolding find
run_pipeline_steps-Run_example =
    run_pipeline_steps-Run sample_env (λ n. refl) 1 started.db.workflows [] sample_commit started
      (record {
        row = record { status = refl; others = λ j ne. refl };
        ran = record { added = []; split = refl; labels = refl };
      })

abbrev claimed_view : View
claimed_view = (Dedup.acquire sample_redis sample_claims "r" "abc" empty_view).1

acquire-acquire_example :
    ◌≡◌ {A = ClaimResult}
      (record { acquired = false; existing_value = some "PENDING" })
      (record { acquired = false; existing_value = some "PENDING" })
unfolding sample_redis Dedup.acquire Dedup.key Text.concat
acquire-acquire_example =
    Claims.acquire-acquire sample_redis sample_claims "r" "abc" 60 empty_view claimed_view
      (Dedup.acquire sample_redis sample_claims "r" "abc" (aged 60 claimed_view)).1
      (record { acquired = true; existing_value = none })
      (record { acquired = false; existing_value = some "PENDING" }) (omega arith) refl refl refl

attach_workflow_id-extends_example : some (str 7) ≡ some (str 7)
unfolding sample_redis Dedup.attach_workflow_id Dedup.acquire Dedup.peek Dedup.key Text.concat
attach_workflow_id-extends_example =
    Claims.attach_workflow_id-extends sample_redis sample_claims "r" "abc" 7 86400 90 "PENDING"
      claimed_view (Dedup.attach_workflow_id sample_redis sample_claims "r" "abc" 7 claimed_view).1
      (aged 90 (Dedup.attach_workflow_id sample_redis sample_claims "r" "abc" 7 claimed_view).1)
      (some (str 7)) refl (omega arith) refl refl
