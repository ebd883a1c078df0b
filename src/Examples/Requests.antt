-- ===== src/Examples/Requests.antt =====
-- A demo request over the sample servers.
use wiseorder.Prelude.{◌≡◌, refl, ◌↔◌, true, false, none, List, [], ◌∷◌, some}
use wiseorder.Prelude.Sorting.{sort_by, insert_by}
use wiseorder.Values.{Fields, field, end, text, flag}
use wiseorder.Exec.{ok}
use wiseorder.Exec.Ends.{Run}
use wiseorder.Pipeline.Whole.{Ended}
use wiseorder.Forge.{run_demo_forge_request, skips_render}
use wiseorder.Forge.Artifacts.{
  Artifact, Manifest, build_manifest, sort_entries, artifacts_of, title_of,
}
use wiseorder.Forge.Config.{ForgeConfig, Entry, finished}
use wiseorder.Forge.Outcome.{Delivered}
use wiseorder.Forge.Request.{Raised, run_demo_forge_request-Run}
use wiseorder.Forge.Described.{FileOf, build_manifest-FileOf}
use wiseorder.Examples.Sample.{sample_env, start}
use wiseorder.Examples.Queues.{job, held, two_jobs-Holds}
use wiseorder.Examples.Services.{queued, dequeued}
use wiseorder.Redis.Sample.{sample_redis}
use wiseorder.Queue
use wiseorder.Queue.{high, normal}
use wiseorder.Runtime.{World, on_redis}
use wiseorder.Db.{Status, running}
use wiseorder.Exec.{err, raised, other}
use wiseorder.Forge.Config.{not_started}
use wiseorder.Forge.{check_scenario, check_makefile, begin_request, run_forge_steps}
use wiseorder.Forge.Steps.{tools_step, result_of}
use wiseorder.Steps.{start_workflow, create_task}
use wiseorder.Pipeline.{with_workflow}
use wiseorder.Runtime.{session_scope}
use wiseorder.Prelude.Text.{strip}
use wiseorder.Prelude.{map}
use wiseorder.Redis.{View}
use wiseorder.Values.{lookup}
use wiseorder.Pipeline.{run_commit_pipeline, require_keys}
use wiseorder.Orchestrator.{
  handler_of, run_job, run_handler, dead_letter, worker_round, taken as taken_job,
}
use wiseorder.Orchestrator.Handlers.{registered}
use wiseorder.Orchestrator.Jobs.{Round}
use wiseorder.Orchestrator.Registered.{registered-Round}
use mathlib.Core.List.{Memᴰ}

-- A directory with a file of two bytes and a directory inside.
abbrev entries : List Entry
entries =
    record { name = "sub"; is_file = false; body = ok [] }
    ∷ record { name = "a.cast"; is_file = true; body = ok (7 ∷ 8 ∷ []) }
    ∷ []

abbrev pub sample_forge : ForgeConfig
sample_forge = record {
  df_dir = "/forge";
  has_makefile = λ n. true;
  run = λ n cmd. finished "0" "done" "";
  is_dir = λ n dir. true;
  listing = λ n dir. ok entries;
  read_text = λ n path. none;
  sha256 = λ body. "hash";
  digest = λ fs. "digest";
  stamp = λ t. "stamp";
  repr = λ s. s;
  py_str = λ v. "";
}

abbrev forge_payload : Fields
forge_payload = field "scenario" (text " 002 ") (field "skip_render" (flag true) end)

run_demo_forge_request-Run_example :
    Run
      (λ _.
        Ended
          (λ wf before base.
            Delivered wf before base (skips_render sample_env sample_forge forge_payload))
          start)
      (Raised sample_forge (skips_render sample_env sample_forge forge_payload) start)
      (run_demo_forge_request sample_env sample_forge forge_payload)
      start
run_demo_forge_request-Run_example =
    run_demo_forge_request-Run sample_env sample_forge (λ n. refl) forge_payload start

abbrev sample_manifest : Manifest
sample_manifest = record {
  scenario = "002";
  title = "SIGKILL recovery proof";
  generated_at = "stamp";
  out_dir = "/forge/outputs/DEMO_002";
  artifacts = record { name = "a.cast"; bytes = 2; sha256 = "hash" } ∷ [];
}

abbrev listed_file : Artifact
listed_file = record { name = "a.cast"; bytes = 2; sha256 = "hash" }

sample_manifest-made :
    build_manifest (λ body. "hash") (ok entries) "/forge/outputs/DEMO_002" "002" "stamp"
    ≡ ok sample_manifest
unfolding build_manifest sort_entries sort_by insert_by artifacts_of title_of
sample_manifest-made = refl

build_manifest-FileOf_example :
    Memᴰ listed_file sample_manifest.artifacts ↔ FileOf (λ body. "hash") entries listed_file
build_manifest-FileOf_example =
    build_manifest-FileOf (λ body. "hash") entries "/forge/outputs/DEMO_002" "002" "stamp"
      sample_manifest sample_manifest-made listed_file

abbrev dequeued_state : World View
dequeued_state =
    (on_redis (Queue.dequeue sample_env.redis sample_env.json (high ∷ normal ∷ [])) queued).1

-- The job's payload has no keys, so that the pipeline raises.
refused_job :
    (run_job sample_env (λ s. s) (registered sample_env sample_forge) (job "b") dequeued_state).0
    ≡ ok tt
unfolding run_job handler_of run_handler dead_letter on_redis Queue.fail sample_redis
    run_commit_pipeline require_keys lookup
refused_job = refl

round_ends :
    (worker_round sample_env (λ s. s) (registered sample_env sample_forge) queued).0 ≡ ok tt
unfolding worker_round taken_job
round_ends = rw dequeued refused_job

registered-Round_example :
    Round sample_env
      (λ s. s)
      (registered sample_env sample_forge)
      dequeued_state
      held
      (worker_round sample_env (λ s. s) (registered sample_env sample_forge) queued).1
registered-Round_example =
    registered-Round sample_env (λ s. s) sample_forge (some (job "b")) queued dequeued_state
      (worker_round sample_env (λ s. s) (registered sample_env sample_forge) queued).1 held
      two_jobs-Holds dequeued
      (λ i. (
        round_ends i,
        (worker_round sample_env (λ s. s) (registered sample_env sample_forge) queued).1,
      ))

-- `make` cannot be started.
abbrev no_make : ForgeConfig
no_make = record sample_forge { run = λ n cmd. not_started (raised other "no such file: make") }

abbrev statuses : World View → List Status × List Status
statuses w = (map (λ x. x.status) w.db.workflows, map (λ t. t.status) w.db.tasks)

-- The request raises, and leaves its workflow and its task running.
left_running :
    ((run_demo_forge_request sample_env no_make forge_payload start).0
      ≡ err (raised other "no such file: make"))
    × (statuses (run_demo_forge_request sample_env no_make forge_payload start).1
        ≡ (running ∷ [], running ∷ []))
unfolding run_demo_forge_request check_scenario check_makefile begin_request run_forge_steps
    tools_step start_workflow with_workflow create_task session_scope result_of lookup strip
left_running = (refl, refl)
