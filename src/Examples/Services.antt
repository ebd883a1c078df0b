-- ===== src/Examples/Services.antt =====
-- The orchestrator over the sample servers.
use wiseorder.Prelude.{String, ◌≡◌, ◌↔◌, ◌⊎◌, true, false, none, some, [], ◌∷◌}
use wiseorder.Prelude.Text.{is_empty}
use wiseorder.Exec.{ok}
use wiseorder.Redis.{View}
use wiseorder.Queue
use wiseorder.Queue.{high, normal}
use wiseorder.Db.{running}
use wiseorder.Runtime.{World, on_redis}
use wiseorder.Orchestrator.{validate_bind_safety}
use wiseorder.Orchestrator.Binding.{validate_bind_safety-ok}
use wiseorder.Examples.Sample.{sample_env, start}
use wiseorder.Examples.Queues.{job, two_jobs, taken}

abbrev public : String
public = "0.0.0.0"

validate_bind_safety-ok_example : (validate_bind_safety (λ s. s) public true "x" ≡ ok tt) ↔ (
    ((public ≡ "127.0.0.1") ⊎ ((public ≡ "localhost") ⊎ (public ≡ "::1")))
    ⊎ ((true ≡ true) × (is_empty "x" ≡ false)))
validate_bind_safety-ok_example = validate_bind_safety-ok (λ s. s) public true "x"

-- A workflow that has been running for 1000 seconds.
abbrev orphaned : World View
orphaned = record start {
  calls = 1000;
  db = record start.db {
    workflows =
        (record {
          id = 1;
          workflow_name = "commit_pipeline";
          task_chain = [];
          status = running;
          logs = [];
          created_at = 0;
          completed_at = none;
        })
        ∷ [];
  };
}

abbrev pub queued : World View
queued = record start { redis = two_jobs }

pub dequeued :
    on_redis (Queue.dequeue sample_env.redis sample_env.json (high ∷ normal ∷ [])) queued ≡ (
      ok (some (job "b")),
      (on_redis (Queue.dequeue sample_env.redis sample_env.json (high ∷ normal ∷ [])) queued).1,
    )
unfolding on_redis
dequeued i = (
  taken i,
  (on_redis (Queue.dequeue sample_env.redis sample_env.json (high ∷ normal ∷ [])) queued).1,
)
