-- ===== src/Examples/Arrivals.antt =====
-- A commit that is emitted, taken by a worker and run.
use wiseorder.Prelude.{◌≡◌, refl, true, none, some, [], ◌∷◌, Option}
use wiseorder.Prelude.Text
use wiseorder.Exec.{ok}
use wiseorder.Exec.Ends.{Run}
use wiseorder.Redis.{View, written}
use wiseorder.Redis.Sample.{sample_redis}
use wiseorder.Dedup
use wiseorder.Job.{Job}
use wiseorder.Job.RoundTrip.{from_json-to_json}
use wiseorder.Queue
use wiseorder.Queue.{high, normal}
use wiseorder.Runtime.{World, tick, on_redis}
use wiseorder.Events.{GitCommitEvent, commit_payload, emit_commit, read_commit, truncate_diff}
use wiseorder.Events.Emitted.{Describes, job_of, as_commit}
use wiseorder.Pipeline.{commit_of}
use wiseorder.Pipeline.Outcome.{Stopped}
use wiseorder.Pipeline.Whole.{Ended}
use wiseorder.Orchestrator.{worker_round}
use wiseorder.Orchestrator.Handlers.{registered}
use wiseorder.Orchestrator.Arrived.{emit_commit-worker_round}
use wiseorder.Orchestrator.Answered.{Answered}
use wiseorder.Examples.Sample.{sample_env, sample_claims, start}
use wiseorder.Examples.Emissions.{emission, readable, no_jobs, no_jobs-Holds}
use wiseorder.Examples.Requests.{sample_forge}

abbrev sent : World View
sent = (emit_commit sample_env "u" "t" "r" emission readable start).1

emitted : (emit_commit sample_env "u" "t" "r" emission readable start).0 ≡ ok tt
unfolding emit_commit read_commit on_redis sample_redis Queue.enqueue
emitted = refl

abbrev read : GitCommitEvent
read = record { repo = "r"; sha = "c1"; author = "Ann"; subject = "Add"; diff = "+x" }

abbrev its_job : Job
its_job = job_of "u" "t" read (some "c0")

abbrev begun : World View
begun = record (tick sent) {
  redis = (sample_redis.blpop (Queue.keys (high ∷ normal ∷ [])) sent.redis).1;
}

dequeued :
    on_redis (Queue.dequeue sample_redis sample_env.json (high ∷ normal ∷ [])) sent
    ≡ (ok (some its_job), begun)
unfolding on_redis Queue.dequeue sample_redis emit_commit read_commit Queue.enqueue Queue.decode
    Queue.key truncate_diff Text.strip Text.strip_char
dequeued = rw (from_json-to_json sample_env.json its_job) refl

abbrev in_job_world : World View
in_job_world = record begun { current_job_id = some "u" }

abbrev claimed : World View
claimed = (on_redis (Dedup.acquire sample_redis sample_claims "r" "c1") in_job_world).1

won :
    (on_redis (Dedup.acquire sample_redis sample_claims "r" "c1") in_job_world).0
    ≡ ok (record { acquired = true; existing_value = none })
unfolding on_redis Dedup.acquire sample_redis emit_commit read_commit Queue.enqueue Queue.key
won = refl

emit_commit-worker_round_example :
    (event : GitCommitEvent) × Describes "r" "c1" readable event
    × (◌≡◌ {A = Option Job} (some its_job) (some (job_of "u" "t" event (some "c0"))))
    × (commit_of (commit_payload event (some "c0")) ≡ as_commit event)
    × Run
        (λ _. Answered sample_env (λ s. s) no_jobs (job_of "u" "t" event (some "c0")) start)
        (λ _. Ended Stopped start)
        (worker_round sample_env (λ s. s) (registered sample_env sample_forge))
        sent
unfolding sample_redis
emit_commit-worker_round_example =
    emit_commit-worker_round sample_env (λ s. s) sample_forge (λ n. refl)
      (λ k x ex s. (written k x ex s, refl)) "u" "t" "r" emission readable [] (some its_job)
      (record { acquired = true; existing_value = none }) start sent begun claimed no_jobs-Holds
      (λ i. (emitted i, sent)) dequeued (λ i. (won i, claimed)) refl
