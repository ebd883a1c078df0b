-- ===== src/Examples/Queues.antt =====
-- The queues over the sample server.
use wiseorder.Prelude.{String, ◌≡◌, refl, none, some, [], ◌∷◌}
use wiseorder.Exec.{ok}
use wiseorder.Values.{end}
use wiseorder.Redis.{View}
use wiseorder.Redis.Sample.{sample_redis, empty_view}
use wiseorder.Job.{Job, from_json, to_json}
use wiseorder.Job.RoundTrip.{from_json-to_json}
use wiseorder.Queue.{QueueName, high, normal, enqueue, dequeue, fail}
use wiseorder.Queue.Lists.{Queues, Holds, next, dequeue-Holds}
use wiseorder.Examples.Codec.{sample_json}

abbrev pub job : String → Job
job id = record {
  id = id;
  type = "commit_pipeline";
  payload = end;
  created_at = "t";
  attempt = 0;
  workflow_id = none;
  parent_job_id = none;
  notes = [];
}

from_json-to_json_example : from_json sample_json (to_json sample_json (job "a")) ≡ ok (job "a")
from_json-to_json_example = from_json-to_json sample_json (job "a")

-- A normal job was enqueued first, and then a high one.
abbrev pub two_jobs : View
two_jobs =
    let first = (enqueue sample_redis sample_json (job "a") normal empty_view).1 in
    (enqueue sample_redis sample_json (job "b") high first).1

abbrev pub held : Queues
held = record { high_jobs = job "b" ∷ []; normal_jobs = job "a" ∷ []; failed_jobs = [] }

pub two_jobs-Holds : Holds sample_redis sample_json two_jobs held
unfolding sample_redis enqueue wiseorder.Queue.key
two_jobs-Holds = record { at_high = refl; at_normal = refl; at_failed = refl }

pub taken : (dequeue sample_redis sample_json (high ∷ normal ∷ []) two_jobs).0 ≡ ok (some (job "b"))
unfolding dequeue sample_redis enqueue wiseorder.Queue.key wiseorder.Queue.decode
taken = rw (from_json-to_json sample_json (job "b"))

dequeue-Holds_example :
    (some (job "b") ≡ (next held).0)
    × Holds sample_redis sample_json
        (dequeue sample_redis sample_json (high ∷ normal ∷ []) two_jobs).1
        (next held).1
dequeue-Holds_example =
    dequeue-Holds sample_redis sample_json two_jobs
      (dequeue sample_redis sample_json (high ∷ normal ∷ []) two_jobs).1 (some (job "b")) held
      (λ i. (taken i, (dequeue sample_redis sample_json (high ∷ normal ∷ []) two_jobs).1))
      two_jobs-Holds
