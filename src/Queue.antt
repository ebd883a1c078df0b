-- ===== src/Queue.antt =====
-- core/queues/redis_queue.py, the class RedisQueue: three Redis lists of jobs in JSON form.
pub mod Lists
pub mod Order
use wiseorder.Prelude.{ℕ, ◌+◌, String, Bool, false, Option, none, some, List, [], ◌∷◌, ◌++◌}
use wiseorder.Prelude.Text.{concat}
use wiseorder.Prelude.Decimal.{str}
use wiseorder.Exec.{Result, ok, err, Exn, Exec, pure, lift, ◌>>=◌, ◌>>◌, try_except}
use wiseorder.Redis.{Redis}
use wiseorder.Job.{Job, Json, to_json, from_json}

pub data QueueName : Type 0 where
  high normal failed : QueueName

-- QueueName.value
unfoldable pub key : QueueName → String
key high = "wiseorder:queue:high_priority"
key normal = "wiseorder:queue:normal_priority"
key failed = "wiseorder:queue:failed_jobs"

-- The job that `fail` stores: one attempt more, and a note with the time and the error.
unfoldable pub mark_failed : String → Job → String → Job
mark_failed now job error =
    let attempt = job.attempt + 1 in
    record job {
      attempt = attempt;
      notes =
          job.notes ++ concat (now ∷ " failed (attempt=" ∷ str attempt ∷ "): " ∷ error ∷ []) ∷ [];
    }

abbrev pub keys : List QueueName → List String
keys [] = []
keys (q ∷ qs) = key q ∷ keys qs

module _ {S : Type 0} (redis : Redis S) (json : Json) where
  unfoldable pub enqueue : Job → QueueName → Exec S (Unit {0})
  enqueue job queue = redis.rpush (key queue) (to_json json job)

  unfoldable pub decode : Option (String × String) → Exec S (Option Job)
  decode none = pure none
  decode (some (_, blob)) = do job ← lift (from_json json blob); pure (some job)

  -- dequeue(timeout, queues), where BLPOP's answer is the parameter's.
  unfoldable pub dequeue : List QueueName → Exec S (Option Job)
  unfolding decode
  dequeue queues = do res ← redis.blpop (keys queues); decode res

  -- fail(job, error), which the worker never retries.
  unfoldable pub fail : String → Job → String → Exec S (Unit {0})
  fail now job error = redis.rpush (key failed) (to_json json (mark_failed now job error))

  unfoldable pub depth : QueueName → Exec S ℕ
  depth queue = redis.llen (key queue)

  -- One entry for each queue, in the order of the enum.
  unfoldable pub all_depths : Exec S (ℕ × ℕ × ℕ)
  unfolding depth
  all_depths = do h ← depth high; n ← depth normal; f ← depth failed; pure (h, n, f)

  from_jsons : List String → Result (List Job)
  from_jsons [] = ok []
  from_jsons (x ∷ xs) =
      let rest = from_jsons xs in
      elim (from_json json x) [
        | err e ↦ err e
        | ok job ↦ elim rest [ err e ↦ err e | ok jobs ↦ ok (job ∷ jobs) ]
      ]

  unfoldable pub peek_failed : ℕ → Exec S (List Job)
  unfolding from_jsons
  peek_failed limit = do items ← redis.lrange (key failed) limit; lift (from_jsons items)

  -- ping(): any exception is False.
  unfoldable pub ping : Exec S Bool
  ping = try_except redis.ping (λ _. pure false)
