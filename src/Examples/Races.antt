-- ===== src/Examples/Races.antt =====
-- Runs of the pipeline that race, and sequences of queue operations, over the sample server.
use wiseorder.Prelude.{ℕ, ◌<◌, ◌≡◌, refl, true, false, none, some, List, [], ◌∷◌, arith}
use wiseorder.Prelude.Text.{concat}
use wiseorder.Redis.{View}
use wiseorder.Redis.Sample.{empty_view, sample_redis}
use wiseorder.Dedup.{ClaimResult, pending_mark, key, conclude, attach_workflow_id}
use wiseorder.Dedup.Race.{Race, idle, Reach, here, next, asks, concludes, attaches, waits, Wins}
use wiseorder.Dedup.Race.Holder.{Reach-one_winner}
use wiseorder.Queue.{high, normal, enqueue, dequeue}
use wiseorder.Queue.Lists.{Queues, Holds}
use wiseorder.Queue.Order.{
  Event, enters, leaves, Served, served, enqueued, dequeued, Accounts, Served-Accounts,
}
use wiseorder.Examples.Codec.{sample_json}
use wiseorder.Examples.Queues.{job, two_jobs, held, two_jobs-Holds, taken}
use wiseorder.Examples.Sample.{sample_claims}

abbrev at_start : Race View
at_start = record { server = empty_view; phases = λ i. idle; spent = 0 }

abbrev won : ClaimResult
won = record { acquired = true; existing_value = none }

abbrev lost : ClaimResult
lost = record { acquired = false; existing_value = some pending_mark }

-- The run 0 wins, the run 1 asks before it has attached its id, 0 attaches, and 1 reads the claim.
raced :
    (r : Race View) × Reach sample_redis sample_claims "r" "abc" at_start r
    × (r.spent < sample_claims.ttl)
    × Wins (r.phases 0)
unfolding conclude attach_workflow_id sample_redis key concat
raced = (
  _,
  next
      (next
        (next
          (next (next (next here (asks 0 true _ refl refl)) (asks 1 false _ refl refl))
            (concludes 0 true won _ refl refl))
          (waits 5))
        (concludes 1 false lost _ refl refl))
      (attaches 0 7 won _ refl refl refl),
  omega arith,
  tt,
)

Reach-one_winner_example : ◌≡◌ {A = ℕ} 0 0
Reach-one_winner_example =
    Reach-one_winner sample_redis sample_claims "r" "abc" at_start raced.0 0 0 (λ k. refl) raced.1
      raced.2 raced.3 raced.3

-- A worker takes the oldest job, and then one more of high priority comes.
abbrev operations : List Event
operations = leaves (some (job "b")) ∷ enters high (job "c") ∷ []

abbrev after_take : View
after_take = (dequeue sample_redis sample_json (high ∷ normal ∷ []) two_jobs).1

abbrev after_both : View
after_both = (enqueue sample_redis sample_json (job "c") high after_take).1

operations-Served : Served sample_redis sample_json two_jobs operations after_both
unfolding sample_redis enqueue
operations-Served =
    dequeued after_take (some (job "b")) (λ i. (taken i, after_take))
      (enqueued after_both high (job "c") refl served)

Served-Accounts_example :
    (q' : Queues) × Holds sample_redis sample_json after_both q' × Accounts held q' operations
Served-Accounts_example =
    Served-Accounts sample_redis sample_json two_jobs after_both held operations operations-Served
      two_jobs-Holds
