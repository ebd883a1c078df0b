-- ===== src/Orchestrator/Answered.antt =====
-- How the handling of a job of a commit ends, given how its handler does.
use wiseorder.Prelude.{String, ◌≡◌, refl, subst}
use wiseorder.Exec.{pure, try_except, ◌>>◌}
use wiseorder.Exec.Ends.{returns, Run, >>=-Run, try_except-Run, Ends-restate}
use wiseorder.Job.{Job}
use wiseorder.Queue
use wiseorder.Queue.{high, normal, failed, mark_failed}
use wiseorder.Queue.Lists.{Queues, Holds, add, fail-Holds}
use wiseorder.Runtime.{World, Env}
use wiseorder.Runtime.Commands.{on_redis-Run}
use wiseorder.Pipeline.Outcome.{Completed, Stopped}
use wiseorder.Pipeline.Whole.{Ended}
use wiseorder.Orchestrator.{Handler, dead_letter, run_handler}
use wiseorder.Orchestrator.Jobs.{HoldsJobs, in_job}
use wiseorder.Orchestrator.Settled.{Ended-rows-Completed, Ended-rows-Stopped}

module _ {R : Type 0} (env : Env R) (repr : String → String) where
  -- The job's workflow is new and completed, and the lists are q; or it is new and failed, and the
  -- job is dead-lettered.
  pub data Answered (q : Queues) (job : Job) (w t : World R) : Type 0 where
    completes : HoldsJobs env repr t q → Ended Completed w t → Answered q job w t
    dead_lettered :
        (now error : String)
        → HoldsJobs env repr t (add failed (mark_failed now job error) q)
        → Ended Stopped w t
        → Answered q job w t

  -- Only the rows and the server's state count.
  Answered-same :
      {q : Queues} {job : Job} {w : World R} (t t' : World R)
      → t.db ≡ t'.db
      → t.redis ≡ t'.redis
      → Answered q job w t
      → Answered q job w t'
  Answered-same {q = q} {w = w} t t' rows server (completes h c) =
      completes (subst (λ s. Holds env.redis env.json s q) server h)
        (Ended-rows-Completed w w t t' refl rows c)
  Answered-same {q = q} {job = job} {w = w} t t' rows server (dead_lettered now error h s) =
      dead_lettered now error
        (subst (λ s. Holds env.redis env.json s (add failed (mark_failed now job error) q)) server
          h)
        (Ended-rows-Stopped w w t t' refl rows s)

  dead_letter-Run :
      (job : Job) (q : Queues) (error : String) (w₀ t : World R)
      → Ended Stopped w₀ t
      → HoldsJobs env repr t q
      → Run (λ _. Answered q job w₀) (λ _. Ended Stopped w₀) (dead_letter env repr job error) t
  unfolding dead_letter
  dead_letter-Run job q error w₀ t s held =
      on_redis-Run (Queue.fail env.redis env.json (env.iso (env.clock t.calls)) job error) t
        (λ a r i.
          dead_lettered (env.iso (env.clock t.calls)) error
            (fail-Holds env.redis env.json (env.iso (env.clock t.calls)) job error t.redis r q i
              held)
            (Ended-rows-Stopped w₀ w₀ t _ refl refl s))
        λ x r. Ended-rows-Stopped w₀ w₀ t _ refl refl s

  -- The handler's job ends so, where its workflow does.
  pub run_handler-Run :
      (handler : Handler R) (job : Job) (q : Queues) (w₀ w : World R)
      → Run
          (λ _ t. Ended Completed w₀ t × HoldsJobs env repr t q)
          (λ _ t. Ended Stopped w₀ t × HoldsJobs env repr t q)
          (handler job.payload)
          (in_job env repr job w)
      → Run (λ _. Answered q job w₀) (λ _. Ended Stopped w₀) (run_handler env repr handler job) w
  unfolding run_handler
  run_handler-Run handler job q w₀ w h =
      let ran : Run (λ _. Answered q job w₀) (λ _. Ended Stopped w₀)
          (try_except (handler job.payload >> pure tt) (λ e. dead_letter env repr job e.message))
          (in_job env repr job w) =
        try_except-Run {D = λ _ t. Ended Stopped w₀ t × HoldsJobs env repr t q}
          (handler job.payload >> pure tt) _ _
          (>>=-Run (handler job.payload) _ _ h λ a t (c, held). returns (completes held c))
          (λ e t (s, held). dead_letter-Run job q e.message w₀ t s held) in
      Ends-restate ran (λ a x. Answered-same _ _ refl refl x)
        λ e s. Ended-rows-Stopped w₀ w₀ _ _ refl refl s
