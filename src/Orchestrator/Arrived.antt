-- ===== src/Orchestrator/Arrived.antt =====
-- A commit from its emission to the end of its workflow.
use wiseorder.Prelude.{
  ℕ, String, ◌≡◌, refl, subst, sym, ap, ◌∙◌, true, Option, none, some, List, [], ◌∷◌, inl, inr,
}
use wiseorder.Values.{Fields}
use wiseorder.Exec.{pure, try_except, Exec, Exn, ok, Result-cases}
use wiseorder.Exec.Ends.{returns, Run, >>=-Run, >>=-ok-Run, Ends-also, Ends-weaken, returned-Ends}
use wiseorder.Job.{Job, new}
use wiseorder.Dedup
use wiseorder.Dedup.{ClaimResult}
use wiseorder.Queue
use wiseorder.Queue.{high, normal, failed, mark_failed}
use wiseorder.Queue.Lists.{Queues, queues, dequeue-Holds}
use wiseorder.Runtime.{World, Env, on_redis}
use wiseorder.Runtime.Commands.{on_redis-db, on_redis-eq-ok}
use wiseorder.Events.{Emission, GitOutput, GitCommitEvent, read_commit, commit_payload, emit_commit}
use wiseorder.Events.Emitted.{Describes, job_of, as_commit, Emitted, emit_commit-Emitted, unread}
use wiseorder.Forge.Config.{ForgeConfig}
use wiseorder.Pipeline.{run_commit_pipeline, missing_keys, commit_of}
use wiseorder.Pipeline.Outcome.{Completed, Stopped}
use wiseorder.Pipeline.Whole.{Ended, run_claimed-Run}
use wiseorder.Pipeline.Failed.{begun-Run}
use wiseorder.Orchestrator.{handler_of, run_job, taken, worker_round}
use wiseorder.Orchestrator.Handlers.{registered, commit_handler}
use wiseorder.Orchestrator.Jobs.{HoldsJobs, in_job}
use wiseorder.Orchestrator.Kept.{KeepsLists-HoldsJobs}
use wiseorder.Orchestrator.Registered.{commit_handler-KeepsLists}
use wiseorder.Orchestrator.Settled.{Ended-rows-Completed, Ended-rows-Stopped}
use wiseorder.Orchestrator.Answered.{Answered, run_handler-Run}

caught :
    {S A : Type 0} (m : Exec S A) (h : Exn → Exec S A) (s : S) {a : A} {t : S}
    → m s ≡ (ok a, t)
    → try_except m h s ≡ (ok a, t)
caught m h s e = rw e refl

module _ {R : Type 0} (env : Env R) (repr : String → String) (config : ForgeConfig)
    (up : (n : ℕ) → env.postgres.refuses n ≡ none)
    (attaches : (k x : String) (ex : ℕ) (s : R)
      → (s' : R) × (env.redis.set_ex k x ex s ≡ (ok tt, s'))) where
  found :
      {type : String}
      → type ≡ "commit_pipeline"
      → handler_of (registered env config) type ≡ some (commit_handler env config)
  unfolding handler_of
  found h = rw h refl

  -- The job of a commit whose claim is won.
  run_job-Run :
      (job : Job) (q : Queues) (claim : ClaimResult) (w₀ w t : World R)
      → job.type ≡ "commit_pipeline"
      → missing_keys job.payload ≡ []
      → on_redis
          (Dedup.acquire env.redis env.claims
            (commit_of job.payload).repo
            (commit_of job.payload).sha)
          (in_job env repr job w)
        ≡ (ok claim, t)
      → claim.acquired ≡ true
      → w.db ≡ w₀.db
      → HoldsJobs env repr w q
      → Run
          (λ _. Answered env repr q job w₀)
          (λ _. Ended Stopped w₀)
          (run_job env repr (registered env config) job)
          w
  unfolding run_job
  run_job-Run job q claim w₀ w t type complete acquires wins same held =
      let from = sym (on_redis-db _ (in_job env repr job w) t acquires) ∙ same in
      let handler = commit_handler env config in
      let ran : Run (λ _. Ended Completed w₀) (λ _. Ended Stopped w₀) (handler job.payload)
          (in_job env repr job w) =
        >>=-Run (run_commit_pipeline env job.payload) _ _
          (begun-Run env job.payload claim _ t complete acquires wins (
            Ends-weaken (run_claimed-Run env up attaches (commit_of job.payload) t)
              (λ a c. Ended-rows-Completed t w₀ _ _ from refl c)
              (λ e x. Ended-rows-Stopped t w₀ _ _ from refl x)))
          λ a u c. returns c in
      rw (run_job, found type)
        (run_handler-Run env repr handler job q w₀ w (
          Ends-also (λ u. HoldsJobs env repr u q)
            (KeepsLists-HoldsJobs env repr (handler job.payload)
              (commit_handler-KeepsLists env repr config job.payload) (in_job env repr job w) q
              held)
            ran))

  round-Run :
      (uuid now : String) (event : GitCommitEvent) (prev_sha : Option String) (q : Queues)
      (claim : ClaimResult) (w w₁ w₂ w₃ : World R)
      → on_redis (Queue.dequeue env.redis env.json (high ∷ normal ∷ [])) w₁
        ≡ (ok (some (job_of uuid now event prev_sha)), w₂)
      → on_redis
          (Dedup.acquire env.redis env.claims event.repo event.sha)
          (record w₂ { current_job_id = some uuid })
        ≡ (ok claim, w₃)
      → claim.acquired ≡ true
      → w₂.db ≡ w.db
      → HoldsJobs env repr w₂ q
      → Run
          (λ _. Answered env repr q (job_of uuid now event prev_sha) w)
          (λ _. Ended Stopped w)
          (worker_round env repr (registered env config))
          w₁
  unfolding worker_round taken new wiseorder.Values.lookup
  round-Run uuid now event prev_sha q claim w w₁ w₂ w₃ takes acquires wins same held =
      let job = job_of uuid now event prev_sha in
      let taking = on_redis (Queue.dequeue env.redis env.json (high ∷ normal ∷ [])) in
      >>=-ok-Run (try_except taking (λ e. pure none)) (taken env repr (registered env config)) w₁
        (caught taking (λ e. pure none) w₁ takes)
        (run_job-Run job q claim w w₂ w₃ refl refl acquires wins same held)

  -- A commit is emitted while no high and no normal job is in the lists, where Postgres serves every
  -- call and Redis every attachment. A worker is given a job, and the claim on the commit is won. Then the
  -- job is that of the commit that git printed, its author and its subject stripped and its diff cut
  -- after 200000 characters, and the worker's round ends with a new workflow
  -- completed and the job off the lists, or with the new workflow failed and the job dead-lettered;
  -- where the round raises, because the dead-lettering does, the workflow is failed too.
  pub emit_commit-worker_round :
      (uuid now repo : String) (e : Emission) (out : GitOutput) (fs : List Job) (r : Option Job)
      (claim : ClaimResult) (w w₁ w₂ w₃ : World R)
      → HoldsJobs env repr w (queues [] [] fs)
      → emit_commit env uuid now repo e out w ≡ (ok tt, w₁)
      → on_redis (Queue.dequeue env.redis env.json (high ∷ normal ∷ [])) w₁ ≡ (ok r, w₂)
      → on_redis
          (Dedup.acquire env.redis env.claims repo e.new_sha)
          (record w₂ { current_job_id = some uuid })
        ≡ (ok claim, w₃)
      → claim.acquired ≡ true
      → (event : GitCommitEvent) × Describes repo e.new_sha out event
        × (r ≡ some (job_of uuid now event e.prev_sha))
        × (commit_of (commit_payload event e.prev_sha) ≡ as_commit event)
        × Run
            (λ _. Answered env repr (queues [] [] fs) (job_of uuid now event e.prev_sha) w)
            (λ _. Ended Stopped w)
            (worker_round env repr (registered env config))
            w₁
  emit_commit-worker_round uuid now repo e out fs r claim w w₁ w₂ w₃ held emits takes acquires
        wins =
      elim (Result-cases (read_commit repo e.new_sha out)) [
        | inl (x, p) ↦ cc (unread env uuid now repo e out w (queues [] [] fs) x p, emits)
        | inr (event, p) ↦
            let (d, c, complete, enqueued) =
              subst (Emitted env uuid now repo e out w (queues [] [] fs)) p
                (emit_commit-Emitted env uuid now repo e out w (queues [] [] fs) held) in
            let (jobs, same) = returned-Ends enqueued (ap (λ x. x.0) emits) (ap (λ x. x.1) emits) in
            let (given, rest) =
              dequeue-Holds env.redis env.json w₁.redis w₂.redis r _
                (on_redis-eq-ok _ w₁ w₂ r takes) jobs in
            (
              event,
              d,
              given,
              c,
              round-Run uuid now event e.prev_sha (queues [] [] fs) claim w w₁ w₂ w₃
                  (rw given at takes) (rw (d.0.0, d.0.1) acquires) wins
                  (sym (on_redis-db _ w₁ w₂ takes) ∙ same) rest,
            )
      ]
