-- ===== src/Orchestrator/Jobs.antt =====
-- What a worker does with the next job.
use wiseorder.Prelude.{
  refl, String, ◌≡◌, sym, ap, ◌∙◌, subst, Option, none, some, List, [], ◌∷◌, Option-cases, inl, inr,
}
use wiseorder.Prelude.Text.{concat}
use wiseorder.Values.{Fields}
use wiseorder.Exec.{Exn, Result, ok, err, pure, handle, continue, ok-injective}
use wiseorder.Job.{Job}
use wiseorder.Queue
use wiseorder.Queue.{mark_failed, high, normal, failed}
use wiseorder.Queue.Lists.{Queues, Holds, add, next, fail-Holds, dequeue-Holds}
use wiseorder.Runtime.{World, Env, on_redis}
use wiseorder.Runtime.Commands.{on_redis-eq-ok, on_redis-db}
use wiseorder.Orchestrator.{
  Handler, handler_of, dead_letter, run_handler, run_job, worker_round, taken,
}

module _ {R : Type 0} (env : Env R) (repr : String → String) where
  -- The server holds these jobs.
  abbrev pub HoldsJobs : World R → Queues → Type 0
  HoldsJobs w q = Holds env.redis env.json w.redis q

  -- How the handling of a job ends, from the lists q in the state w₁ that the handler left: where the
  -- handler returned, they are the same; where it raised e, the job is dead-lettered with e.
  abbrev pub AfterJob : Job → World R → Queues → Result Fields → World R → Type 0
  AfterJob job w₁ q (ok result) t = HoldsJobs t q
  AfterJob job w₁ q (err e) t =
      HoldsJobs t (add failed (mark_failed (env.iso (env.clock w₁.calls)) job e.message) q)

  -- The state in which the handler runs.
  abbrev pub in_job : Job → World R → World R
  in_job job w = record w { current_job_id = some job.id }

  pub dead_letter-Holds :
      (job : Job) (error : String) (w t : World R) (q : Queues)
      → dead_letter env repr job error w ≡ (ok tt, t)
      → HoldsJobs w q
      → HoldsJobs t (add failed (mark_failed (env.iso (env.clock w.calls)) job error) q)
  unfolding dead_letter on_redis
  dead_letter-Holds job error w t q e h =
      fail-Holds env.redis env.json (env.iso (env.clock w.calls)) job error w.redis t.redis q
        (λ i. ((e i).0, (e i).1.redis)) h

  ended :
      (job : Job) (r : Result Fields) (w₁ w₂ t : World R) (q : Queues)
      → handle
          (continue r (λ x. pure tt) w₁).0
          (λ e. dead_letter env repr job e.message)
          (continue r (λ x. pure tt) w₁).1
        ≡ (ok tt, w₂)
      → w₂.redis ≡ t.redis
      → HoldsJobs w₁ q
      → AfterJob job w₁ q r t
  ended job (ok x) w₁ w₂ t q e same h =
      subst (λ s. Holds env.redis env.json s q) (ap (λ w. w.redis) (ok-injective e).1 ∙ same) h
  ended job (err x) w₁ w₂ t q e same h =
      subst
        (λ s.
          Holds env.redis env.json s
            (add failed (mark_failed (env.iso (env.clock w₁.calls)) job x.message) q))
        same (dead_letter-Holds job x.message w₁ w₂ q e h)

  dead_letter-db :
      (job : Job) (error : String) (w t : World R)
      → dead_letter env repr job error w ≡ (ok tt, t)
      → t.db ≡ w.db
  unfolding dead_letter
  dead_letter-db job error w t e = sym (on_redis-db _ w t e)

  ended-db :
      (job : Job) (r : Result Fields) (w₁ w₂ : World R)
      → handle
          (continue r (λ x. pure tt) w₁).0
          (λ e. dead_letter env repr job e.message)
          (continue r (λ x. pure tt) w₁).1
        ≡ (ok tt, w₂)
      → w₂.db ≡ w₁.db
  ended-db job (ok x) w₁ w₂ e = sym (ap (λ w. w.db) (ok-injective e).1)
  ended-db job (err x) w₁ w₂ e = dead_letter-db job x.message w₁ w₂ e

  -- A job whose type has a handler, when its handling returns: the lists are as the handler left them,
  -- with the job added to the failed ones, marked with the error, just where the handler raised. The
  -- job's id is no longer the context.
  pub run_handler-ok :
      (handler : Handler R) (job : Job) (w t : World R) (q : Queues)
      → run_handler env repr handler job w ≡ (ok tt, t)
      → HoldsJobs (handler job.payload (in_job job w)).1 q
      → AfterJob job
          (handler job.payload (in_job job w)).1
          q
          (handler job.payload (in_job job w)).0
          t
        × (t.current_job_id ≡ w.current_job_id)
        × (t.db ≡ (handler job.payload (in_job job w)).1.db)
  unfolding run_handler
  run_handler-ok handler job w t q e h =
      let r = (handler job.payload (in_job job w)).0 in
      let w₁ = (handler job.payload (in_job job w)).1 in
      let w₂ =
        (handle (continue r (λ x. pure tt) w₁).0 (λ x. dead_letter env repr job x.message)
          (continue r (λ x. pure tt) w₁).1).1 in
      (
        ended job r w₁ w₂ t q (λ i. ((e i).0, w₂)) (λ i. (e i).1.redis) h,
        sym (λ i. (e i).1.current_job_id),
        sym (λ i. (e i).1.db) ∙ ended-db job r w₁ w₂ (λ i. ((e i).0, w₂)),
      )

  -- What a round of a worker does, from the lists q and the state w₁ that the dequeue left: there was no
  -- job; or the handler of the next job's type was called with its payload, and returned, or raised,
  -- for which the job is dead-lettered; or its type has none, and it is dead-lettered for that.
  pub data Round (handlers : List (String × Handler R)) (w₁ : World R) (q : Queues) (t : World R)
      : Type 0 where
    idle : (next q).0 ≡ none → t ≡ w₁ → HoldsJobs t (next q).1 → Round handlers w₁ q t
    returned :
        (job : Job) (handler : Handler R) (result : Fields)
        → (next q).0 ≡ some job
        → handler_of handlers job.type ≡ some handler
        → (handler job.payload (in_job job w₁)).0 ≡ ok result
        → t.db ≡ (handler job.payload (in_job job w₁)).1.db
        → HoldsJobs t (next q).1
        → Round handlers w₁ q t
    raised :
        (job : Job) (handler : Handler R) (e : Exn) (now : String)
        → (next q).0 ≡ some job
        → handler_of handlers job.type ≡ some handler
        → (handler job.payload (in_job job w₁)).0 ≡ err e
        → t.db ≡ (handler job.payload (in_job job w₁)).1.db
        → HoldsJobs t (add failed (mark_failed now job e.message) (next q).1)
        → Round handlers w₁ q t
    unhandled :
        (job : Job) (now : String)
        → (next q).0 ≡ some job
        → handler_of handlers job.type ≡ none
        → t.db ≡ w₁.db
        → HoldsJobs t (
            add failed
              (mark_failed now job (concat ("no handler for type " ∷ repr job.type ∷ [])))
              (next q).1)
        → Round handlers w₁ q t

  AfterJob-Round :
      (handlers : List (String × Handler R)) (job : Job) (handler : Handler R) (w₁ t : World R)
      (q : Queues)
      → (next q).0 ≡ some job
      → handler_of handlers job.type ≡ some handler
      → t.db ≡ (handler job.payload (in_job job w₁)).1.db
      → (r : Result Fields) → (handler job.payload (in_job job w₁)).0 ≡ r
      → AfterJob job (handler job.payload (in_job job w₁)).1 (next q).1 r t
      → Round handlers w₁ q t
  AfterJob-Round handlers job handler w₁ t q p m rows (ok x) e a =
      returned job handler x p m e rows a
  AfterJob-Round handlers job handler w₁ t q p m rows (err x) e a =
      raised job handler x _ p m e rows a

  -- Handlers that leave the lists of jobs alone.
  abbrev pub KeepJobs : List (String × Handler R) → Type 0
  KeepJobs handlers =
      (type : String) (h : Handler R)
      → handler_of handlers type ≡ some h
      → (p : Fields) (w : World R) (q : Queues) → HoldsJobs w q
      → HoldsJobs (h p w).1 q

  taken-Round :
      (handlers : List (String × Handler R))
      → KeepJobs handlers
      → (r : Option Job) (w₁ t : World R) (q : Queues) → (next q).0 ≡ r
      → HoldsJobs w₁ (next q).1
      → taken env repr handlers r w₁ ≡ (ok tt, t)
      → Round handlers w₁ q t
  unfolding taken run_job
  taken-Round handlers keeps none w₁ t q p h e =
      let same = (ok-injective e).1 in
      idle p (sym same) (subst (λ s. HoldsJobs s (next q).1) same h)
  taken-Round handlers keeps (some job) w₁ t q p h e =
      elim (Option-cases (handler_of handlers job.type)) [
        | inl m ↦
            let dead = rw (m, taken, run_job) at e in
            unhandled job _ p m (dead_letter-db job _ w₁ t dead)
              (dead_letter-Holds job _ w₁ t (next q).1 dead h)
        | inr (handler, m) ↦
            let (a, b, rows) =
              run_handler-ok handler job w₁ t (next q).1 (rw (m, taken, run_job) at e)
                (keeps job.type handler m job.payload (in_job job w₁) (next q).1 h) in
            AfterJob-Round handlers job handler w₁ t q p m rows _ refl a
      ]

  -- A round of a worker that dequeued and returned, where the handlers leave the lists alone: no job was
  -- waiting; or the oldest of the highest priority was taken off its list, and the handler of its type
  -- was called with its payload: it returned, or raised and the job is in the failed list, marked
  -- with the error; or no handler has its type and it is in the failed list, marked so. The rows
  -- are as the handler left them, and no other job was touched.
  pub worker_round-Round :
      (handlers : List (String × Handler R))
      → KeepJobs handlers
      → (r : Option Job) (w w₁ t : World R) (q : Queues) → HoldsJobs w q
      → on_redis (Queue.dequeue env.redis env.json (high ∷ normal ∷ [])) w ≡ (ok r, w₁)
      → worker_round env repr handlers w ≡ (ok tt, t)
      → Round handlers w₁ q t
  unfolding worker_round
  worker_round-Round handlers keeps r w w₁ t q h d e =
      let (p, h₁) =
        dequeue-Holds env.redis env.json w.redis w₁.redis r q (on_redis-eq-ok _ w w₁ r d) h in
      taken-Round handlers keeps r w₁ t q (sym p) h₁ (rw d at e)
