-- ===== src/Orchestrator/Kept.antt =====
-- The commit pipeline leaves the lists of jobs alone, also where a command of the server raises.
use wiseorder.Prelude.{
  ℕ, String, Bool, true, false, Bool-cases, ◌≡◌, refl, sym, ap, ◌∙◌, some, List, [], ◌∷◌, inl, inr,
  eq_iff, if◌then◌else◌,
}
use wiseorder.Prelude.Text.{str_eq, starts_with, concat}
use wiseorder.Prelude.Prefix.{starts_with-append}
use wiseorder.Values.{Fields}
use wiseorder.Exec.{Result, ok, err, Exec, continue, pure, ◌>>=◌}
use wiseorder.Dedup
use wiseorder.Queue
use wiseorder.Queue.{QueueName, high, normal, failed}
use wiseorder.Queue.Lists.{Queues}
use wiseorder.Runtime.{World, Env, on_redis}
use wiseorder.Runtime.Apart.{Apart, apart_rules}
use wiseorder.Pipeline.{
  run_commit_pipeline, require_keys, missing_keys, commit_of, run_claimed, run_pipeline_steps,
  skip_outcome, with_workflow, lasting,
}
use wiseorder.Pipeline.Records.{Commit, task_chain}
use wiseorder.Steps.{start_workflow}
use wiseorder.Pipeline.Context.{start_workflow-Apart, run_pipeline_steps-Apart}
use wiseorder.Orchestrator.Jobs.{HoldsJobs}

module _ {R : Type 0} (env : Env R) where
  -- The three lists of jobs are the same, however the statement ends.
  pub record KeepsLists {A : Type 0} (m : Exec (World R) A) : Type 0 where
    pub at :
        (w : World R) (q : QueueName)
        → (env.redis.view (m w).1.redis).lists (Queue.key q)
          ≡ (env.redis.view w.redis).lists (Queue.key q)

  continue-KeepsLists :
      {A B : Type 0} (r : Result A) (f : A → Exec (World R) B) (w : World R)
      → ((a : A) → KeepsLists (f a))
      → (q : QueueName)
      → (env.redis.view (continue r f w).1.redis).lists (Queue.key q)
        ≡ (env.redis.view w.redis).lists (Queue.key q)
  continue-KeepsLists (ok a) f w k q = (k a).at w q
  continue-KeepsLists (err e) f w k q = refl

  pub KeepsLists-bind :
      {A B : Type 0} (m : Exec (World R) A) (f : A → Exec (World R) B)
      → KeepsLists m
      → ((a : A) → KeepsLists (f a))
      → KeepsLists (m >>= f)
  KeepsLists-bind m f h k = record {
    at = λ w q. continue-KeepsLists (m w).0 f (m w).1 k q ∙ h.at w q;
  }

  pub Apart-KeepsLists : {A : Type 0} (m : Exec (World R) A) → Apart m → KeepsLists m
  Apart-KeepsLists m h = record {
    at = λ w q. ap (λ s. (env.redis.view s).lists (Queue.key q)) (λ i. (h.at w i).0);
  }

  with_workflow-KeepsLists :
      {A : Type 0} (wf : ℕ) (m : Exec (World R) A) → KeepsLists m → KeepsLists (with_workflow wf m)
  unfolding with_workflow
  with_workflow-KeepsLists wf m h = record {
    at = λ w q. h.at (record w { current_workflow_id = some wf }) q;
  }

  lasting-KeepsLists :
      {A : Type 0} (wf : ℕ) (m : Exec (World R) A) → KeepsLists m → KeepsLists (lasting env wf m)
  unfolding lasting
  lasting-KeepsLists wf m h = record {
    at = λ w q.
        ap (λ v. v.lists (Queue.key q)) (env.redis.view-elapse (env.lasts wf) (m w).1.redis)
        ∙ h.at w q;
  }

-- The same of a command of the server.
module _ {R : Type 0} (env : Env R) where
  record KeepsQueues {A : Type 0} (m : Exec R A) : Type 0 where
    at :
        (s : R) (q : QueueName)
        → (env.redis.view (m s).1).lists (Queue.key q) ≡ (env.redis.view s).lists (Queue.key q)

  KeepsQueues-bind :
      {A B : Type 0} (m : Exec R A) (f : A → Exec R B)
      → KeepsQueues m
      → ((a : A) → KeepsQueues (f a))
      → KeepsQueues (m >>= f)
  KeepsQueues-bind {A = A} m f h k = record { at = λ s q. after (m s).0 (m s).1 q ∙ h.at s q }
    where
      after :
          (r : Result A) (s : R) (q : QueueName)
          → (env.redis.view (continue r f s).1).lists (Queue.key q)
            ≡ (env.redis.view s).lists (Queue.key q)
      after (ok a) s q = (k a).at s q
      after (err e) s q = refl

  on_redis-KeepsLists : {A : Type 0} (m : Exec R A) → KeepsQueues m → KeepsLists env (on_redis m)
  unfolding on_redis
  on_redis-KeepsLists m h = record { at = λ w q. h.at w.redis q }

  queue_key-starts :
      (q : QueueName) → starts_with (Queue.key q) "wiseorder:dedup:commit_pipeline" ≡ false
  unfolding Queue.key starts_with
  queue_key-starts high = refl
  queue_key-starts normal = refl
  queue_key-starts failed = refl

  -- No claim has the key of a list of jobs.
  claim_key-apart :
      (repo sha : String) (q : QueueName)
      → str_eq (Dedup.key env.claims repo sha) (Queue.key q) ≡ false
  unfolding Dedup.key concat
  claim_key-apart repo sha q =
      elim (Bool-cases (str_eq (Dedup.key env.claims repo sha) (Queue.key q))) [
        | inr h ↦ h
        | inl h ↦
            let same = (eq_iff (Dedup.key env.claims repo sha) (Queue.key q)).0 h in
            let c : true ≡ false =
              sym (starts_with-append "wiseorder:dedup:commit_pipeline" _)
              ∙ ap (λ s. starts_with s "wiseorder:dedup:commit_pipeline") same
              ∙ queue_key-starts q in
            cc
      ]

  conclude-KeepsQueues :
      (repo sha : String) (won : Bool)
      → KeepsQueues (Dedup.conclude env.redis env.claims repo sha won)
  unfolding Dedup.conclude
  conclude-KeepsQueues repo sha true = record { at = λ s q. refl }
  conclude-KeepsQueues repo sha false =
      KeepsQueues-bind (env.redis.get (Dedup.key env.claims repo sha)) _
        (record { at = λ s q. env.redis.get_others _ s (Queue.key q) })
        (λ o. record { at = λ s q. refl })

  acquire-KeepsQueues :
      (repo sha : String) → KeepsQueues (Dedup.acquire env.redis env.claims repo sha)
  unfolding Dedup.acquire
  acquire-KeepsQueues repo sha =
      KeepsQueues-bind
        (env.redis.set_nx (Dedup.key env.claims repo sha) Dedup.pending_mark env.claims.ttl)
        (Dedup.conclude env.redis env.claims repo sha)
        (record {
          at = λ s q. env.redis.set_nx_others _ _ _ s (Queue.key q) (claim_key-apart repo sha q);
        })
        (conclude-KeepsQueues repo sha)

  attach-KeepsQueues :
      (repo sha : String) (wf : ℕ)
      → KeepsQueues (Dedup.attach_workflow_id env.redis env.claims repo sha wf)
  unfolding Dedup.attach_workflow_id
  attach-KeepsQueues repo sha wf = record {
    at = λ s q. env.redis.set_ex_others _ _ _ s (Queue.key q) (claim_key-apart repo sha q);
  }

  require_keys-Apart : (ks : List String) → Apart (require_keys env ks)
  unfolding require_keys
  require_keys-Apart [] = search apart_rules
  require_keys-Apart (k ∷ ks) = search apart_rules

  run_claimed-KeepsLists : (c : Commit) → KeepsLists env (run_claimed env c)
  unfolding run_claimed
  run_claimed-KeepsLists c =
      KeepsLists-bind env (start_workflow env "commit_pipeline" task_chain "workflow_started" _) _
        (Apart-KeepsLists env _ (start_workflow-Apart env _ _ _ _))
        λ wf.
          KeepsLists-bind env
            (on_redis (Dedup.attach_workflow_id env.redis env.claims c.repo c.sha wf)) _
            (on_redis-KeepsLists _ (attach-KeepsQueues c.repo c.sha wf))
            λ _. with_workflow-KeepsLists env wf (lasting env wf (run_pipeline_steps env wf c)) (
              lasting-KeepsLists env wf (run_pipeline_steps env wf c)
                (Apart-KeepsLists env _ (run_pipeline_steps-Apart env wf c)))

  claimed-KeepsLists :
      (claim : Dedup.ClaimResult) (c : Commit) (b : Bool)
      → KeepsLists env (if b then run_claimed env c else pure (skip_outcome claim))
  claimed-KeepsLists claim c true = run_claimed-KeepsLists c
  claimed-KeepsLists claim c false = record { at = λ w q. refl }

  pub run_commit_pipeline-KeepsLists :
      (payload : Fields) → KeepsLists env (run_commit_pipeline env payload)
  unfolding run_commit_pipeline
  run_commit_pipeline-KeepsLists payload =
      let c = commit_of payload in
      KeepsLists-bind env (require_keys env (missing_keys payload)) _
        (Apart-KeepsLists env _ (require_keys-Apart (missing_keys payload)))
        λ _.
          KeepsLists-bind env (on_redis (Dedup.acquire env.redis env.claims c.repo c.sha)) _
            (on_redis-KeepsLists _ (acquire-KeepsQueues c.repo c.sha))
            λ claim. claimed-KeepsLists claim c claim.acquired

  pub KeepsLists-HoldsJobs :
      {A : Type 0} (repr : String → String) (m : Exec (World R) A)
      → KeepsLists env m
      → (w : World R) (q : Queues) → HoldsJobs env repr w q
      → HoldsJobs env repr (m w).1 q
  KeepsLists-HoldsJobs repr m k w q h = record {
    at_high = k.at w high ∙ h.at_high;
    at_normal = k.at w normal ∙ h.at_normal;
    at_failed = k.at w failed ∙ h.at_failed;
  }
