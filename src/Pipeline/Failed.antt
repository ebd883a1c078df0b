-- ===== src/Pipeline/Failed.antt =====
-- What a run of the pipeline that fails leaves of its claim, where Postgres and Redis serve it.
use wiseorder.Prelude.{
  ◌+◌, arith, ℕ, ◌<◌, ◌-◌, String, ◌≡◌, refl, subst, sym, ap, true, false, Option, none, some, List,
  [],
}
use wiseorder.Prelude.Decimal.{str}
use wiseorder.Values.{end, field, text, Fields}
use wiseorder.Exec.{Exec, ok, err, Exn}
use wiseorder.Exec.Ends.{Ends-restate, Ends-also, raised-Ends, returns, Run, >>=-Run, >>=-ok-Run}
use wiseorder.Dedup
use wiseorder.Dedup.{ClaimResult}
use wiseorder.Dedup.Claims.{attach_workflow_id-Claimed}
use wiseorder.Db.{Db, Workflow, Task, ids, has_id, running}
use wiseorder.Runtime.{World, Env, on_redis}
use wiseorder.Steps.{start_workflow}
use wiseorder.Steps.Effects.{Idle}
use wiseorder.Pipeline.{
  run_pipeline_steps, run_claimed, run_commit_pipeline, missing_keys, commit_of, require_keys,
}
use wiseorder.Pipeline.{lasting}
use wiseorder.Pipeline.Records.{Commit, RunResult, task_chain, skipped}
use wiseorder.Pipeline.Outcome.{Stopped, run_pipeline_steps-Run}
use wiseorder.Runtime.Commands.{on_redis-db}
use wiseorder.Pipeline.Whole.{
  start_workflow-Run, Idle-reset, with_workflow-Run, Stopped-reset, Stopped-waited,
}
use wiseorder.Pipeline.Context.{run_pipeline_steps-Apart}
use wiseorder.Pipeline.Claimed.{claimed-Run}
use wiseorder.Pipeline.Held.{ClaimedBy, elapsed-Claimed, Claimed-later}

module _ {R : Type 0} (env : Env R) where
  -- The workflow is new and failed, and its id is in the claim on the commit for what the steps have
  -- left of the TTL.
  pub record FailedHolder (c : Commit) (db : Db) (t : World R) : Type 0 where
    pub workflow_id : ℕ
    pub fresh : has_id workflow_id (ids (λ (x : Workflow). x.id) db.workflows) ≡ false
    pub stopped : Stopped workflow_id db.workflows db.tasks t
    pub held :
        env.lasts workflow_id < env.claims.ttl
        → ClaimedBy env c t.redis workflow_id (env.claims.ttl - env.lasts workflow_id)

  no_keys : {ks : List String} {w : World R} → ks ≡ [] → require_keys env ks w ≡ (ok tt, w)
  unfolding require_keys
  no_keys h = rw h refl

  -- A run with both keys whose claim is won goes on as the run of a claimed commit.
  pub begun-Run :
      {Q : RunResult → World R → Type 0} {E : Exn → World R → Type 0} (payload : Fields)
      (claim : ClaimResult) (w t : World R)
      → missing_keys payload ≡ []
      → on_redis
          (Dedup.acquire env.redis env.claims (commit_of payload).repo (commit_of payload).sha)
          w
        ≡ (ok claim, t)
      → claim.acquired ≡ true
      → Run Q E (run_claimed env (commit_of payload)) t
      → Run Q E (run_commit_pipeline env payload) w
  unfolding run_commit_pipeline
  begun-Run payload claim w t complete acquires wins h =
      >>=-ok-Run (require_keys env (missing_keys payload)) _ w (no_keys complete) (
        >>=-ok-Run
          (on_redis
            (Dedup.acquire env.redis env.claims (commit_of payload).repo (commit_of payload).sha))
          _ w acquires (rw wins h))

module _ {R A : Type 0} {P Q : A → World R → Type 0} {D E : Exn → World R → Type 0} where
  -- A statement that takes time, from its end without.
  lasting-Ends :
      (env : Env R) (wf : ℕ) (m : Exec (World R) A) (w : World R)
      → Run P D m w
      → ((a : A) (t : World R)
          → P a t
          → Q a (record t { redis = env.redis.elapse (env.lasts wf) t.redis }))
      → ((e : Exn) (t : World R)
          → D e t
          → E e (record t { redis = env.redis.elapse (env.lasts wf) t.redis }))
      → Run Q E (lasting env wf m) w
  unfolding lasting
  lasting-Ends env wf m w h q e = Ends-restate h (λ a x. q a _ x) (λ x y. e x _ y)

module _ {R : Type 0} (env : Env R) (up : (n : ℕ) → env.postgres.refuses n ≡ none)
    (attaches : (k x : String) (ex : ℕ) (s : R)
      → (s' : R) × (env.redis.set_ex k x ex s ≡ (ok tt, s'))) where
  attach-Run :
      {E : Exn → World R → Type 0} (c : Commit) (wf : ℕ) (before : List Workflow) (base : List Task)
      (t : World R)
      → Idle wf before base running [] t
      → Run
          (λ _ t. Idle wf before base running [] t × ClaimedBy env c t.redis wf env.claims.ttl)
          E
          (on_redis (Dedup.attach_workflow_id env.redis env.claims c.repo c.sha wf))
          t
  unfolding on_redis Dedup.attach_workflow_id
  attach-Run c wf before base t h =
      let (s', p) = attaches (Dedup.key env.claims c.repo c.sha) (str wf) env.claims.ttl t.redis in
      let held = attach_workflow_id-Claimed env.redis env.claims c.repo c.sha wf t.redis s' p in
      rw p (returns (record { row = h.row; ran = h.ran }, held))

  -- A run on a claimed commit that raises leaves the failed workflow in the claim.
  run_claimed-Run :
      (c : Commit) (w : World R)
      → Run (λ _ t. Unit {0}) (λ _. FailedHolder env c w.db) (run_claimed env c) w
  unfolding run_claimed
  run_claimed-Run c w =
      >>=-Run
        (start_workflow env "commit_pipeline" task_chain "workflow_started"
          (field "repo" (text c.repo) (field "sha" (text c.sha) end)))
        _ w (start_workflow-Run env up _ _ _ _ w)
        λ wf t₁ h₁.
          >>=-Run
            {P = λ _ t.
              Idle wf w.db.workflows w.db.tasks running [] t
              × ClaimedBy env c t.redis wf env.claims.ttl}
            (on_redis (Dedup.attach_workflow_id env.redis env.claims c.repo c.sha wf)) _ t₁
            (attach-Run c wf w.db.workflows w.db.tasks t₁ h₁.idle)
            λ _ t₂ (idle, held).
              with_workflow-Run wf (lasting env wf (run_pipeline_steps env wf c)) t₂ (λ a t o q. tt)
                (λ e t o q. record {
                  workflow_id = q.workflow_id;
                  fresh = q.fresh;
                  stopped = Stopped-reset q.workflow_id w.db.workflows w.db.tasks t o q.stopped;
                  held = q.held;
                })
                (steps-Run c wf w t₂ h₁.fresh idle held)
    where
      steps-Run :
          (c : Commit) (wf : ℕ) (w t : World R)
          → has_id wf (ids (λ (x : Workflow). x.id) w.db.workflows) ≡ false
          → Idle wf w.db.workflows w.db.tasks running [] t
          → ClaimedBy env c t.redis wf env.claims.ttl
          → Run
              (λ _ t. Unit {0})
              (λ _. FailedHolder env c w.db)
              (lasting env wf (run_pipeline_steps env wf c))
              (record t { current_workflow_id = some wf })
      steps-Run c wf w t fresh idle held =
          let u = record t { current_workflow_id = some wf } in
          lasting-Ends env wf (run_pipeline_steps env wf c) u
            (Ends-also (λ v. v.redis ≡ t.redis)
              (ap (λ (x : R × Option ℕ × Option String). x.0)
                ((run_pipeline_steps-Apart env wf c).at u))
              (run_pipeline_steps-Run env up wf w.db.workflows w.db.tasks c u
                (Idle-reset wf w.db.workflows w.db.tasks running [] t (some wf) idle)))
            (λ a v q. tt)
            λ e v (q, same). record {
              workflow_id = wf;
              fresh = fresh;
              stopped = Stopped-waited wf w.db.workflows w.db.tasks v _ q;
              held = λ lt. elapsed-Claimed env c wf v.redis (rw same held) lt;
            }

  won-Run :
      (payload : Fields) (claim : ClaimResult) (w t : World R)
      → missing_keys payload ≡ []
      → on_redis
          (Dedup.acquire env.redis env.claims (commit_of payload).repo (commit_of payload).sha)
          w
        ≡ (ok claim, t)
      → claim.acquired ≡ true
      → Run
          (λ _ t. Unit {0})
          (λ _. FailedHolder env (commit_of payload) w.db)
          (run_commit_pipeline env payload)
          w
  won-Run payload claim w t complete acquires wins =
      begun-Run env payload claim w t complete acquires wins (
        subst
          (λ (db : Db).
            Run (λ _ t. Unit {0}) (λ _. FailedHolder env (commit_of payload) db)
              (run_claimed env (commit_of payload)) t)
          (sym (on_redis-db _ w t acquires)) (run_claimed-Run (commit_of payload) t))

  -- Postgres serves every call, and Redis every attachment. A run wins the claim on its commit, and
  -- raises: its workflow is new and failed. d seconds later a run is asked for on the same commit, where
  -- d and the time that the steps of any workflow take are together less than the TTL: it changes no
  -- row of the database, and unless Redis raises it answers that the commit is a duplicate, with the
  -- id of the failed workflow.
  pub run_commit_pipeline-failed :
      (payload again : Fields) (claim : ClaimResult) (d : ℕ) (e : Exn) (w t w' w₂ : World R)
      → missing_keys payload ≡ []
      → on_redis
          (Dedup.acquire env.redis env.claims (commit_of payload).repo (commit_of payload).sha)
          w
        ≡ (ok claim, t)
      → claim.acquired ≡ true
      → run_commit_pipeline env payload w ≡ (err e, w')
      → (commit_of again).repo ≡ (commit_of payload).repo
      → (commit_of again).sha ≡ (commit_of payload).sha
      → ((wf : ℕ) → env.lasts wf + d < env.claims.ttl)
      → w₂.redis ≡ env.redis.elapse d w'.redis
      → (id : ℕ) × (has_id id (ids (λ (x : Workflow). x.id) w.db.workflows) ≡ false)
        × Stopped id w.db.workflows w.db.tasks w'
        × Run
            (λ r t. (r ≡ skipped (some id) "duplicate_sha") × (t.db ≡ w₂.db))
            (λ e t. t.db ≡ w₂.db)
            (run_commit_pipeline env again)
            w₂
  run_commit_pipeline-failed payload again claim d e w t w' w₂ complete acquires wins fails repo sha
        lt later =
      let f =
        raised-Ends (won-Run payload claim w t complete acquires wins) (ap (λ x. x.0) fails)
          (ap (λ x. x.1) fails) in
      let held =
        Claimed-later env (commit_of payload) f.workflow_id d w'.redis (lt f.workflow_id)
          (f.held (omega (arith, lt f.workflow_id))) in
      (
        f.workflow_id,
        f.fresh,
        f.stopped,
        claimed-Run env again f.workflow_id (env.claims.ttl - env.lasts f.workflow_id - d) w₂
            (rw (repo, sha, later) held),
      )
