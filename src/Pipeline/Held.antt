-- ===== src/Pipeline/Held.antt =====
-- The claim that a run of the pipeline leaves when it has finished.
use wiseorder.Prelude.{
  ◌+◌, arith, ℕ, ◌<◌, ◌-◌, String, ◌≡◌, subst, refl, sym, ap, ◌∙◌, Option, some, if◌then◌else◌,
  Bool-cases, inl, inr,
}
use wiseorder.Prelude.Decimal.{str}
use wiseorder.Values.{end, field, text, Fields}
use wiseorder.Exec.{ok, Exec, ◌>>=◌, pure, >>=-eq-ok, ok-injective}
use wiseorder.Dedup
use wiseorder.Dedup.{ClaimResult, pending_mark}
use wiseorder.Dedup.Claims.{Claimed, attach_workflow_id-Claimed, Claimed-elapse}
use wiseorder.Runtime.{World, Env, on_redis}
use wiseorder.Steps.{start_workflow, complete_workflow}
use wiseorder.Llm.{EngineeringSummary}
use wiseorder.Pipeline.{
  summarize_step, draft_step, save_step, approval_step, run_pipeline_steps, run_claimed,
  run_commit_pipeline, skip_outcome, with_workflow, lasting, missing_keys, commit_of, require_keys,
}
use wiseorder.Pipeline.Records.{Commit, RunResult, task_chain, finished, skipped}
use wiseorder.Runtime.Commands.{on_redis-eq-ok}
use wiseorder.Pipeline.Context.{run_pipeline_steps-Apart}

-- The answer of a run of this workflow.
abbrev IsFinished : ℕ → RunResult → Type 0
IsFinished wf (finished id approval_id eng post) = id ≡ wf
IsFinished wf (skipped id reason) = ⊥

module _ {S : Type 0} where
  -- What the statement returns, if it does, is of this kind.
  record Answers {A : Type 0} (P : A → Type 0) (m : Exec S A) : Type 0 where
    at : (s s' : S) (a : A) → m s ≡ (ok a, s') → P a

  Answers-bind :
      {A B : Type 0} {P : B → Type 0} (m : Exec S A) (f : A → Exec S B)
      → ((a : A) → Answers P (f a))
      → Answers P (m >>= f)
  Answers-bind m f k = record {
    at = λ s s' b e. let (a, t, p, q) = >>=-eq-ok m f s e in (k a).at t s' b q;
  }

  Answers-pure : {A : Type 0} {P : A → Type 0} (a : A) → P a → Answers P (pure a)
  Answers-pure {P = P} a p = record { at = λ s s' b e. subst P (ok-injective e).0 p }

module _ {R : Type 0} (env : Env R) where
  abbrev pub ClaimedBy : Commit → R → ℕ → ℕ → Type 0
  ClaimedBy c s id left = Claimed env.redis env.claims c.repo c.sha s (str id) left

  -- The claim when the steps have taken their time, and d seconds after them.
  pub elapsed-Claimed :
      (c : Commit) (id : ℕ) (s : R)
      → ClaimedBy c s id env.claims.ttl
      → env.lasts id < env.claims.ttl
      → ClaimedBy c (env.redis.elapse (env.lasts id) s) id (env.claims.ttl - env.lasts id)
  elapsed-Claimed c id s h lt =
      Claimed-elapse env.redis env.claims c.repo c.sha (env.lasts id) s (str id) env.claims.ttl lt h

  pub Claimed-later :
      (c : Commit) (id d : ℕ) (s : R)
      → env.lasts id + d < env.claims.ttl
      → ClaimedBy c s id (env.claims.ttl - env.lasts id)
      → ClaimedBy c (env.redis.elapse d s) id (env.claims.ttl - env.lasts id - d)
  Claimed-later c id d s lt h =
      Claimed-elapse env.redis env.claims c.repo c.sha d s (str id) (env.claims.ttl - env.lasts id)
        (omega (arith, lt)) h

  lasting-eq-ok :
      {A : Type 0} (wf : ℕ) (m : Exec (World R) A) (w w' : World R) (a : A)
      → lasting env wf m w ≡ (ok a, w')
      → (m w ≡ (ok a, (m w).1)) × (env.redis.elapse (env.lasts wf) (m w).1.redis ≡ w'.redis)
  unfolding lasting
  lasting-eq-ok wf m w w' a e = ((λ i. ((e i).0, (m w).1)), λ i. (e i).1.redis)

  with_workflow-eq-ok :
      {A : Type 0} (wf : ℕ) (m : Exec (World R) A) (w w' : World R) (a : A)
      → with_workflow wf m w ≡ (ok a, w')
      → (m (record w { current_workflow_id = some wf })
          ≡ (ok a, (m (record w { current_workflow_id = some wf })).1))
        × ((m (record w { current_workflow_id = some wf })).1.redis ≡ w'.redis)
  unfolding with_workflow
  with_workflow-eq-ok wf m w w' a e =
      ((λ i. ((e i).0, (m (record w { current_workflow_id = some wf })).1)), λ i. (e i).1.redis)

  -- The id in the answer is that of the workflow.
  IsFinished-workflow_id :
      (wf : ℕ) (c : Commit) → Answers (IsFinished wf) (run_pipeline_steps env wf c)
  unfolding run_pipeline_steps
  IsFinished-workflow_id wf c = Answers-bind (summarize_step env wf c) _ λ eng.
      Answers-bind (draft_step env wf c eng) _ λ soc. Answers-bind (save_step env wf c eng) _ λ _.
        Answers-bind (approval_step env wf c eng soc) _ λ approval_id.
          Answers-bind (complete_workflow env "workflow_completed" end wf) _
            λ _. Answers-pure (finished wf approval_id eng soc.post) refl

  -- The steps of the workflow wf began in t, with the claim held, and ended.
  steps-Claimed :
      (wf : ℕ) (c : Commit) (t w' : World R) (id approval_id : ℕ) (eng : EngineeringSummary)
      (post : String)
      → ClaimedBy c t.redis wf env.claims.ttl
      → with_workflow wf (lasting env wf (run_pipeline_steps env wf c)) t
        ≡ (ok (finished id approval_id eng post), w')
      → env.lasts id < env.claims.ttl
      → ClaimedBy c w'.redis id (env.claims.ttl - env.lasts id)
  steps-Claimed wf c t w' id approval_id eng post held e lt =
      let u = record t { current_workflow_id = some wf } in
      let (p, after) =
        with_workflow-eq-ok wf (lasting env wf (run_pipeline_steps env wf c)) t w'
          (finished id approval_id eng post) e in
      let (q, waited) =
        lasting-eq-ok wf (run_pipeline_steps env wf c) u
          (lasting env wf (run_pipeline_steps env wf c) u).1 (finished id approval_id eng post) p in
      let named : id ≡ wf = (IsFinished-workflow_id wf c).at _ _ _ q in
      let same =
        ap (λ (x : R × Option ℕ × Option String). x.0) ((run_pipeline_steps-Apart env wf c).at u) in
      let held' = subst (λ s. ClaimedBy c s wf env.claims.ttl) (sym same) held in
      subst (λ s. ClaimedBy c s id (env.claims.ttl - env.lasts id)) (waited ∙ after)
        (subst
          (λ n.
            ClaimedBy c (env.redis.elapse (env.lasts wf) (run_pipeline_steps env wf c u).1.redis) n
              (env.claims.ttl - env.lasts n))
          (sym named)
          (elapsed-Claimed c wf (run_pipeline_steps env wf c u).1.redis held'
            (subst (λ n. env.lasts n < env.claims.ttl) named lt)))

  run_claimed-Claimed :
      (id approval_id : ℕ) (c : Commit) (eng : EngineeringSummary) (post : String) (w w' : World R)
      → run_claimed env c w ≡ (ok (finished id approval_id eng post), w')
      → env.lasts id < env.claims.ttl
      → ClaimedBy c w'.redis id (env.claims.ttl - env.lasts id)
  unfolding run_claimed
  run_claimed-Claimed id approval_id c eng post w w' e lt =
      let (wf, t₁, p₁, q₁) =
        >>=-eq-ok
          (start_workflow env "commit_pipeline" task_chain "workflow_started"
            (field "repo" (text c.repo) (field "sha" (text c.sha) end)))
          _ w e in
      let (u, t₂, p₂, q₂) =
        >>=-eq-ok (on_redis (Dedup.attach_workflow_id env.redis env.claims c.repo c.sha wf)) _ t₁
          q₁ in
      steps-Claimed wf c t₂ w' id approval_id eng post
        (attach_workflow_id-Claimed env.redis env.claims c.repo c.sha wf t₁.redis t₂.redis
          (on_redis-eq-ok _ t₁ t₂ tt p₂))
        q₂ lt

  won-Claimed :
      (claim : ClaimResult) (id approval_id : ℕ) (c : Commit) (eng : EngineeringSummary)
      (post : String) (w w' : World R)
      → (if claim.acquired then run_claimed env c else pure (skip_outcome claim)) w
        ≡ (ok (finished id approval_id eng post), w')
      → env.lasts id < env.claims.ttl
      → ClaimedBy c w'.redis id (env.claims.ttl - env.lasts id)
  unfolding skip_outcome
  won-Claimed claim id approval_id c eng post w w' e lt = elim (Bool-cases claim.acquired) [
    | inl p ↦ run_claimed-Claimed id approval_id c eng post w w' (rw p at e) lt
    | inr p ↦ let (a, b) = ok-injective (rw p at e) in cc
  ]

  -- A run that finished leaves the claim on its commit held with the id of its workflow, for what the
  -- steps have left of the TTL.
  pub finished-Claimed :
      (payload : Fields) (id approval_id : ℕ) (eng : EngineeringSummary) (post : String)
      (w w' : World R)
      → run_commit_pipeline env payload w ≡ (ok (finished id approval_id eng post), w')
      → env.lasts id < env.claims.ttl
      → ClaimedBy (commit_of payload) w'.redis id (env.claims.ttl - env.lasts id)
  unfolding run_commit_pipeline
  finished-Claimed payload id approval_id eng post w w' e lt =
      let (u, t₁, p₁, q₁) = >>=-eq-ok (require_keys env (missing_keys payload)) _ w e in
      let (claim, t₂, p₂, q₂) =
        >>=-eq-ok
          (on_redis
            (Dedup.acquire env.redis env.claims (commit_of payload).repo (commit_of payload).sha))
          _ t₁ q₁ in
      won-Claimed claim id approval_id (commit_of payload) eng post t₂ w' q₂ lt
