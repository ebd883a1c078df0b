-- ===== src/Pipeline/Claimed.antt =====
-- What a commit's claim means for the runs of the pipeline on it.
use wiseorder.Prelude.{
  ◌+◌, arith, ℕ, ◌<◌, ◌-◌, String, ◌≡◌, refl, ap, ◌∙◌, false, ◌&&◌, some, List, [], ◌∷◌, Bool-cases,
  inl, inr,
}
use wiseorder.Prelude.Text.{concat, join}
use wiseorder.Prelude.Decimal.{str}
use wiseorder.Values.{Fields, has_key}
use wiseorder.Exec.{ok, err, raised, value_error}
use wiseorder.Dedup
use wiseorder.Dedup.{ClaimResult, pending_mark}
use wiseorder.Dedup.Claims.{acquire_lost}
use wiseorder.Runtime.{World, Env, on_redis}
use wiseorder.Llm.{EngineeringSummary}
use wiseorder.Exec.Ends.{Ends-weaken, returns, raises, Run, >>=-Run}
use wiseorder.Pipeline.{run_commit_pipeline, missing_keys, commit_of, require_keys}
use wiseorder.Pipeline.Records.{Commit, finished, skipped}
use wiseorder.Pipeline.Skips.{skip_outcome-str}
use wiseorder.Runtime.Commands.{on_redis-Run}
use wiseorder.Pipeline.Held.{ClaimedBy, Claimed-later, finished-Claimed}

abbrev pub missing_message : List String → String
missing_message ks =
    concat ("commit_pipeline payload missing required keys: ['" ∷ join "', '" ks ∷ "']" ∷ [])

-- A payload that lacks repo or sha raises a ValueError that lists the missing keys, and the state is the
-- same: no claim is taken and no workflow is begun.
pub run_commit_pipeline-missing :
    {R : Type 0} (env : Env R) (payload : Fields) (w : World R)
    → (has_key "repo" payload && has_key "sha" payload) ≡ false
    → run_commit_pipeline env payload w
      ≡ (err (raised value_error (missing_message (missing_keys payload))), w)
unfolding run_commit_pipeline
run_commit_pipeline-missing env payload w h = elim (Bool-cases (has_key "repo" payload)) [
  | inr p ↦ elim (Bool-cases (has_key "sha" payload)) [ inr q ↦ rw (p, q) | inl q ↦ rw (p, q) ]
  | inl p ↦ elim (Bool-cases (has_key "sha" payload)) [ inr q ↦ rw (p, q) | inl q ↦ cc ]
]

module _ {R : Type 0} (env : Env R) where
  require_keys-Run :
      (ks : List String) (w : World R) → Run (λ _ t. t ≡ w) (λ _ t. t ≡ w) (require_keys env ks) w
  unfolding require_keys
  require_keys-Run [] w = returns refl
  require_keys-Run (k ∷ ks) w = raises refl

  acquire-Run :
      (c : Commit) (id left : ℕ) (w : World R)
      → ClaimedBy env c w.redis id left
      → Run
          (λ r t. (r ≡ record { acquired = false; existing_value = some (str id) }) × (t.db ≡ w.db))
          (λ _ t. t.db ≡ w.db)
          (on_redis (Dedup.acquire env.redis env.claims c.repo c.sha))
          w
  acquire-Run c id left w h =
      on_redis-Run (Dedup.acquire env.redis env.claims c.repo c.sha) w
        (λ a s e.
          ((acquire_lost env.redis env.claims c.repo c.sha w.redis s a (str id) left h e).0, refl))
        λ e s. refl

  -- A run on a commit whose claim a workflow holds.
  pub claimed-Run :
      (payload : Fields) (id left : ℕ) (w : World R)
      → ClaimedBy env (commit_of payload) w.redis id left
      → Run
          (λ r t. (r ≡ skipped (some id) "duplicate_sha") × (t.db ≡ w.db))
          (λ e t. t.db ≡ w.db)
          (run_commit_pipeline env payload)
          w
  unfolding run_commit_pipeline
  claimed-Run payload id left w h =
      >>=-Run {P = λ _ t. t ≡ w} (require_keys env (missing_keys payload)) _ w
        (Ends-weaken (require_keys-Run (missing_keys payload) w) (λ a e. e)
          (λ x e. ap (λ t. t.db) e))
        λ _ t same.
          >>=-Run
            {P = λ r t.
              (r ≡ record { acquired = false; existing_value = some (str id) }) × (t.db ≡ w.db)}
            (on_redis
              (Dedup.acquire env.redis env.claims (commit_of payload).repo (commit_of payload).sha))
            _ t
            (Ends-weaken (acquire-Run (commit_of payload) id left t (rw same h))
              (λ a e. (e.0, e.1 ∙ ap (λ t. t.db) same)) (λ x e. e ∙ ap (λ t. t.db) same))
            λ claim t₂ (lost, same₂). rw lost (returns (skip_outcome-str id, same₂))

  -- A run finished, and d seconds later a run is asked for on the same commit, where d and the time
  -- that the steps of the first run took are together less than the TTL. It changes no row of the
  -- database, and unless Redis raises it answers that the commit is a duplicate, with the id of the
  -- first run's workflow.
  pub run_commit_pipeline-run_commit_pipeline :
      (payload again : Fields) (id approval_id d : ℕ) (eng : EngineeringSummary) (post : String)
      (w w' w₂ : World R)
      → run_commit_pipeline env payload w ≡ (ok (finished id approval_id eng post), w')
      → (commit_of again).repo ≡ (commit_of payload).repo
      → (commit_of again).sha ≡ (commit_of payload).sha
      → env.lasts id + d < env.claims.ttl
      → w₂.redis ≡ env.redis.elapse d w'.redis
      → Run
          (λ r t. (r ≡ skipped (some id) "duplicate_sha") × (t.db ≡ w₂.db))
          (λ e t. t.db ≡ w₂.db)
          (run_commit_pipeline env again)
          w₂
  run_commit_pipeline-run_commit_pipeline payload again id approval_id d eng post w w' w₂ e repo sha
        lt later =
      let held =
        Claimed-later env (commit_of payload) id d w'.redis lt
          (finished-Claimed env payload id approval_id eng post w w' e (omega (arith, lt))) in
      claimed-Run again id (env.claims.ttl - env.lasts id - d) w₂ (rw (repo, sha, later) held)
