-- ===== src/Orchestrator/Startup.antt =====
-- core/orchestrator/main.py: the start of the orchestrator and the probe of its services. The
-- migrations and what the event watcher's start raises are parameters.
use wiseorder.Prelude.{
  ℕ, String, Bool, true, false, ◌&&◌, ◌≡◌, refl, sym, ◌∙◌, Option, none, some, Option-cases, inl,
  inr, List, [], ◌∷◌, ◌++◌, zero, suc, if◌then◌else◌, ◌↔◌,
}
use wiseorder.Prelude.Text.{concat}
use wiseorder.Prelude.Decimal.{str}
use wiseorder.Exec.{
  Result, ok, err, Exn, raised, runtime_error, Exec, pure, raise, handle, ◌>>=◌, ◌>>◌,
}
use wiseorder.Exec.Ends.{Ends, returns, raises, Run, >>=-Run, Ends-weaken}
use wiseorder.Queue
use wiseorder.Runtime.{World, Env, tick, on_redis, db_ping}
use wiseorder.Orchestrator.{reap_orphan_workflows}
use wiseorder.Orchestrator.Orphans.{Reaped, reap_orphan_workflows-Run}

pub record StartConfig : Type 0 where
  pub num_workers : ℕ
  pub database_url : String
  pub redis_url : String
  pub orphan_workflow_max_age_seconds : ℕ
  pub connect_fails : ℕ → Option Exn
  -- command.upgrade(cfg, "head")
  pub migrate_fails : ℕ → Option Exn
  pub watcher_fails : ℕ → Option Exn

-- The tasks that `start` has created, by their names.
abbrev worker_names : ℕ → List String
worker_names zero = []
worker_names (suc n) = worker_names n ++ concat ("worker-" ∷ str n ∷ []) ∷ []

abbrev pub background : List String
background = "integrity-watcher" ∷ "ci-watcher" ∷ "daily-summary-scheduler" ∷ "api-server" ∷ []

module _ {R : Type 0} where
  -- A call of the outside that returns nothing or raises.
  abbrev attempt : (ℕ → Option Exn) → Exec (World R) (Unit {0})
  attempt fails w = elim (fails w.calls) [ none ↦ (ok tt, tick w) | some e ↦ (err e, tick w) ]

  abbrev require : Bool → String → Exec (World R) (Unit {0})
  require true message = pure tt
  require false message = raise (raised runtime_error message)

module _ {R : Type 0} (env : Env R) (config : StartConfig) where
  -- Up to the reaper.
  unfoldable pub prepare : Exec (World R) ℕ
  unfolding db_ping
  prepare = do
    reachable ← db_ping config.connect_fails
    require reachable (concat ("cannot connect to database: " ∷ config.database_url ∷ []))
    attempt config.migrate_fails
    answers ← on_redis (Queue.ping env.redis env.json)
    require answers (concat ("cannot connect to redis: " ∷ config.redis_url ∷ []))
    reap_orphan_workflows env config.orphan_workflow_max_age_seconds

  unfoldable pub start : Exec (World R) (List String)
  unfolding prepare
  start = do
    prepare
    attempt config.watcher_fails
    pure (worker_names config.num_workers ++ background)

  -- _probe(num_workers), which returns the exit code
  unfoldable pub probe : Exec (World R) ℕ
  unfolding db_ping
  probe = do
    ok_db ← db_ping config.connect_fails
    ok_redis ← on_redis (Queue.ping env.redis env.json)
    pure (if ok_db && ok_redis then 0 else 2)

module _ {R : Type 0} where
  -- The rows are those of the state w.
  abbrev pub SameRows : World R → World R → Type 0
  SameRows w t = t.db ≡ w.db

  require-Run :
      {P : World R → Type 0} (b : Bool) (message : String) (w : World R)
      → P w
      → Run (λ _ t. (b ≡ true) × P t) (λ _. P) (require b message) w
  require-Run true message w p = returns (refl, p)
  require-Run false message w p = raises p

  attempt-Run :
      (fails : ℕ → Option Exn) (w v : World R)
      → SameRows w v
      → Run (λ _. SameRows w) (λ _. SameRows w) (attempt fails) v
  attempt-Run fails w v p = elim (Option-cases (fails v.calls)) [
    | inl q ↦ rw (q, attempt) (returns p)
    | inr (e, q) ↦ rw (q, attempt) (raises p)
  ]

  db_ping-Run :
      {E : Exn → World R → Type 0} (fails : ℕ → Option Exn) (w : World R)
      → Run (λ b t. SameRows w t × ((b ≡ true) ↔ (fails w.calls ≡ none))) E (db_ping fails) w
  unfolding db_ping
  db_ping-Run fails w = elim (Option-cases (fails w.calls)) [
    | inl p ↦ rw (p, db_ping) (returns (refl, (λ q. refl, λ q. refl)))
    | inr (e, p) ↦ rw (p, db_ping) (returns (refl, (λ q. cc, λ q. none_some e (sym q))))
  ]
    where
      none_some : (e : Exn) → ◌≡◌ {A = Option Exn} none (some e) → false ≡ true
      none_some e q = cc

module _ {R : Type 0} (env : Env R) (config : StartConfig) where
  ping-Run :
      {E : Exn → World R → Type 0} (w v : World R)
      → SameRows w v
      → Run (λ _. SameRows w) E (on_redis (Queue.ping env.redis env.json)) v
  unfolding on_redis Queue.ping
  ping-Run {E = E} w v p = answered (env.redis.ping v.redis).0
    where
      answered :
          (r : Result Bool)
          → Ends
              (λ _. SameRows w)
              E
              (record (tick v) {
                redis = (handle r (λ _. pure false) (env.redis.ping v.redis).1).1;
              })
              (handle r (λ _. pure false) (env.redis.ping v.redis).1).0
      answered (ok b) = returns p
      answered (err e) = returns p

  -- The orphans have been reaped, from the rows of w, and a connection could be opened.
  pub record Prepared (w : World R) (n : ℕ) (t : World R) : Type 0 where
    pub reachable : config.connect_fails w.calls ≡ none
    pub entry : World R
    pub same : SameRows w entry
    pub reaped : Reaped env config.orphan_workflow_max_age_seconds entry n t

  -- The start goes on past the reaper only where a connection to the database could be opened, and then
  -- no orphan is left; where it raises before, no row has changed.
  pub prepare-Run : (w : World R) → Run (Prepared w) (λ e. SameRows w) (prepare env config) w
  unfolding prepare
  prepare-Run w =
      >>=-Run (db_ping config.connect_fails) _ w (db_ping-Run config.connect_fails w)
        λ b t₁ (p₁, reached).
          >>=-Run (require b _) _ t₁ (require-Run {P = SameRows w} b _ t₁ p₁) λ _ t₂ (up, p₂).
            >>=-Run (attempt config.migrate_fails) _ t₂ (attempt-Run config.migrate_fails w t₂ p₂)
              λ _ t₃ p₃.
                >>=-Run (on_redis (Queue.ping env.redis env.json)) _ t₃ (ping-Run w t₃ p₃)
                  λ answers t₄ p₄.
                    >>=-Run (require answers _) _ t₄ (require-Run {P = SameRows w} answers _ t₄ p₄)
                      λ _ t₅ (_, p₅).
                        Ends-weaken
                          (reap_orphan_workflows-Run env config.orphan_workflow_max_age_seconds t₅)
                          (λ n r. record {
                            reachable = reached.0 up;
                            entry = t₅;
                            same = p₅;
                            reaped = r;
                          })
                          (λ e q. q ∙ p₅)
