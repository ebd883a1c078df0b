-- ===== src/Api/Ready.antt =====
-- What /ready answers.
use wiseorder.Prelude.{
  ℕ, ◌≡◌, refl, ap, ◌↔◌, inl, inr, Bool, true, false, ◌&&◌, Option, none, some, if◌then◌else◌,
  Option-cases,
}
use wiseorder.Exec.{Result, ok, err, Exn, handle, ok_inj, pure}
use wiseorder.Values.{Fields, field, end, flag}
use wiseorder.Queue
use wiseorder.Runtime.{World, Env, tick, on_redis, db_ping}
use wiseorder.Api.{ApiConfig}
use wiseorder.Api.Status.{ready}

-- Whether a ping returned true.
answered : Result Bool → Bool
answered (ok b) = b
answered (err e) = false

-- Whether no exception was raised.
opened : Option Exn → Bool
opened none = true
opened (some e) = false

opened-true : (o : Option Exn) → (opened o ≡ true) ↔ (o ≡ none)
unfolding opened
opened-true none = (λ e. refl, λ e. refl)
opened-true (some x) = (λ e. cc, λ e. cc)

answered-true : (r : Result Bool) → (answered r ≡ true) ↔ (r ≡ ok true)
unfolding answered
answered-true (ok b) = (λ e. ap ok e, λ e. ok_inj e)
answered-true (err x) = (λ e. cc, λ e. cc)

abbrev pub answer_of : Bool → Bool → ℕ × Fields
answer_of db redis =
    (if db && redis then 200 else 503, field "database" (flag db) (field "redis" (flag redis) end))

module _ {R : Type 0} (env : Env R) (config : ApiConfig) where
  db_ping-opened :
      (w : World R)
      → db_ping config.connect_fails w ≡ (ok (opened (config.connect_fails w.calls)), tick w)
  unfolding db_ping opened
  db_ping-opened w = elim (Option-cases (config.connect_fails w.calls)) [
    | inl p ↦ rw (p, db_ping, opened)
    | inr (e, p) ↦ rw (p, db_ping, opened)
  ]

  ping-answered :
      (w : World R)
      → (on_redis (Queue.ping env.redis env.json) w).0 ≡ ok (answered (env.redis.ping w.redis).0)
  unfolding answered on_redis Queue.ping
  ping-answered w = by_answer (env.redis.ping w.redis).0
    where
      by_answer :
          (r : Result Bool)
          → (handle r (λ _. pure false) (env.redis.ping w.redis).1).0 ≡ ok (answered r)
      by_answer (ok b) = refl
      by_answer (err e) = refl

  -- In every state the request answers, with 200 just where a connection to the database opens and
  -- Redis answers the ping with true, and with 503 elsewhere; the body tells the two apart, and no row
  -- changes.
  pub ready-lem :
      (w : World R)
      → (db redis : Bool) × ((db ≡ true) ↔ (config.connect_fails w.calls ≡ none))
        × ((redis ≡ true) ↔ ((env.redis.ping w.redis).0 ≡ ok true))
        × ((ready env config w).0 ≡ ok (answer_of db redis))
        × ((ready env config w).1.db ≡ w.db)
  unfolding ready on_redis
  ready-lem w =
      let db = opened (config.connect_fails w.calls) in
      let redis = answered (env.redis.ping w.redis).0 in
      (
        db,
        redis,
        opened-true (config.connect_fails w.calls),
        answered-true (env.redis.ping w.redis).0,
        rw (ready, db_ping-opened w, ping-answered (tick w)),
        rw (ready, db_ping-opened w, ping-answered (tick w)),
      )
