-- ===== src/Runtime/Commands.antt =====
-- The end of a command that is sent to Redis.
use wiseorder.Prelude.{◌≡◌, subst, sym, inl, inr}
use wiseorder.Exec.{ok, Exn, Exec, Result-cases}
use wiseorder.Runtime.{World, tick, on_redis}
use wiseorder.Exec.Ends.{Ends, returns, raises, Run}

module _ {R : Type 0} where
  pub on_redis-eq-ok :
      {A : Type 0} (m : Exec R A) (w w' : World R) (a : A)
      → on_redis m w ≡ (ok a, w')
      → m w.redis ≡ (ok a, w'.redis)
  unfolding on_redis
  on_redis-eq-ok m w w' a e i = ((e i).0, (e i).1.redis)

  pub on_redis-db :
      {A : Type 0} (m : Exec R A) (w t : World R) {a : A} → on_redis m w ≡ (ok a, t) → w.db ≡ t.db
  unfolding on_redis
  on_redis-db m w t e i = (e i).1.db

  -- A command ends as the server answers; the rows are as before.
  pub on_redis-Run :
      {A : Type 0} {Q : A → World R → Type 0} {E : Exn → World R → Type 0} (m : Exec R A)
      (w : World R)
      → ((a : A) (s : R) → m w.redis ≡ (ok a, s) → Q a (record (tick w) { redis = s }))
      → ((e : Exn) (s : R) → E e (record (tick w) { redis = s }))
      → Run Q E (on_redis m) w
  unfolding on_redis
  on_redis-Run {Q = Q} {E = E} m w q e = elim (Result-cases (m w.redis).0) [
    | inl (x, p) ↦
        subst (Ends Q E (record (tick w) { redis = (m w.redis).1 })) (sym p)
          (raises (e x (m w.redis).1))
    | inr (a, p) ↦
        subst (Ends Q E (record (tick w) { redis = (m w.redis).1 })) (sym p)
          (returns (q a (m w.redis).1 (λ i. (p i, (m w.redis).1))))
  ]
