-- ===== src/Dedup/Claims.antt =====
-- Who holds a claim, and for how long.
use wiseorder.Prelude.{
  ℕ, ◌-◌, ◌<◌, String, ◌≡◌, sym, ap, ◌∙◌, Bool, true, false, Option, none, some, arith,
  if◌then◌else◌,
}
use text.Mathlib.TextPositions.{eq_refl}
use wiseorder.Prelude.Decimal.{str}
use wiseorder.Exec.{ok, pure, ok-injective, >>=-eq-ok}
use wiseorder.Redis.{Redis, View, Slot, written, free, live}
use wiseorder.Dedup.{
  ClaimResult, ClaimConfig, pending_mark, key, conclude, acquire, attach_workflow_id, peek,
}

module _ {S : Type 0} (redis : Redis S) (config : ClaimConfig) (repo sha : String) where
  abbrev pub slot_of : View → Option Slot
  slot_of v = v.slots (key config repo sha)

  -- The slot holds `value` for `left` more seconds.
  abbrev pub Claimed : S → String → ℕ → Type 0
  Claimed s value left =
      (redis.view s).slots (key config repo sha) ≡ some (record { value = value; ttl = some left })

  pub slot_written :
      (x : String) (n : ℕ) (v : View)
      → slot_of (written (key config repo sha) x n v) ≡ some (record { value = x; ttl = some n })
  slot_written x n v = rw (eq_refl (key config repo sha))

  won_slot :
      (b : Bool) (s t s' : S) (c : ClaimResult)
      → conclude redis config repo sha b t ≡ (ok c, s')
      → b ≡ free (key config repo sha) (redis.view s)
      → redis.view t ≡ (
          if free (key config repo sha) (redis.view s)
          then written (key config repo sha) pending_mark config.ttl (redis.view s)
          else redis.view s)
      → c.acquired ≡ true
      → Claimed s' pending_mark config.ttl × (slot_of (redis.view s) ≡ none)
  unfolding conclude
  won_slot true s t s' c e p q won =
      let (ec, es) = ok-injective e in
      let view_t = rw (← p) at q in
      (rw (← es) (rw view_t (slot_written pending_mark config.ttl (redis.view s))), ground arith)
  won_slot false s t s' c e p q won =
      let (x, u, r, d) =
        >>=-eq-ok (redis.get (key config repo sha))
          (λ existing. pure (record { acquired = false; existing_value = existing })) t e in
      let (ec, es) = ok-injective d in cc (ap (λ (x : ClaimResult). x.acquired) ec)

  lost_slot :
      (b : Bool) (s t s' : S) (c : ClaimResult) (value : String) (left : ℕ)
      → Claimed s value left
      → conclude redis config repo sha b t ≡ (ok c, s')
      → b ≡ free (key config repo sha) (redis.view s)
      → redis.view t ≡ (
          if free (key config repo sha) (redis.view s)
          then written (key config repo sha) pending_mark config.ttl (redis.view s)
          else redis.view s)
      → (c ≡ record { acquired = false; existing_value = some value })
        × (redis.view s' ≡ redis.view s)
  unfolding conclude
  lost_slot true s t s' c value left h e p q = ground arith
  lost_slot false s t s' c value left h e p q =
      let (x, u, r, d) =
        >>=-eq-ok (redis.get (key config repo sha))
          (λ existing. pure (record { acquired = false; existing_value = existing })) t e in
      let (ec, es) = ok-injective d in
      let (ex, eu) = redis.get_ok (key config repo sha) t u r in
      let view_t = rw (← p) at q in
      let found =
        ex
        ∙ ap (λ v. live v (key config repo sha)) view_t
        ∙ ap (λ o. elim o [ none ↦ none | some slot ↦ some slot.value ]) h in
      (
        sym ec ∙ ap (λ o. record { acquired = false; existing_value = o }) found,
        ap (λ x. redis.view x) (sym es) ∙ eu ∙ view_t,
      )

  -- A claim is won only where there was none, and then stands for the whole TTL, marked as pending.
  pub acquire_won :
      (s s' : S) (c : ClaimResult)
      → acquire redis config repo sha s ≡ (ok c, s')
      → c.acquired ≡ true
      → Claimed s' pending_mark config.ttl × (slot_of (redis.view s) ≡ none)
  unfolding acquire
  acquire_won s s' c e won =
      let (b, t, p, d) =
        >>=-eq-ok (redis.set_nx (key config repo sha) pending_mark config.ttl)
          (conclude redis config repo sha) s e in
      let (pb, pv) = redis.set_nx_ok (key config repo sha) pending_mark config.ttl s t p in
      won_slot b s t s' c d pb pv won

  -- Where a claim stands, acquire answers with its value and changes nothing.
  pub acquire_lost :
      (s s' : S) (c : ClaimResult) (value : String) (left : ℕ)
      → Claimed s value left
      → acquire redis config repo sha s ≡ (ok c, s')
      → (c ≡ record { acquired = false; existing_value = some value })
        × (redis.view s' ≡ redis.view s)
  unfolding acquire
  acquire_lost s s' c value left h e =
      let (b, t, p, d) =
        >>=-eq-ok (redis.set_nx (key config repo sha) pending_mark config.ttl)
          (conclude redis config repo sha) s e in
      let (pb, pv) = redis.set_nx_ok (key config repo sha) pending_mark config.ttl s t p in
      lost_slot b s t s' c value left h d pb pv

  pub Claimed-elapse :
      (d : ℕ) (s : S) (value : String) (left : ℕ)
      → d < left
      → Claimed s value left
      → Claimed (redis.elapse d s) value (left - d)
  Claimed-elapse d s value left lt h = rw (redis.view-elapse d s) (rw h (ground arith))

  -- After d seconds, fewer than the TTL, a second acquire of the same commit that returns is
  -- refused, and is told that the first is pending.
  pub acquire-acquire :
      (d : ℕ) (s s₁ s₂ : S) (c₁ c₂ : ClaimResult)
      → d < config.ttl
      → acquire redis config repo sha s ≡ (ok c₁, s₁)
      → c₁.acquired ≡ true
      → acquire redis config repo sha (redis.elapse d s₁) ≡ (ok c₂, s₂)
      → c₂ ≡ record { acquired = false; existing_value = some pending_mark }
  acquire-acquire d s s₁ s₂ c₁ c₂ lt e₁ won e₂ =
      let held = (acquire_won s s₁ c₁ e₁ won).0 in
      (acquire_lost (redis.elapse d s₁) s₂ c₂ pending_mark (config.ttl - d)
        (Claimed-elapse d s₁ pending_mark config.ttl lt held) e₂).0

  -- attach_workflow_id writes the id and starts the TTL again.
  pub attach_workflow_id-Claimed :
      (n : ℕ) (s s' : S)
      → attach_workflow_id redis config repo sha n s ≡ (ok tt, s')
      → Claimed s' (str n) config.ttl
  unfolding attach_workflow_id
  attach_workflow_id-Claimed n s s' e =
      rw (redis.set_ex_ok (key config repo sha) (str n) config.ttl s s' e)
        (slot_written (str n) config.ttl (redis.view s))

  -- peek reads the claim.
  pub peek_live :
      (s s' : S) (r : Option String) (value : String) (left : ℕ)
      → Claimed s value left
      → peek redis config repo sha s ≡ (ok r, s')
      → r ≡ some value
  unfolding peek
  peek_live s s' r value left h e =
      (redis.get_ok (key config repo sha) s s' e).0
      ∙ ap (λ o. elim o [ none ↦ none | some slot ↦ some slot.value ]) h

  -- A claim is held with `left` seconds to live, and a workflow's id is attached. The id is still
  -- there e seconds later, for every e below the whole TTL: what was left of the claim's time does not
  -- matter, since attaching starts the TTL again.
  pub attach_workflow_id-extends :
      (n left e : ℕ) (value : String) (s s' t : S) (r : Option String)
      → Claimed s value left
      → e < config.ttl
      → attach_workflow_id redis config repo sha n s ≡ (ok tt, s')
      → peek redis config repo sha (redis.elapse e s') ≡ (ok r, t)
      → r ≡ some (str n)
  attach_workflow_id-extends n left e value s s' t r held lt h₂ h₃ =
      peek_live (redis.elapse e s') t r (str n) (config.ttl - e)
        (Claimed-elapse e s' (str n) config.ttl lt (attach_workflow_id-Claimed n s s' h₂)) h₃
