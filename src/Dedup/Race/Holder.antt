-- ===== src/Dedup/Race/Holder.antt =====
-- At most one of the runs on a commit has its claim.
use wiseorder.Prelude.{
  ℕ, ◌+◌, ◌-◌, ◌≤◌, ◌<◌, String, ◌≡◌, sym, ap, ◌∙◌, subst, inl, inr, Bool, true, false, ◌==◌,
  ==_iff, Bool-cases, arith,
}
use wiseorder.Prelude.Decimal.{str}
use wiseorder.Exec.{ok, ok-injective, >>=-eq-ok, pure}
use wiseorder.Redis.{Redis, written}
use wiseorder.Dedup.{ClaimResult, ClaimConfig, pending_mark, key, conclude}
use wiseorder.Dedup.Claims.{Claimed, slot_written, Claimed-elapse, attach_workflow_id-Claimed}
use wiseorder.Dedup.Race.{
  Phase, idle, asked, answered, attached, not_asked, not_answered, not_attached, Wins, Race, move,
  claim_slot, Step, Reach, here, next, asks, concludes, attaches, asks_in_vain, concludes_in_vain,
  attaches_in_vain, elsewhere, waits,
}

-- Only this run has the claim.
abbrev Alone : ℕ → (ℕ → Phase) → Type 0
Alone i phases = (j : ℕ) → Wins (phases j) → j ≡ i

abbrev Nobody : (ℕ → Phase) → Type 0
Nobody phases = (j : ℕ) → Wins (phases j) → ⊥

-- A run moves to a phase in which it has not won.
move-Nobody :
    (phases : ℕ → Phase) (i : ℕ) (p : Phase)
    → (Wins p → ⊥)
    → Nobody phases
    → Nobody (move phases i p)
move-Nobody phases i p lost h j w = elim (Bool-cases (i == j)) [
  | inl e ↦ lost (rw e at w)
  | inr e ↦ h j (rw e at w)
]

-- A run moves, and has the claim if the phase before or after did.
move-Alone :
    (phases : ℕ → Phase) (k i : ℕ) (p : Phase)
    → (Wins p → Wins (phases i))
    → Alone k phases
    → Alone k (move phases i p)
move-Alone phases k i p back h j w = elim (Bool-cases (i == j)) [
  | inl e ↦ subst (λ n. n ≡ k) ((==_iff i j).0 e) (h i (back (rw e at w)))
  | inr e ↦ h j (rw e at w)
]

move-won : (phases : ℕ → Phase) (i : ℕ) (p : Phase) → Nobody phases → Alone i (move phases i p)
move-won phases i p h j w = elim (Bool-cases (i == j)) [
  | inl e ↦ sym ((==_iff i j).0 e)
  | inr e ↦ absurd (h j (rw e at w))
]

module _ {S : Type 0} (redis : Redis S) (config : ClaimConfig) (repo sha : String) where
  -- Nobody has the claim, or one run alone, whose claim stands for what is left of its TTL at least.
  data Held (r : Race S) : Type 0 where
    nobody : Nobody r.phases → Held r
    by :
        (i left : ℕ) (value : String)
        → Claimed redis config repo sha r.server value left
        → config.ttl ≤ left + r.spent
        → Alone i r.phases
        → Held r

  -- SET NX on a key that is held.
  asks_held :
      (s s' : S) (won : Bool) (value : String) (left : ℕ)
      → Claimed redis config repo sha s value left
      → redis.set_nx (key config repo sha) pending_mark config.ttl s ≡ (ok won, s')
      → (won ≡ false) × Claimed redis config repo sha s' value left
  asks_held s s' won value left h e =
      let (p, q) = redis.set_nx_ok (key config repo sha) pending_mark config.ttl s s' e in
      (p ∙ rw h, rw (q, h) h)

  asks_won :
      (s s' : S)
      → redis.set_nx (key config repo sha) pending_mark config.ttl s ≡ (ok true, s')
      → Claimed redis config repo sha s' pending_mark config.ttl
  asks_won s s' e =
      let (p, q) = redis.set_nx_ok (key config repo sha) pending_mark config.ttl s s' e in
      let q' = rw (← p) at q in
      rw q' (slot_written redis config repo sha pending_mark config.ttl (redis.view s))

  -- What `acquire` answers is what SET NX has answered, and the key is as it was.
  conclude_lem :
      (s s' : S) (won : Bool) (claim : ClaimResult)
      → conclude redis config repo sha won s ≡ (ok claim, s')
      → (claim.acquired ≡ won)
        × (claim_slot redis config repo sha s' ≡ claim_slot redis config repo sha s)
  unfolding conclude
  conclude_lem s s' true claim e =
      let (ec, es) = ok-injective e in
      (
        ap (λ (c : ClaimResult). c.acquired) (sym ec),
        ap (claim_slot redis config repo sha) (sym es),
      )
  conclude_lem s s' false claim e =
      let (x, u, p, d) =
        >>=-eq-ok (redis.get (key config repo sha))
          (λ existing. pure (record { acquired = false; existing_value = existing })) s e in
      let (ec, es) = ok-injective d in
      (
        ap (λ (c : ClaimResult). c.acquired) (sym ec),
        ap (claim_slot redis config repo sha) (sym es)
            ∙ ap (λ v. v.slots (key config repo sha)) (redis.get_ok (key config repo sha) s u p).1,
      )

  asked-Held :
      (r : Race S) (i : ℕ) (won : Bool) (s' : S)
      → r.phases i ≡ idle
      → redis.set_nx (key config repo sha) pending_mark config.ttl r.server ≡ (ok won, s')
      → Held r
      → Held (record r { server = s'; phases = move r.phases i (asked won) })
  asked-Held r i true s' was e (nobody h) =
      by i config.ttl pending_mark (asks_won r.server s' e) (omega arith)
        (move-won r.phases i (asked true) h)
  asked-Held r i false s' was e (nobody h) =
      nobody (move-Nobody r.phases i (asked false) (λ p. cc) h)
  asked-Held r i won s' was e (by k left value h t alone) =
      let (lost, h') = asks_held r.server s' won value left h e in
      by k left value h' t (move-Alone r.phases k i (asked won) (λ p. cc) alone)

  Step-Held :
      {r t : Race S} → Step redis config repo sha r t → t.spent < config.ttl → Held r → Held t
  Step-Held {r} (asks i won s' was e) lt held = asked-Held r i won s' was e held
  Step-Held {r} (concludes i won claim s' was e) lt (nobody h) = nobody (
      move-Nobody r.phases i (answered claim)
        (λ p. h i (rw was ((sym (conclude_lem r.server s' won claim e).0) ∙ p))) h)
  Step-Held {r} (concludes i won claim s' was e) lt (by k left value h t alone) =
      let (same_won, same) = conclude_lem r.server s' won claim e in
      by k left value (same ∙ h) t
        (move-Alone r.phases k i (answered claim) (λ p. rw was (sym same_won ∙ p)) alone)
  Step-Held {r} (attaches i n claim s' was won e) lt (nobody h) = absurd (h i (rw was won))
  Step-Held {r} (attaches i n claim s' was won e) lt (by k left value h t alone) =
      by k config.ttl (str n) (attach_workflow_id-Claimed redis config repo sha n r.server s' e)
        (omega arith) (move-Alone r.phases k i (attached n) (λ p. rw was won) alone)
  Step-Held {r} (asks_in_vain i s' was made) lt (nobody h) =
      nobody (move-Nobody r.phases i not_asked (λ p. p) h)
  Step-Held {r} (asks_in_vain i s' was (inl same)) lt (by k left value h t alone) =
      by k left value (same ∙ h) t (move-Alone r.phases k i not_asked (λ p. absurd p) alone)
  Step-Held {r} (asks_in_vain i s' was (inr free)) lt (by k left value h t alone) = cc
  Step-Held {r} (concludes_in_vain i s' was same) lt (nobody h) =
      nobody (move-Nobody r.phases i not_answered (λ p. p) h)
  Step-Held {r} (concludes_in_vain i s' was same) lt (by k left value h t alone) =
      by k left value (same ∙ h) t (move-Alone r.phases k i not_answered (λ p. absurd p) alone)
  Step-Held {r} (attaches_in_vain i n claim s' was won made) lt (nobody h) =
      absurd (h i (rw was won))
  Step-Held {r} (attaches_in_vain i n claim s' was won (inl same)) lt (by k left value h t alone) =
      by k left value (same ∙ h) t (move-Alone r.phases k i not_attached (λ p. rw was won) alone)
  Step-Held {r} (attaches_in_vain i n claim s' was won (inr written)) lt
        (by k left value h t alone) =
      by k config.ttl (str n) written (omega arith)
        (move-Alone r.phases k i not_attached (λ p. rw was won) alone)
  Step-Held (elsewhere s' same) lt (nobody h) = nobody h
  Step-Held (elsewhere s' same) lt (by k left value h t alone) = by k left value (same ∙ h) t alone
  Step-Held (waits d) lt (nobody h) = nobody h
  Step-Held {r} (waits d) lt (by k left value h t alone) =
      by k (left - d) value
        (Claimed-elapse redis config repo sha d r.server value left (omega arith) h) (omega arith)
        alone

  spent_mono : {r t : Race S} → Step redis config repo sha r t → r.spent ≤ t.spent
  spent_mono (waits d) = omega arith
  spent_mono (asks i won s' was e) = omega arith
  spent_mono (concludes i won claim s' was e) = omega arith
  spent_mono (attaches i n claim s' was won e) = omega arith
  spent_mono (asks_in_vain i s' was made) = omega arith
  spent_mono (concludes_in_vain i s' was same) = omega arith
  spent_mono (attaches_in_vain i n claim s' was won made) = omega arith
  spent_mono (elsewhere s' same) = omega arith

  Reach-Held :
      {r t : Race S} → Reach redis config repo sha r t → t.spent < config.ttl → Held r → Held t
  Reach-Held here lt h = h
  Reach-Held (next reach step) lt h =
      Step-Held step lt (Reach-Held reach (omega (arith, spent_mono step)) h)

  -- Of the runs on a commit that start together, in whatever order their commands and those of others
  -- reach Redis and whichever of them raise, at most one has won the claim as long as less time than
  -- the TTL has passed.
  pub Reach-one_winner :
      (start r : Race S) (i j : ℕ)
      → ((k : ℕ) → start.phases k ≡ idle)
      → Reach redis config repo sha start r
      → r.spent < config.ttl
      → Wins (r.phases i)
      → Wins (r.phases j)
      → i ≡ j
  Reach-one_winner start r i j fresh reach lt wi wj =
      by_holder (Reach-Held reach lt (nobody (λ k w. rw (fresh k) at w)))
    where
      by_holder : Held r → i ≡ j
      by_holder (nobody h) = absurd (h i wi)
      by_holder (by k left value h t alone) = alone i wi ∙ sym (alone j wj)
