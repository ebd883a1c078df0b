-- ===== src/Dedup/Race.antt =====
-- core/queues/dedup.py: runs of the pipeline on one commit, whose commands reach Redis in any order. A run
-- sends SET NX, is answered, and then attaches an id where it won; between two commands time passes,
-- and other clients send commands that leave the claim's key alone.
pub mod Holder
use wiseorder.Prelude.{
  ℕ, ◌+◌, String, ◌≡◌, ◌⊎◌, Bool, true, false, Option, none, some, ◌==◌, if◌then◌else◌,
}
use wiseorder.Prelude.Decimal.{str}
use wiseorder.Exec.{Exn, ok, err}
use wiseorder.Redis.{Redis, Slot}
use wiseorder.Dedup.{ClaimResult, ClaimConfig, pending_mark, key, conclude, attach_workflow_id}

-- How far a run is: SET NX was answered, `acquire` returned, the id was attached; and where a command
-- raised instead.
pub data Phase : Type 0 where
  idle : Phase
  asked : (won : Bool) → Phase
  answered : (claim : ClaimResult) → Phase
  attached : (workflow_id : ℕ) → Phase
  not_asked not_answered not_attached : Phase

-- The run has the claim.
abbrev pub Wins : Phase → Type 0
Wins idle = ⊥
Wins (asked won) = won ≡ true
Wins (answered claim) = claim.acquired ≡ true
Wins (attached workflow_id) = Unit {0}
Wins not_asked = ⊥
Wins not_answered = ⊥
Wins not_attached = Unit {0}

-- The server, the phase of each run, and the seconds that have passed since the start.
pub record Race (S : Type 0) : Type 0 where
  pub server : S
  pub phases : ℕ → Phase
  pub spent : ℕ

abbrev pub move : (ℕ → Phase) → ℕ → Phase → ℕ → Phase
move phases i phase j = if i == j then phase else phases j

module _ {S : Type 0} (redis : Redis S) (config : ClaimConfig) (repo sha : String) where
  abbrev pub claim_slot : S → Option Slot
  claim_slot s = (redis.view s).slots (key config repo sha)

  -- A write whose answer was lost was made or was not.
  abbrev pub Made : String → S → S → Type 0
  Made value s s' =
      (claim_slot s' ≡ claim_slot s)
      ⊎ (claim_slot s' ≡ some (record { value = value; ttl = some config.ttl }))

  pub data Step (r : Race S) : Race S → Type 0 where
    asks :
        (i : ℕ) (won : Bool) (s' : S)
        → r.phases i ≡ idle
        → redis.set_nx (key config repo sha) pending_mark config.ttl r.server ≡ (ok won, s')
        → Step r (record r { server = s'; phases = move r.phases i (asked won) })
    concludes :
        (i : ℕ) (won : Bool) (claim : ClaimResult) (s' : S)
        → r.phases i ≡ asked won
        → conclude redis config repo sha won r.server ≡ (ok claim, s')
        → Step r (record r { server = s'; phases = move r.phases i (answered claim) })
    attaches :
        (i workflow_id : ℕ) (claim : ClaimResult) (s' : S)
        → r.phases i ≡ answered claim
        → claim.acquired ≡ true
        → attach_workflow_id redis config repo sha workflow_id r.server ≡ (ok tt, s')
        → Step r (record r { server = s'; phases = move r.phases i (attached workflow_id) })
    -- SET NX raises; where it was made, the key was free.
    asks_in_vain :
        (i : ℕ) (s' : S)
        → r.phases i ≡ idle
        → (claim_slot s' ≡ claim_slot r.server) ⊎ (claim_slot r.server ≡ none)
        → Step r (record r { server = s'; phases = move r.phases i not_asked })
    -- GET raises in a run that has lost.
    concludes_in_vain :
        (i : ℕ) (s' : S)
        → r.phases i ≡ asked false
        → claim_slot s' ≡ claim_slot r.server
        → Step r (record r { server = s'; phases = move r.phases i not_answered })
    -- SET raises.
    attaches_in_vain :
        (i workflow_id : ℕ) (claim : ClaimResult) (s' : S)
        → r.phases i ≡ answered claim
        → claim.acquired ≡ true
        → Made (str workflow_id) r.server s'
        → Step r (record r { server = s'; phases = move r.phases i not_attached })
    -- Some other command.
    elsewhere : (s' : S) → claim_slot s' ≡ claim_slot r.server → Step r (record r { server = s' })
    waits : (d : ℕ) → Step r (record r { server = redis.elapse d r.server; spent = r.spent + d })

  pub data Reach (r : Race S) : Race S → Type 0 where
    here : Reach r r
    next : {t u : Race S} → Reach r t → Step t u → Reach r u
