-- ===== src/Dedup.antt =====
-- core/queues/dedup.py: the Redis claim on a (repo, sha) pair. SHA-256 and the TTL of the settings
-- are parameters.
pub mod Claims
pub mod Race
use wiseorder.Prelude.{ℕ, String, Bool, true, false, Option, none, some, [], ◌∷◌}
use wiseorder.Prelude.Text.{concat}
use wiseorder.Prelude.Decimal.{str}
use wiseorder.Exec.{Exec, pure, ◌>>=◌}
use wiseorder.Redis.{Redis}

pub record ClaimResult : Type 0 where
  pub acquired : Bool
  pub existing_value : Option String

abbrev pub pending_mark : String
pending_mark = "PENDING"

-- What the claims are made with: `hashlib.sha256(..).hexdigest()` of the UTF-8 of a text, and the
-- setting dedup_ttl_seconds.
pub record ClaimConfig : Type 0 where
  pub sha256_hex : String → String
  pub ttl : ℕ

-- _key(repo, sha)
unfoldable pub key : ClaimConfig → String → String → String
key config repo sha = concat (
    "wiseorder:dedup:commit_pipeline"
    ∷ ":"
    ∷ config.sha256_hex (concat (repo ∷ "\0" ∷ sha ∷ []))
    ∷ [])

module _ {S : Type 0} (redis : Redis S) (config : ClaimConfig) (repo sha : String) where
  -- What `acquire` answers, given whether SET NX was done.
  unfoldable pub conclude : Bool → Exec S ClaimResult
  conclude true = pure (record { acquired = true; existing_value = none })
  conclude false = do
    existing ← redis.get (key config repo sha)
    pure (record { acquired = false; existing_value = existing })

  unfoldable pub acquire : Exec S ClaimResult
  unfolding conclude
  acquire = do won ← redis.set_nx (key config repo sha) pending_mark config.ttl; conclude won

  unfoldable pub attach_workflow_id : ℕ → Exec S (Unit {0})
  attach_workflow_id workflow_id = redis.set_ex (key config repo sha) (str workflow_id) config.ttl

  unfoldable pub release : Exec S (Unit {0})
  release = redis.delete (key config repo sha)

  unfoldable pub peek : Exec S (Option String)
  peek = redis.get (key config repo sha)
