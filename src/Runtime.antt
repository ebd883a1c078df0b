-- ===== src/Runtime.antt =====
-- The state of the runtime, and what it takes from outside: the parameters of the workflows.
-- `calls` counts the calls of the outside made so far. The outside is asked by that number, so that
-- it may answer differently each time.
pub mod Keeps
pub mod Commands
pub mod Apart
use wiseorder.Prelude.{ℕ, ◌+◌, String, ◌≡◌, Bool, true, false, Option, none, some, List, map}
use wiseorder.Prelude.Text.{concat}
use wiseorder.Values.{Fields}
use wiseorder.Exec.{Result, ok, err, Exn, raised, no_result, Exec, pure, raise, ◌>>=◌}
use wiseorder.Redis.{Redis}
use wiseorder.Job.{Json}
use wiseorder.Dedup.{ClaimConfig}
use wiseorder.Db.{Db, LogEntry, has_id}
use wiseorder.Llm.{LlmConfig}

-- The runtime's state. R is the state of the Redis server.
pub record World (R : Type 0) : Type 0 where
  pub db : Db
  pub redis : R
  pub calls : ℕ
  -- the lines of logs/approvals.jsonl and logs/daily_summary.jsonl
  pub approvals_log : List Fields
  pub summaries_log : List Fields
  -- the context variables of configs/logging.py
  pub current_workflow_id : Option ℕ
  pub current_job_id : Option String

-- Postgres: whether it refuses the transaction with this number, and the id that a sequence gives,
-- which no row of the table has.
pub record Postgres : Type 0 where
  pub refuses : ℕ → Option Exn
  pub serial : ℕ → List ℕ → ℕ
  pub serial_fresh : (n : ℕ) (used : List ℕ) → has_id (serial n used) used ≡ false

-- ApprovalGateway's settings, and the two places that it delivers to: whether appending to a file
-- raises, and the status that a POST to a URL returns or what it raises.
pub record Delivery : Type 0 where
  pub discord_url : String
  pub telegram_token : String
  pub telegram_chat_id : String
  pub append_fails : ℕ → Option Exn
  pub post : ℕ → String → Fields → Result ℕ

pub record Env (R : Type 0) : Type 0 where
  pub redis : Redis R
  pub json : Json
  pub claims : ClaimConfig
  pub postgres : Postgres
  pub llm : LlmConfig
  pub delivery : Delivery
  -- datetime.now(timezone.utc) in seconds, and isoformat() of it
  pub clock : ℕ → ℕ
  pub iso : ℕ → String
  -- the seconds that the steps of the workflow with this id take
  pub lasts : ℕ → ℕ
  -- whether the upsert into the vector store raises
  pub upsert_fails : ℕ → Option Exn

module _ {R : Type 0} where
  abbrev pub tick : World R → World R
  tick w = record w { calls = w.calls + 1 }

  -- A command of the Redis server.
  unfoldable pub on_redis : {A : Type 0} → Exec R A → Exec (World R) A
  on_redis m w = let (r, redis') = m w.redis in (r, record (tick w) { redis = redis' })

-- The exception of `scalar_one()` where there is no row.
abbrev pub no_row : Exn
no_row = raised no_result "No row was found when one was required"

-- scalar_one()
abbrev pub scalar_one : {A : Type 0} → Option A → Exec Db A
scalar_one none = raise no_row
scalar_one (some a) = pure a

module _ {R A : Type 0} where
  -- The end of a session: what the body did to the rows is committed, or nothing is.
  abbrev pub settle : Option Exn → Result A × Db → World R → Result A × World R
  settle (some e) _ w = (err e, w)
  settle none (err e, _) w = (err e, w)
  settle none (ok a, db') w = (ok a, record w { db = db' })

-- `async with session_scope() as session`: the body is given the number of the call.
unfoldable pub session_scope : {R A : Type 0} → Env R → (ℕ → Exec Db A) → Exec (World R) A
session_scope env body w = settle (env.postgres.refuses w.calls) (body w.calls w.db) (tick w)

-- _log_entry(event, data), at this call
abbrev pub log_entry : {R : Type 0} → Env R → ℕ → String → Fields → LogEntry
log_entry env n event details = record {
  ts = env.iso (env.clock n);
  event = event;
  details = details;
}

-- core/memory/db.py, ping(), given what opening a connection and SELECT 1 raise
unfoldable pub db_ping : {R : Type 0} → (ℕ → Option Exn) → Exec (World R) Bool
db_ping connect_fails w = elim (connect_fails w.calls) [
  | none ↦ (ok true, tick w)
  | some e ↦ (ok false, tick w)
]
