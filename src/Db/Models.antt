-- ===== src/Db/Models.antt =====
-- core/memory/models.py: the rows. A time is a number of seconds; a column that the program fills
-- with one of a few texts (`status`, `decision`) is a data type or the text itself, as it is used.
use wiseorder.Prelude.{ℕ, String, Option, List}
use wiseorder.Values.{Fields}

-- The values of the column `status` of tasks and workflows ("pending" is the default).
pub data Status : Type 0 where
  pending running completed failed interrupted : Status

pub record Task : Type 0 where
  pub id : ℕ
  pub type : String
  pub status : Status
  pub payload : Fields
  pub result : Option Fields
  pub error : Option String
  pub workflow_id : Option ℕ
  pub created_at : ℕ
  pub started_at : Option ℕ
  pub completed_at : Option ℕ

-- An entry of a workflow's `logs`.
pub record LogEntry : Type 0 where
  pub ts : String
  pub event : String
  pub details : Fields

pub record Workflow : Type 0 where
  pub id : ℕ
  pub workflow_name : String
  pub task_chain : List String
  pub status : Status
  pub logs : List LogEntry
  pub created_at : ℕ
  pub completed_at : Option ℕ

pub record Memory : Type 0 where
  pub id : ℕ
  pub category : String
  pub content : String
  pub embedding_id : Option String
  pub meta : Fields
  pub created_at : ℕ

pub record Approval : Type 0 where
  pub id : ℕ
  pub workflow_id : Option ℕ
  pub task_id : Option ℕ
  pub summary : String
  pub outputs : Fields
  pub affected : List String
  pub risk_level : String
  pub decision : Option String
  pub delivered_via : Option String
  pub created_at : ℕ
  pub decided_at : Option ℕ

-- The committed rows.
pub record Db : Type 0 where
  pub tasks : List Task
  pub workflows : List Workflow
  pub memory : List Memory
  pub approvals : List Approval
