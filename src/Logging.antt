-- ===== src/Logging.antt =====
-- configs/logging.py. The lines of the log are those that the handlers of the root logger write; the
-- formatter, which prints the fields as JSON, is that of pythonjsonlogger and not modelled.
pub mod Lines
use wiseorder.Prelude.{
  ℕ, String, Bool, true, false, Option, none, some, List, [], ◌∷◌, ◌++◌, map, if◌then◌else◌,
}
use wiseorder.Runtime.{World}

-- A LogRecord: what was logged, and the two attributes that the filter may set.
pub record LogRecord : Type 0 where
  pub name : String
  pub levelname : String
  pub message : String
  pub workflow_id : Option ℕ
  pub job_id : Option String

-- Where a handler writes, and whether it has the CorrelationFilter.
pub data Target : Type 0 where
  stdout : Target
  file : (log_dir name : String) → Target
  elsewhere : (name : String) → Target

pub record LogHandler : Type 0 where
  pub target : Target
  pub correlates : Bool

-- `_configured` and the root logger.
pub record Logging : Type 0 where
  pub configured : Bool
  pub level : String
  pub handlers : List LogHandler

abbrev pub set_workflow : Option ℕ → LogRecord → LogRecord
set_workflow none r = r
set_workflow (some wf) r = record r { workflow_id = some wf }

abbrev pub set_job : Option String → LogRecord → LogRecord
set_job none r = r
set_job (some jid) r = record r { job_id = some jid }

-- CorrelationFilter.filter(record), which lets every record pass
unfoldable pub filter : {R : Type 0} → World R → LogRecord → LogRecord × Bool
filter w r = (set_job w.current_job_id (set_workflow w.current_workflow_id r), true)

-- configure_logging(), given the settings log_level and log_dir
unfoldable pub configure_logging : String → String → Logging → Logging
configure_logging log_level log_dir l = if l.configured then l else record {
  configured = true;
  level = log_level;
  handlers =
      record { target = stdout; correlates = true }
      ∷ record { target = file log_dir "wiseorder.jsonl"; correlates = true }
      ∷ [];
}

-- bind_workflow(workflow_id), bind_job(job_id): the state after, and the token, which is the value before.
unfoldable pub bind_workflow : {R : Type 0} → Option ℕ → World R → Option ℕ × World R
bind_workflow workflow_id w =
    (w.current_workflow_id, record w { current_workflow_id = workflow_id })

unfoldable pub bind_job : {R : Type 0} → Option String → World R → Option String × World R
bind_job job_id w = (w.current_job_id, record w { current_job_id = job_id })

-- What the handlers of the root logger write of a record that its level lets pass. They are given the
-- same object, one after the other.
unfoldable pub lines :
    {R : Type 0} → World R → List LogHandler → LogRecord → List (Target × LogRecord)
unfolding filter
lines w [] r = []
lines w (h ∷ hs) r =
    let r' = if h.correlates then (filter w r).0 else r in (h.target, r') ∷ lines w hs r'
