-- ===== src/Logging/Lines.antt =====
-- What a line of the log tells of the workflow and the job.
use wiseorder.Prelude.{ℕ, String, ◌≡◌, refl, false, Option, none, some, List, [], ◌∷◌}
use wiseorder.Runtime.{World}
use wiseorder.Logging.{
  LogRecord, Target, stdout, file, Logging, filter, set_job, set_workflow, configure_logging,
  bind_workflow, bind_job, lines,
}

-- The record with the ids that are bound.
abbrev pub stamped : Option ℕ → Option String → LogRecord → LogRecord
stamped wf jid r = record r { workflow_id = wf; job_id = jid }

abbrev pub Unstamped : LogRecord → Type 0
Unstamped r = (r.workflow_id ≡ none) × (r.job_id ≡ none)

abbrev pub both : String → LogRecord → List (Target × LogRecord)
both dir r = (stdout, r) ∷ (file dir "wiseorder.jsonl", r) ∷ []

-- Once the logging is configured, whatever handlers the root logger had before, a record is written to
-- the standard output and to the file, both times with the workflow and the job that were bound
-- last and no others; and to configure it again changes nothing.
pub lines-configured :
    {R : Type 0} (level dir level' dir' : String) (l : Logging) (w : World R) (wf : Option ℕ)
    (jid : Option String) (r : LogRecord)
    → l.configured ≡ false
    → Unstamped r
    → (lines (bind_job jid (bind_workflow wf w).1).1 (configure_logging level dir l).handlers r
        ≡ both dir (stamped wf jid r))
      × (configure_logging level' dir' (configure_logging level dir l)
          ≡ configure_logging level dir l)
unfolding lines configure_logging bind_workflow bind_job filter
lines-configured level dir level' dir' l w wf jid r fresh (p, q) = rw fresh (by_ids wf jid, refl)
  where
    by_ids :
        (wf' : Option ℕ) (jid' : Option String)
        → ((stdout, set_job jid' (set_workflow wf' r))
            ∷ (
              file dir "wiseorder.jsonl",
              set_job jid' (set_workflow wf' (set_job jid' (set_workflow wf' r))),
            )
            ∷ [])
          ≡ both dir (stamped wf' jid' r)
    by_ids none none = λ i. both dir (record r { workflow_id = p i; job_id = q i })
    by_ids none (some j) = λ i. both dir (record r { workflow_id = p i; job_id = some j })
    by_ids (some n) none = λ i. both dir (record r { workflow_id = some n; job_id = q i })
    by_ids (some n) (some j) = refl
