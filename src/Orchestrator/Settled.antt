-- ===== src/Orchestrator/Settled.antt =====
-- The end of a commit's run speaks of the rows alone: what is set beside them changes nothing.
use wiseorder.Prelude.{ℕ, ◌≡◌, subst, List, false}
use wiseorder.Db.{Workflow, Task, Status, ids, has_id, completed, failed}
use wiseorder.Steps.Rows.{Labels, Row, Ran}
use wiseorder.Steps.Effects.{Idle}
use wiseorder.Runtime.{World}
use wiseorder.Pipeline.Records.{task_chain}
use wiseorder.Pipeline.Outcome.{Completed, Stopped, all_completed, stopped_at}
use wiseorder.Pipeline.Whole.{Ended}

module _ {R : Type 0} where
  module _ (wf : ℕ) (before : List Workflow) (base : List Task) (t t' : World R)
      (same : t.db ≡ t'.db) where
    Idle-db :
        (st : Status) (done : Labels)
        → Idle wf before base st done t
        → Idle wf before base st done t'
    Idle-db st done h = record {
      row = subst (λ db. Row wf before st db.workflows) same h.row;
      ran = subst (λ db. Ran base done db.tasks) same h.ran;
    }

    Completed-db : Completed wf before base t → Completed wf before base t'
    unfolding Completed
    Completed-db h = Idle-db completed (all_completed wf task_chain) h

    Stopped-db : Stopped wf before base t → Stopped wf before base t'
    Stopped-db h = record {
      step = h.step;
      in_chain = h.in_chain;
      idle = Idle-db failed (stopped_at wf h.step task_chain) h.idle;
    }

  -- From the same rows, to the same rows.
  Ended-start :
      {Q : ℕ → List Workflow → List Task → World R → Type 0} (w w' t : World R)
      → w.db ≡ w'.db
      → Ended Q w t
      → Ended Q w' t
  Ended-start {Q = Q} w w' t same h = record {
    workflow_id = h.workflow_id;
    fresh =
        subst (λ db. has_id h.workflow_id (ids (λ (x : Workflow). x.id) db.workflows) ≡ false) same
          h.fresh;
    ended = subst (λ db. Q h.workflow_id db.workflows db.tasks t) same h.ended;
  }

  pub Ended-rows-Completed :
      (w w' t t' : World R)
      → w.db ≡ w'.db
      → t.db ≡ t'.db
      → Ended Completed w t
      → Ended Completed w' t'
  Ended-rows-Completed w w' t t' from to h = Ended-start w w' t' from (record {
    workflow_id = h.workflow_id;
    fresh = h.fresh;
    ended = Completed-db h.workflow_id w.db.workflows w.db.tasks t t' to h.ended;
  })

  pub Ended-rows-Stopped :
      (w w' t t' : World R) → w.db ≡ w'.db → t.db ≡ t'.db → Ended Stopped w t → Ended Stopped w' t'
  Ended-rows-Stopped w w' t t' from to h = Ended-start w w' t' from (record {
    workflow_id = h.workflow_id;
    fresh = h.fresh;
    ended = Stopped-db h.workflow_id w.db.workflows w.db.tasks t t' to h.ended;
  })
