-- ===== src/Pipeline/Whole.antt =====
-- A whole run on a commit whose claim was won, where Postgres and Redis serve every call.
use wiseorder.Prelude.{ℕ, String, ◌≡◌, refl, sym, false, Option, none, some, List, []}
use wiseorder.Prelude.Decimal.{str}
use wiseorder.Values.{Fields, field, text, end}
use wiseorder.Exec.{Exn, Exec, Result, ok, err}
use wiseorder.Exec.Ends.{Ends, returns, raises, Run, >>=-Run, Ends-weaken, Ends-restate}
use wiseorder.Dedup
use wiseorder.Db.{
  Workflow, Task, ids, has_id, find-last, find-add_row, Status, running, completed, failed, add_row,
}
use wiseorder.Runtime.{World, Env, on_redis}
use wiseorder.Steps.{start_workflow}
use wiseorder.Steps.Rows.{Row, Labels}
use wiseorder.Steps.Effects.{Idle}
use wiseorder.Pipeline.{run_claimed, run_pipeline_steps, with_workflow, lasting}
use wiseorder.Pipeline.Records.{Commit, task_chain}
use wiseorder.Pipeline.Outcome.{
  Completed, Stopped, all_completed, stopped_at, run_pipeline_steps-Run,
}
use mathlib.Core.List.{append-nil}

module _ {R : Type 0} where
  -- The workflow is new, and the row that was added is the only change.
  pub record Started (w : World R) (wf : ℕ) (t : World R) : Type 0 where
    pub fresh : has_id wf (ids (λ (x : Workflow). x.id) w.db.workflows) ≡ false
    pub idle : Idle wf w.db.workflows w.db.tasks running [] t

  -- The row and the tasks that the run began with.
  pub record Ended (Q : ℕ → List Workflow → List Task → World R → Type 0) (w t : World R)
      : Type 0 where
    pub workflow_id : ℕ
    pub fresh : has_id workflow_id (ids (λ (x : Workflow). x.id) w.db.workflows) ≡ false
    pub ended : Q workflow_id w.db.workflows w.db.tasks t

module _ {R : Type 0} (env : Env R) (up : (n : ℕ) → env.postgres.refuses n ≡ none) where
  new-Row :
      (r : Workflow) (ws : List Workflow)
      → has_id r.id (ids (λ (x : Workflow). x.id) ws) ≡ false
      → r.status ≡ running
      → Row r.id ws running (add_row r ws)
  new-Row r ws fresh st = record {
    status = rw (find-last (λ (x : Workflow). x.id) r.id r ws fresh refl) (rw st refl);
    others = λ j ne. rw (find-add_row (λ (x : Workflow). x.id) j r ws fresh) (rw ne refl);
  }

  pub start_workflow-Run :
      {E : Exn → World R → Type 0} (name : String) (chain : List String) (event : String)
      (details : Fields) (w : World R)
      → Run (λ wf t. Started w wf t) E (start_workflow env name chain event details) w
  unfolding start_workflow
  start_workflow-Run name chain event details w = rw (up w.calls) (
      returns (record {
        fresh = env.postgres.serial_fresh w.calls (ids (λ x. x.id) w.db.workflows);
        idle = record {
          row =
              new-Row _ w.db.workflows
                (env.postgres.serial_fresh w.calls (ids (λ x. x.id) w.db.workflows)) refl;
          ran = record { added = []; split = sym (append-nil w.db.tasks); labels = refl };
        };
      }))

module _ {R : Type 0} {A : Type 0} {Q : A → World R → Type 0} {E : Exn → World R → Type 0} where
  -- Conditions that do not read the context variable.
  pub with_workflow-Run :
      (wf : ℕ) (m : Exec (World R) A) (w : World R)
      → ((a : A) (t : World R) (o : Option ℕ) → Q a t → Q a (record t { current_workflow_id = o }))
      → ((e : Exn) (t : World R) (o : Option ℕ)
          → E e t
          → E e (record t { current_workflow_id = o }))
      → Run Q E m (record w { current_workflow_id = some wf })
      → Run Q E (with_workflow wf m) w
  unfolding with_workflow
  with_workflow-Run wf m w q e h = reset (m (record w { current_workflow_id = some wf })).0 h
    where
      reset :
          (r : Result A)
          → Ends Q E (m (record w { current_workflow_id = some wf })).1 r
          → Ends Q E
              (record (m (record w { current_workflow_id = some wf })).1 {
                current_workflow_id = w.current_workflow_id;
              })
              r
      reset (ok a) (returns x) = returns (q a _ w.current_workflow_id x)
      reset (err a) (raises x) = raises (e a _ w.current_workflow_id x)

module _ {R A : Type 0} {Q : A → World R → Type 0} {E : Exn → World R → Type 0} where
  -- Conditions that do not read the server's state.
  pub lasting-Run :
      (env : Env R) (wf : ℕ) (m : Exec (World R) A) (w : World R)
      → ((a : A) (t : World R) (r : R) → Q a t → Q a (record t { redis = r }))
      → ((e : Exn) (t : World R) (r : R) → E e t → E e (record t { redis = r }))
      → Run Q E m w
      → Run Q E (lasting env wf m) w
  unfolding lasting
  lasting-Run env wf m w q e h = Ends-restate h (λ a x. q a _ _ x) (λ x y. e x _ _ y)

module _ {R : Type 0} (wf : ℕ) (before : List Workflow) (base : List Task) where
  Idle-waited :
      (st : Status) (done : Labels) (t : World R) (r : R)
      → Idle wf before base st done t
      → Idle wf before base st done (record t { redis = r })
  Idle-waited st done t r h = record { row = h.row; ran = h.ran }

  Completed-waited :
      (t : World R) (r : R)
      → Completed wf before base t
      → Completed wf before base (record t { redis = r })
  unfolding Completed
  Completed-waited t r h = Idle-waited completed (all_completed wf task_chain) t r h

  pub Stopped-waited :
      (t : World R) (r : R)
      → Stopped wf before base t
      → Stopped wf before base (record t { redis = r })
  Stopped-waited t r h = record {
    step = h.step;
    in_chain = h.in_chain;
    idle = Idle-waited failed (stopped_at wf h.step task_chain) t r h.idle;
  }

  pub Idle-reset :
      (st : Status) (done : Labels) (t : World R) (o : Option ℕ)
      → Idle wf before base st done t
      → Idle wf before base st done (record t { current_workflow_id = o })
  Idle-reset st done t o h = record { row = h.row; ran = h.ran }

  Completed-reset :
      (t : World R) (o : Option ℕ)
      → Completed wf before base t
      → Completed wf before base (record t { current_workflow_id = o })
  unfolding Completed
  Completed-reset t o h = Idle-reset completed (all_completed wf task_chain) t o h

  pub Stopped-reset :
      (t : World R) (o : Option ℕ)
      → Stopped wf before base t
      → Stopped wf before base (record t { current_workflow_id = o })
  Stopped-reset t o h = record {
    step = h.step;
    in_chain = h.in_chain;
    idle = Idle-reset failed (stopped_at wf h.step task_chain) t o h.idle;
  }

module _ {R : Type 0} (env : Env R) (up : (n : ℕ) → env.postgres.refuses n ≡ none) where
  attach-Run :
      (attaches : (k x : String) (ex : ℕ) (s : R)
        → (s' : R) × (env.redis.set_ex k x ex s ≡ (ok tt, s')))
      → (c : Commit) (wf : ℕ) (before : List Workflow) (base : List Task)
        (E : Exn → World R → Type 0) (t : World R)
      → Idle wf before base running [] t
      → Run
          (λ _. Idle wf before base running [])
          E
          (on_redis (Dedup.attach_workflow_id env.redis env.claims c.repo c.sha wf))
          t
  unfolding on_redis Dedup.attach_workflow_id
  attach-Run attaches c wf before base E t h =
      let (s', p) = attaches (Dedup.key env.claims c.repo c.sha) (str wf) env.claims.ttl t.redis in
      rw p (returns (record { row = h.row; ran = h.ran }))

  -- Where Redis takes the attachment of the id, a run on a claimed commit returns with a new workflow
  -- completed, or raises with that workflow failed. It is never left running.
  pub run_claimed-Run :
      (attaches : (k x : String) (ex : ℕ) (s : R)
        → (s' : R) × (env.redis.set_ex k x ex s ≡ (ok tt, s')))
      → (c : Commit) (w : World R)
      → Run (λ _. Ended Completed w) (λ _. Ended Stopped w) (run_claimed env c) w
  unfolding run_claimed
  run_claimed-Run attaches c w =
      >>=-Run
        (start_workflow env "commit_pipeline" task_chain "workflow_started"
          (field "repo" (text c.repo) (field "sha" (text c.sha) end)))
        _ w (start_workflow-Run env up _ _ _ _ w)
        λ wf t₁ h₁.
          >>=-Run {P = λ _. Idle wf w.db.workflows w.db.tasks running []}
            (on_redis (Dedup.attach_workflow_id env.redis env.claims c.repo c.sha wf)) _ t₁
            (attach-Run attaches c wf w.db.workflows w.db.tasks _ t₁ h₁.idle)
            λ _ t₂ h₂.
              with_workflow-Run wf (lasting env wf (run_pipeline_steps env wf c)) t₂
                (λ a t o q. record {
                  workflow_id = q.workflow_id;
                  fresh = q.fresh;
                  ended = Completed-reset q.workflow_id w.db.workflows w.db.tasks t o q.ended;
                })
                (λ e t o q. record {
                  workflow_id = q.workflow_id;
                  fresh = q.fresh;
                  ended = Stopped-reset q.workflow_id w.db.workflows w.db.tasks t o q.ended;
                })
                (Ends-weaken
                  (lasting-Run env wf (run_pipeline_steps env wf c) _
                    (λ a. Completed-waited wf w.db.workflows w.db.tasks)
                    (λ e. Stopped-waited wf w.db.workflows w.db.tasks)
                    (run_pipeline_steps-Run env up wf w.db.workflows w.db.tasks c
                      (record t₂ { current_workflow_id = some wf })
                      (Idle-reset wf w.db.workflows w.db.tasks running [] t₂ (some wf) h₂)))
                  (λ a q. record { workflow_id = wf; fresh = h₁.fresh; ended = q })
                  (λ e q. record { workflow_id = wf; fresh = h₁.fresh; ended = q }))
