-- ===== src/Orchestrator/Orphans.antt =====
-- What the reaper does to the tables.
use wiseorder.Prelude.{
  ℕ, ◌≡◌, refl, ◌∙◌, false, List, [], ◌∷◌, map, keep, length, arith, if◌then◌else◌, Bool-cases,
  Option-cases, inl, inr,
}
use wiseorder.Exec.Ends.{returns, raises, Run}
use wiseorder.Db.{Task, Workflow}
use wiseorder.Runtime.{World, Env, session_scope}
use wiseorder.Orchestrator.{
  is_running, is_orphan, belongs, interrupted_task, interrupt_task, interrupt_tasks,
  interrupted_workflow, reaped, reap_orphan_workflows,
}
use wiseorder.Orchestrator.Selected.{of_any, Selects, is_orphan-Selects, OfAny, of_any_lem}

-- The tasks after one pass.
abbrev pub interrupted_once : ℕ → List Workflow → Task → Task
interrupted_once now ws t = if of_any ws t then interrupted_task now t else t

interrupt_tasks-[] : (now : ℕ) (ws : List Workflow) → interrupt_tasks now ws [] ≡ []
unfolding interrupt_tasks
interrupt_tasks-[] now [] = refl
interrupt_tasks-[] now (w ∷ ws) = interrupt_tasks-[] now ws

interrupt_one : ℕ → List Workflow → Task → Task
interrupt_one now [] t = t
interrupt_one now (w ∷ ws) t = interrupt_one now ws (interrupt_task now w.id t)

interrupt_tasks-∷ :
    (now : ℕ) (ws : List Workflow) (t : Task) (ts : List Task)
    → interrupt_tasks now ws (t ∷ ts) ≡ interrupt_one now ws t ∷ interrupt_tasks now ws ts
unfolding interrupt_tasks interrupt_one
interrupt_tasks-∷ now [] t ts = refl
interrupt_tasks-∷ now (w ∷ ws) t ts =
    interrupt_tasks-∷ now ws (interrupt_task now w.id t) (map (interrupt_task now w.id) ts)

interrupt_one-stopped :
    (now : ℕ) (ws : List Workflow) (t : Task)
    → is_running t.status ≡ false
    → interrupt_one now ws t ≡ t
unfolding interrupt_one interrupt_task
interrupt_one-stopped now [] t h = refl
interrupt_one-stopped now (w ∷ ws) t h = rw h (interrupt_one-stopped now ws t h)

interrupt_one-once :
    (now : ℕ) (ws : List Workflow) (t : Task) → interrupt_one now ws t ≡ interrupted_once now ws t
unfolding interrupt_one interrupt_task
interrupt_one-once now [] t = ground arith
interrupt_one-once now (w ∷ ws) t = elim (Bool-cases (is_running t.status)) [
  | inr p ↦ rw p (interrupt_one-stopped now ws t p)
  | inl p ↦ elim (Bool-cases (belongs w.id t.workflow_id)) [
    | inl q ↦ rw (p, q) (interrupt_one-stopped now ws (interrupted_task now t) refl)
    | inr q ↦ rw (p, q) (rw (interrupt_one-once now ws t) (rw p refl))
  ]
]

-- The updates of the loop come to one pass over the tasks.
interrupt_tasks-once :
    (now : ℕ) (ws : List Workflow) (ts : List Task)
    → interrupt_tasks now ws ts ≡ map (interrupted_once now ws) ts
interrupt_tasks-once now ws [] = interrupt_tasks-[] now ws
interrupt_tasks-once now ws (t ∷ ts) =
    interrupt_tasks-∷ now ws t ts
    ∙ (λ i. interrupt_one-once now ws t i ∷ interrupt_tasks-once now ws ts i)

is_orphan-stopped :
    (now max_age : ℕ) (x : Workflow) → is_running x.status ≡ false → is_orphan now max_age x ≡ false
unfolding is_orphan
is_orphan-stopped now max_age x h = rw h

module _ {R : Type 0} (env : Env R) where
  reaped_row :
      (n max_age : ℕ) (w : Workflow)
      → is_orphan (env.clock n) max_age (reaped env n max_age w) ≡ false
  reaped_row n max_age w = elim (Bool-cases (is_orphan (env.clock n) max_age w)) [
    | inl p ↦ rw p (stopped w)
    | inr p ↦ rw p p
  ]
    where
      stopped :
          (x : Workflow)
          → is_orphan (env.clock n) max_age (interrupted_workflow env n max_age x) ≡ false
      stopped x =
          is_orphan-stopped (env.clock n) max_age (interrupted_workflow env n max_age x) refl

  no_orphan_left :
      (n max_age : ℕ) (ws : List Workflow)
      → keep (is_orphan (env.clock n) max_age) (map (reaped env n max_age) ws) ≡ []
  no_orphan_left n max_age [] = refl
  no_orphan_left n max_age (w ∷ ws) = rw (reaped_row n max_age w) (no_orphan_left n max_age ws)

  -- How the reaper ends, at the time `now`: the orphans are the workflows that are running and older
  -- than max_age; it counts them, no orphan is left, every other workflow is the same, and the tasks
  -- interrupted are the running ones of the orphans.
  pub record Reaped (max_age : ℕ) (w : World R) (n : ℕ) (t : World R) : Type 0 where
    pub selects : (x : Workflow) → Selects (env.clock w.calls) max_age x
    pub tasks_selected :
        (x : Task) → OfAny (keep (is_orphan (env.clock w.calls) max_age) w.db.workflows) x
    pub counted : n ≡ length (keep (is_orphan (env.clock w.calls) max_age) w.db.workflows)
    pub none_left : keep (is_orphan (env.clock w.calls) max_age) t.db.workflows ≡ []
    pub workflows : t.db.workflows ≡ map (reaped env w.calls max_age) w.db.workflows
    pub tasks :
        t.db.tasks
        ≡ map
            (interrupted_once
              (env.clock w.calls)
              (keep (is_orphan (env.clock w.calls) max_age) w.db.workflows))
            w.db.tasks
    pub others : (t.db.memory ≡ w.db.memory) × (t.db.approvals ≡ w.db.approvals)

  pub reap_orphan_workflows-Run :
      (max_age : ℕ) (w : World R)
      → Run (Reaped max_age w) (λ e t. t.db ≡ w.db) (reap_orphan_workflows env max_age) w
  unfolding reap_orphan_workflows session_scope
  reap_orphan_workflows-Run max_age w = elim (Option-cases (env.postgres.refuses w.calls)) [
    | inr (e, q) ↦ rw q (raises refl)
    | inl q ↦ rw q (
        returns (record {
          selects = is_orphan-Selects (env.clock w.calls) max_age;
          tasks_selected = of_any_lem (keep (is_orphan (env.clock w.calls) max_age) w.db.workflows);
          counted = refl;
          none_left = no_orphan_left w.calls max_age w.db.workflows;
          workflows = refl;
          tasks =
              interrupt_tasks-once (env.clock w.calls)
                (keep (is_orphan (env.clock w.calls) max_age) w.db.workflows) w.db.tasks;
          others = (refl, refl);
        }))
  ]
