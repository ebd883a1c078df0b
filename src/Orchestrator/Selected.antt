-- ===== src/Orchestrator/Selected.antt =====
-- Which workflows and tasks the reaper interrupts.
use wiseorder.Prelude.{
  ℕ, ◌+◌, ◌<◌, ◌≡◌, ◌↔◌, refl, ap, sym, ◌∙◌, true, Bool, ◌&&◌, List, [], ◌∷◌, any, arith, ltb,
  both_true, ==_iff, Option, none, some, Bool-cases, inl, inr,
}
use mathlib.Core.List.{Memᴰ}
use mathlib.Core.List.Memᴰ.{head, tail, cases_cons, not-nil}
use wiseorder.Db.{Task, Workflow, Status, pending, running, completed, failed, interrupted}
use wiseorder.Orchestrator.{is_running, is_orphan, belongs}

-- The task is running, in one of these workflows.
abbrev pub of_any : List Workflow → Task → Bool
of_any ws t = is_running t.status && any (λ w. belongs w.id t.workflow_id) ws

is_running-eq : (st : Status) → (is_running st ≡ true) ↔ (st ≡ running)
is_running-eq running = (λ h. refl, λ h. refl)
is_running-eq pending = (λ h. cc, λ h. cc)
is_running-eq completed = (λ h. cc, λ h. cc)
is_running-eq failed = (λ h. cc, λ h. cc)
is_running-eq interrupted = (λ h. cc, λ h. cc)

-- A workflow is an orphan where it is running and was created more than max_age seconds ago.
pub Selects : ℕ → ℕ → Workflow → Type 0
Selects now max_age x =
    (is_orphan now max_age x ≡ true) ↔ ((x.status ≡ running) × (x.created_at + max_age < now))

pub is_orphan-Selects : (now max_age : ℕ) (x : Workflow) → Selects now max_age x
unfolding is_orphan Selects
is_orphan-Selects now max_age x = (
  λ h.
      let (p, q) = both_true (is_running x.status) (ltb (x.created_at + max_age) now) h in
      ((is_running-eq x.status).0 p, ground arith),
  λ (p, lt). rw ((is_running-eq x.status).1 p) (ground arith),
)

some-injective : {i j : ℕ} → ◌≡◌ {A = Option ℕ} (some i) (some j) → i ≡ j
some-injective e = cc

belongs-eq : (i : ℕ) (o : Option ℕ) → (belongs i o ≡ true) ↔ (o ≡ some i)
belongs-eq i none = (λ h. cc, λ h. cc)
belongs-eq i (some j) =
    (λ h. ap some (sym ((==_iff i j).0 h)), λ e. (==_iff i j).1 (sym (some-injective e)))

-- The task is running, and its workflow is one of these.
pub OfAny : List Workflow → Task → Type 0
OfAny ws t =
    (of_any ws t ≡ true)
    ↔ ((t.status ≡ running) × ((x : Workflow) × Memᴰ x ws × (t.workflow_id ≡ some x.id)))

any-belongs :
    (ws : List Workflow) (o : Option ℕ)
    → (any (λ w. belongs w.id o) ws ≡ true) ↔ ((x : Workflow) × Memᴰ x ws × (o ≡ some x.id))
any-belongs [] o = (λ h. cc, λ (x, m, e). elim (not-nil m) [ ])
any-belongs (w ∷ ws) o = elim (Bool-cases (belongs w.id o)) [
  | inl p ↦ rw p (λ h. (w, head refl, (belongs-eq w.id o).0 p), λ h. refl)
  | inr p ↦ rw p (
    λ h. let (x, m, e) = (any-belongs ws o).0 h in (x, tail m, e),
    λ (x, m, e). elim (cases_cons m) [
      | inl same ↦ cc ((belongs-eq w.id o).1 (e ∙ ap (λ y. some y.id) same), p)
      | inr t ↦ (any-belongs ws o).1 (x, t, e)
    ],
  )
]

pub of_any_lem : (ws : List Workflow) (t : Task) → OfAny ws t
unfolding OfAny
of_any_lem ws t = (
  λ h.
      let (p, q) = both_true (is_running t.status) (any (λ w. belongs w.id t.workflow_id) ws) h in
      ((is_running-eq t.status).0 p, (any-belongs ws t.workflow_id).0 q),
  λ (p, q). rw ((is_running-eq t.status).1 p, (any-belongs ws t.workflow_id).1 q) refl,
)
