-- ===== src/Gateway/Decisions.antt =====
-- What ApprovalGateway.decide does to the approvals.
use wiseorder.Prelude.{
  ℕ, String, ◌≡◌, refl, Bool, true, false, Option, none, some, ◌⊎◌, inl, inr, arith, ◌==◌, ==_refl,
  Bool-cases, Option-cases, eq_iff,
}
use wiseorder.Exec.Ends.{returns, raises, Run}
use wiseorder.Db.{Approval, find, find-set_row}
use wiseorder.Runtime.{World, Env, session_scope}
use wiseorder.Gateway.{decide, is_decision, write_decision}

abbrev approval_row : {R : Type 0} → ℕ → World R → Option Approval
approval_row i w = find (λ a. a.id) i w.db.approvals

module _ {R : Type 0} (env : Env R) (id : ℕ) (decision : String) (w : World R) where
  abbrev decided : Approval → Approval
  decided a = record a { decision = some decision; decided_at = some (env.clock w.calls) }

  -- The row of the approval has the decision and its time, every other row is the same.
  pub record Written (t : World R) : Type 0 where
    pub valid : (decision ≡ "approved") ⊎ (decision ≡ "rejected")
    pub approval : Approval
    pub found : approval_row id w ≡ some approval
    pub row : approval_row id t ≡ some (decided approval)
    pub others : (j : ℕ) → (id == j) ≡ false → approval_row j t ≡ approval_row j w

  -- How a decision ends: true where it was written, and false where there is no such approval.
  abbrev pub Decision : Bool → World R → Type 0
  Decision true t = Written t
  Decision false t = (approval_row id w ≡ none) × (t.db ≡ w.db)

  valid_decision :
      is_decision env decision ≡ true → (decision ≡ "approved") ⊎ (decision ≡ "rejected")
  valid_decision h = ground (arith, eq_iff decision "approved", eq_iff decision "rejected")

  write_decision-Run :
      is_decision env decision ≡ true
      → Run Decision (λ e t. t.db ≡ w.db) (write_decision env id decision) w
  unfolding write_decision session_scope
  write_decision-Run h = elim (Option-cases (env.postgres.refuses w.calls)) [
    | inr (e, q) ↦ rw q (raises refl)
    | inl q ↦ elim (Option-cases (approval_row id w)) [
      | inl p ↦ rw q (rw p (returns (p, refl)))
      | inr (a, p) ↦ rw q (
          rw p (
            returns (record {
              valid = valid_decision h;
              approval = a;
              found = p;
              row =
                  rw (find-set_row (λ x. x.id) id id decided w.db.approvals (λ x. refl))
                    (rw (==_refl id) (rw p refl));
              others = λ j ne.
                  rw (find-set_row (λ x. x.id) id j decided w.db.approvals (λ x. refl))
                    (rw ne refl);
            })))
    ]
  ]

  -- decide returns true only for "approved" or "rejected" and an approval that exists, whose row then
  -- has the decision, with every other row the same; it returns false where there is no such row, and
  -- then, as where it raises, nothing has changed.
  pub decide-Run : Run Decision (λ e t. t.db ≡ w.db) (decide env id decision) w
  unfolding decide
  decide-Run = elim (Bool-cases (is_decision env decision)) [
    | inl h ↦ rw h (write_decision-Run h)
    | inr h ↦ rw h (raises refl)
  ]
