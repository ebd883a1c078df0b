-- ===== src/Runtime/Keeps.antt =====
-- Statements that leave the tables of tasks and workflows alone, however they end.
use wiseorder.Prelude.{ℕ, ◌≡◌, refl, ◌∙◌, Option, none, some}
use wiseorder.Exec.{Result, ok, err, Exn, Exec, continue, ◌>>=◌, handle, try_except}
use wiseorder.Exec.Ends.{Ends, returns, raises, Run}
use wiseorder.Db.{Db}
use wiseorder.Runtime.{World, Env, tick, session_scope, settle}

-- The tables of tasks and of workflows are the same.
pub record SameSteps {R : Type 0} (w w' : World R) : Type 0 where
  pub tasks : w'.db.tasks ≡ w.db.tasks
  pub workflows : w'.db.workflows ≡ w.db.workflows

module _ {R : Type 0} where
  pub SameSteps-refl : (w : World R) → SameSteps w w
  SameSteps-refl w = record { tasks = refl; workflows = refl }

  pub SameSteps-trans : {w w₁ w₂ : World R} → SameSteps w w₁ → SameSteps w₁ w₂ → SameSteps w w₂
  SameSteps-trans h k = record { tasks = k.tasks ∙ h.tasks; workflows = k.workflows ∙ h.workflows }

  pub record Keeps {A : Type 0} (m : Exec (World R) A) : Type 0 where
    pub at : (w : World R) → SameSteps w (m w).1

  continue-Keeps :
      {A B : Type 0} (r : Result A) (f : A → Exec (World R) B) (w : World R)
      → ((a : A) → Keeps (f a))
      → SameSteps w (continue r f w).1
  continue-Keeps (ok a) f w k = (k a).at w
  continue-Keeps (err e) f w k = SameSteps-refl w

  pub Keeps-bind :
      {A B : Type 0} (m : Exec (World R) A) (f : A → Exec (World R) B)
      → Keeps m
      → ((a : A) → Keeps (f a))
      → Keeps (m >>= f)
  Keeps-bind m f h k = record {
    at = λ w. SameSteps-trans (h.at w) (continue-Keeps (m w).0 f (m w).1 k);
  }

  handle-Keeps :
      {A : Type 0} (r : Result A) (h : Exn → Exec (World R) A) (w : World R)
      → ((e : Exn) → Keeps (h e))
      → SameSteps w (handle r h w).1
  handle-Keeps (ok a) h w k = SameSteps-refl w
  handle-Keeps (err e) h w k = (k e).at w

  pub Keeps-try_except :
      {A : Type 0} (m : Exec (World R) A) (h : Exn → Exec (World R) A)
      → Keeps m
      → ((e : Exn) → Keeps (h e))
      → Keeps (try_except m h)
  Keeps-try_except m h k kh = record {
    at = λ w. SameSteps-trans (k.at w) (handle-Keeps (m w).0 h (m w).1 kh);
  }

  settle-Keeps :
      {A : Type 0} (o : Option Exn) (r : Result A) (db' : Db) (w : World R)
      → db'.tasks ≡ w.db.tasks
      → db'.workflows ≡ w.db.workflows
      → SameSteps w (settle o (r, db') w).1
  settle-Keeps (some e) r db' w t s = SameSteps-refl w
  settle-Keeps none (err e) db' w t s = SameSteps-refl w
  settle-Keeps none (ok a) db' w t s = record { tasks = t; workflows = s }

  pub Keeps-session :
      {A : Type 0} (env : Env R) (body : ℕ → Exec Db A)
      → ((n : ℕ) (db : Db) → (body n db).1.tasks ≡ db.tasks)
      → ((n : ℕ) (db : Db) → (body n db).1.workflows ≡ db.workflows)
      → Keeps (session_scope env body)
  unfolding session_scope
  Keeps-session env body t s = record {
    at = λ w.
        let h =
          settle-Keeps (env.postgres.refuses w.calls) (body w.calls w.db).0 (body w.calls w.db).1
            (tick w) (t w.calls w.db) (s w.calls w.db) in
        record { tasks = h.tasks; workflows = h.workflows };
  }

  Ends-same :
      {A : Type 0} (P : World R → Type 0) (r : Result A) (s : World R)
      → P s
      → Ends (λ _. P) (λ _. P) s r
  Ends-same P (ok a) s p = returns p
  Ends-same P (err e) s p = raises p

  -- A statement that keeps the two tables keeps what is said of them.
  pub Keeps-Run :
      {A : Type 0} (P : World R → Type 0)
      → ((w w' : World R) → SameSteps w w' → P w → P w')
      → (m : Exec (World R) A) → Keeps m
      → (w : World R) → P w
      → Run (λ _. P) (λ _. P) m w
  Keeps-Run P stable m k w p = Ends-same P (m w).0 (m w).1 (stable w (m w).1 (k.at w) p)
