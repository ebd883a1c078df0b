-- ===== src/Runtime/Apart.antt =====
-- Statements that touch neither the Redis server nor the context variables, however they end.
use wiseorder.Prelude.{ℕ, String, ◌≡◌, refl, ◌∙◌, Option, none, some}
use wiseorder.Exec.{Result, ok, err, Exn, Exec, continue, pure, raise, ◌>>=◌, handle, try_except}
use wiseorder.Db.{Db}
use wiseorder.Runtime.{World, Env, tick, session_scope, settle}

-- The server's state and the context variables.
abbrev pub context : {R : Type 0} → World R → R × Option ℕ × Option String
context w = (w.redis, w.current_workflow_id, w.current_job_id)

module _ {R : Type 0} where
  pub record Apart {A : Type 0} (m : Exec (World R) A) : Type 0 where
    pub at : (w : World R) → context (m w).1 ≡ context w

  continue-Apart :
      {A B : Type 0} (r : Result A) (f : A → Exec (World R) B) (w : World R)
      → ((a : A) → Apart (f a))
      → context (continue r f w).1 ≡ context w
  continue-Apart (ok a) f w k = (k a).at w
  continue-Apart (err e) f w k = refl

  pub Apart-bind :
      {A B : Type 0} (m : Exec (World R) A) (f : A → Exec (World R) B)
      → Apart m
      → ((a : A) → Apart (f a))
      → Apart (m >>= f)
  Apart-bind m f h k = record { at = λ w. continue-Apart (m w).0 f (m w).1 k ∙ h.at w }

  handle-Apart :
      {A : Type 0} (r : Result A) (h : Exn → Exec (World R) A) (w : World R)
      → ((e : Exn) → Apart (h e))
      → context (handle r h w).1 ≡ context w
  handle-Apart (ok a) h w k = refl
  handle-Apart (err e) h w k = (k e).at w

  pub Apart-try_except :
      {A : Type 0} (m : Exec (World R) A) (h : Exn → Exec (World R) A)
      → Apart m
      → ((e : Exn) → Apart (h e))
      → Apart (try_except m h)
  Apart-try_except m h k kh = record { at = λ w. handle-Apart (m w).0 h (m w).1 kh ∙ k.at w }

  pub Apart-pure : {A : Type 0} (a : A) → Apart (pure a)
  Apart-pure a = record { at = λ w. refl }

  pub Apart-raise : {A : Type 0} (e : Exn) → Apart (raise {A = A} e)
  Apart-raise e = record { at = λ w. refl }

  settle-Apart :
      {A : Type 0} (o : Option Exn) (r : Result A) (db' : Db) (w : World R)
      → context (settle o (r, db') w).1 ≡ context w
  settle-Apart (some e) r db' w = refl
  settle-Apart none (err e) db' w = refl
  settle-Apart none (ok a) db' w = refl

  pub Apart-session :
      {A : Type 0} (env : Env R) (body : ℕ → Exec Db A) → Apart (session_scope env body)
  unfolding session_scope
  Apart-session env body = record {
    at = λ w.
        settle-Apart (env.postgres.refuses w.calls) (body w.calls w.db).0 (body w.calls w.db).1
          (tick w);
  }

pub ruleset apart_rules = (Apart-bind, Apart-try_except, Apart-pure, Apart-raise, Apart-session)
