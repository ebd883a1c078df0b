-- ===== src/Forge/Stages.antt =====
-- The first steps of a demo request, where the database takes every transaction.
use wiseorder.Prelude.{
  ℕ, String, Bool, true, false, Bool-cases, ◌≡◌, refl, none, List, [], ◌∷◌, ◌++◌, ◌⊎◌, inl, inr,
}
use wiseorder.Prelude.Text.{str_eq}
use wiseorder.Values.{Fields}
use wiseorder.Exec.{Exn, Exec, Result, ok, err, ◌>>=◌}
use wiseorder.Exec.Ends.{Ends, returns, raises, Run, >>=-Run, Ends-weaken}
use wiseorder.Db.{running, completed, failed, Task, Workflow}
use wiseorder.Runtime.{World, Env, tick}
use wiseorder.Steps.{create_task, fail_task, fail_workflow}
use wiseorder.Steps.Rows.{Row, Labels}
use wiseorder.Steps.Effects.{
  step_label, Idle, Busy, create_task-Idle, complete_task-Busy, fail_task-Busy, fail_workflow-Idle,
}
use wiseorder.Forge.Steps.{
  ask, give_up, capture_command, tools_step, tools_run, result_of, capture_step, capture_run,
}
use wiseorder.Forge.Config.{ForgeConfig, CommandResult}
use wiseorder.Forge.Artifacts.{Manifest, build_manifest, format_outputs}

-- The exception is one that a call of the outside raised: a subprocess that did not start, or a file
-- that could not be listed or read.
pub data Abrupt (config : ForgeConfig) (e : Exn) : Type 0 where
  no_process :
      (n : ℕ) (cmd : List String) (timeout : String)
      → result_of timeout (config.run n cmd) ≡ err e
      → Abrupt config e
  no_manifest :
      (n : ℕ) (dir scenario stamp : String)
      → build_manifest config.sha256 (config.listing n dir) dir scenario stamp ≡ err e
      → Abrupt config e
  no_outputs :
      (n : ℕ) (path : String) (m : Manifest)
      → format_outputs config.digest (config.read_text n path) m ≡ err e
      → Abrupt config e

-- After the render: whichever way it went, the request goes on.
pub data Rendered (wf : ℕ) : Bool → Labels → Type 0 where
  not_asked : Rendered wf true []
  made : Rendered wf false (step_label wf "render_mp4" completed ∷ [])
  not_made : Rendered wf false (step_label wf "render_mp4" failed ∷ [])

module _ {R : Type 0} where
  -- A call of the outside keeps the rows, whether it returns or raises.
  pub ask-Run :
      {A : Type 0} (P : World R → Type 0) (f : ℕ → Result A) (w : World R)
      → P (tick w)
      → Run (λ _. P) (λ e t. P t × (f w.calls ≡ err e)) (ask f) w
  ask-Run {A = A} P f w p = told (f w.calls) refl
    where
      told :
          (r : Result A)
          → f w.calls ≡ r
          → Ends (λ _. P) (λ e t. P t × (f w.calls ≡ err e)) (tick w) r
      told (ok a) q = returns p
      told (err e) q = raises (p, q)

module _ {R : Type 0} (config : ForgeConfig) (wf : ℕ) (before : List Workflow)
    (base : List Task) where
  -- An exception of the outside has passed through, and the workflow is running still.
  pub record Stuck (e : Exn) (w : World R) : Type 0 where
    pub cause : Abrupt config e
    pub row : Row wf before running w.db.workflows

  abbrev pub StopsAt : String → Labels → Exn → World R → Type 0
  StopsAt type done e t =
      Idle wf before base failed (done ++ step_label wf type failed ∷ []) t ⊎ Stuck e t

  abbrev pub StepEnds : {A : Type 0} → String → Labels → Exec (World R) A → World R → Type 0
  StepEnds type done =
      Run (λ _. Idle wf before base running (done ++ step_label wf type completed ∷ []))
        (StopsAt type done)

module _ {R : Type 0} (wf : ℕ) (before : List Workflow) (base : List Task) where
  -- The render has been skipped, made or given up.
  pub record Past (done : Labels) (skip : Bool) (w : World R) : Type 0 where
    pub render : Labels
    pub rendered : Rendered wf skip render
    pub idle : Idle wf before base running (done ++ render) w

module _ {R : Type 0} (env : Env R) (config : ForgeConfig)
    (up : (n : ℕ) → env.postgres.refuses n ≡ none) (wf : ℕ) (before : List Workflow)
    (base : List Task) where
  pub give_up-Run :
      {A : Type 0} {Q : A → World R → Type 0} (id : ℕ) (type : String) (done : Labels)
      (error workflow_error message : String) (w : World R)
      → Busy wf before base id type done w
      → Run Q
          (StopsAt config wf before base type done)
          (give_up env config wf id error workflow_error message)
          w
  unfolding give_up
  give_up-Run id type done error workflow_error message w busy =
      >>=-Run (fail_task env id error) _ w
        (fail_task-Busy env up wf before base id type done error w busy)
        λ _ t idle.
          >>=-Run (fail_workflow env "demo_request_failed" wf workflow_error) _ t
            (fail_workflow-Idle env up wf before base running _ "demo_request_failed" workflow_error
              t idle)
            λ _ u stopped. raises (inl stopped)

  -- A step that asks the outside once, before it ends its task.
  pub asked-Run :
      {A B : Type 0} {Q : B → World R → Type 0} {E : Exn → World R → Type 0} (type : String)
      (done : Labels) (payload : Fields) (f : ℕ → Result A) (k : ℕ → A → Exec (World R) B)
      (w : World R)
      → ((n : ℕ) (e : Exn) → f n ≡ err e → Abrupt config e)
      → ((e : Exn) (t : World R) → Stuck config wf before base e t → E e t)
      → ((id : ℕ) (a : A) (t : World R) → Busy wf before base id type done t → Run Q E (k id a) t)
      → Idle wf before base running done w
      → Run Q E (create_task env type wf payload >>= λ id. ask f >>= k id) w
  asked-Run type done payload f k w cause stuck next h =
      >>=-Run (create_task env type wf payload) _ w
        (create_task-Idle env up wf before base type done payload w h)
        λ id t busy.
          >>=-Run (ask f) (k id) t
            (Ends-weaken
              (ask-Run (Busy wf before base id type done) f t
                (record { row = busy.row; open_task = busy.open_task }))
              (λ a b. b)
              (λ e b. stuck e (tick t) (record { cause = cause t.calls e b.1; row = b.0.row })))
            (next id)

  tools_run-Run :
      (done : Labels) (id : ℕ) (r : CommandResult) (w : World R)
      → Busy wf before base id "check_tools" done w
      → StepEnds config wf before base "check_tools" done (tools_run env config wf id r) w
  unfolding tools_run
  tools_run-Run done id r w busy = elim (Bool-cases (str_eq r.rc "0")) [
    | inr p ↦ rw p (give_up-Run id "check_tools" done _ _ _ w busy)
    | inl p ↦ rw p (complete_task-Busy env up wf before base id "check_tools" done _ w busy)
  ]

  capture_run-Run :
      (done : Labels) (id : ℕ) (scenario : String) (r : CommandResult) (w : World R)
      → Busy wf before base id "capture" done w
      → StepEnds config wf before base "capture" done (capture_run env config wf id scenario r) w
  unfolding capture_run
  capture_run-Run done id scenario r w busy = elim (Bool-cases (str_eq r.rc "0")) [
    | inr p ↦ rw p (give_up-Run id "capture" done _ _ _ w busy)
    | inl p ↦ rw p (complete_task-Busy env up wf before base id "capture" done _ w busy)
  ]

  pub tools_step-Run :
      (scenario : String) (w : World R)
      → Idle wf before base running [] w
      → StepEnds config wf before base "check_tools" [] (tools_step env config wf scenario) w
  unfolding tools_step
  tools_step-Run scenario w h =
      asked-Run "check_tools" [] _
        (λ n. result_of "90.0" (config.run n ("make" ∷ "check-tools" ∷ [])))
        (tools_run env config wf) w (λ n e p. no_process n _ "90.0" p) (λ e t s. inr s)
        (tools_run-Run []) h

  pub capture_step-Run :
      (done : Labels) (scenario : String) (w : World R)
      → Idle wf before base running done w
      → StepEnds config wf before base "capture" done (capture_step env config wf scenario) w
  unfolding capture_step
  capture_step-Run done scenario w h =
      asked-Run "capture" done _ (λ n. result_of "180" (config.run n (capture_command scenario)))
        (λ id. capture_run env config wf id scenario) w (λ n e p. no_process n _ "180" p)
        (λ e t s. inr s) (λ id. capture_run-Run done id scenario) h
