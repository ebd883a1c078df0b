-- ===== src/Pipeline/Stages.antt =====
-- Each step of the pipeline, where the database takes every transaction: it ends with its task
-- completed, or it raises with its task and the workflow marked failed.
use wiseorder.Prelude.{arith, ℕ, String, ◌≡◌, refl, none, List, [], ◌∷◌, ◌++◌}
use wiseorder.Values.{Fields}
use wiseorder.Exec.{Exn, Exec, pure, ◌>>◌, try_except, Result}
use wiseorder.Exec.Ends.{returns, Run, >>=-Run}
use wiseorder.Db.{running, completed, failed, Task, Workflow}
use wiseorder.Llm.{EngineeringSummary, SocialDraft, summarize, draft}
use wiseorder.Runtime.{World, Env}
use wiseorder.Runtime.Keeps.{
  SameSteps, SameSteps-refl, Keeps, Keeps-bind, Keeps-session, Keeps-try_except, Keeps-Run,
}
use wiseorder.Gateway.{send}
use wiseorder.Gateway.Keeps.{send-Keeps}
use wiseorder.Steps.{create_task, complete_task, append_log}
use wiseorder.Steps.Rows.{Labels}
use wiseorder.Steps.Effects.{
  step_label, Idle, Busy, create_task-Idle, complete_task-Busy, append_log-Idle, guarded-Run,
}
use wiseorder.Pipeline.{
  agent, summarize_step, draft_step, save_step, approval_step, draft_dict, sha_of, add_memory,
  mark_embedded, vector_upsert, approval_request,
}
use wiseorder.Pipeline.Records.{Commit, summary_dict}

module _ {R : Type 0} (wf : ℕ) (before : List Workflow) (base : List Task) where
  -- A task of this step is running after the completed ones.
  pub Busy-same :
      (id : ℕ) (type : String) (done : Labels) (w w' : World R)
      → SameSteps w w'
      → Busy wf before base id type done w
      → Busy wf before base id type done w'
  Busy-same id type done w w' s b = record {
    row = rw s.workflows b.row;
    open_task = rw s.tasks b.open_task;
  }

module _ {R : Type 0} (env : Env R) where
  agent-Keeps : {A : Type 0} (f : ℕ → Result A) → Keeps (agent env f)
  agent-Keeps f = record { at = λ w. record { tasks = refl; workflows = refl } }

  add_memory-Keeps : (c : Commit) (eng : EngineeringSummary) → Keeps (add_memory env c eng)
  unfolding add_memory
  add_memory-Keeps c eng = Keeps-session env _ (λ n db. refl) (λ n db. refl)

  mark_embedded-Keeps : (id : ℕ) (c : Commit) → Keeps (mark_embedded env id c)
  unfolding mark_embedded
  mark_embedded-Keeps id c = Keeps-session env _ (λ n db. ground arith) (λ n db. ground arith)

  vector_upsert-Keeps : Keeps (vector_upsert env)
  unfolding vector_upsert
  vector_upsert-Keeps = record {
    at = λ w. record { tasks = ground arith; workflows = ground arith };
  }

  index-Keeps :
      (id : ℕ) (c : Commit)
      → Keeps (try_except (vector_upsert env >> mark_embedded env id c) (λ e. pure tt))
  index-Keeps id c =
      Keeps-try_except (vector_upsert env >> mark_embedded env id c) _
        (Keeps-bind (vector_upsert env) _ vector_upsert-Keeps (λ _. mark_embedded-Keeps id c))
        (λ e. record { at = SameSteps-refl })

module _ {R : Type 0} (env : Env R) (up : (n : ℕ) → env.postgres.refuses n ≡ none) (wf : ℕ)
    (before : List Workflow) (base : List Task) where
  -- A statement that keeps the tables leaves the step where it is.
  pub Keeps-Busy :
      {A : Type 0} (id : ℕ) (type : String) (done : Labels) (m : Exec (World R) A)
      → Keeps m
      → (w : World R) → Busy wf before base id type done w
      → Run (λ _. Busy wf before base id type done) (λ _. Busy wf before base id type done) m w
  Keeps-Busy id type done m k w b =
      Keeps-Run (Busy wf before base id type done) (Busy-same wf before base id type done) m k w b

  -- The end of a step with a log entry.
  close_step :
      {A : Type 0} {E : Exn → World R → Type 0} (id : ℕ) (type : String) (done : Labels)
      (result : Fields) (event : String) (details : Fields) (a : A) (w : World R)
      → Busy wf before base id type done w
      → Run
          (λ _. Idle wf before base running (done ++ step_label wf type completed ∷ []))
          E
          (complete_task env id result >> (append_log env wf event details >> pure a))
          w
  close_step id type done result event details a w b =
      >>=-Run (complete_task env id result) _ w
        (complete_task-Busy env up wf before base id type done result w b)
        λ _ t idle.
          >>=-Run (append_log env wf event details) _ t
            (append_log-Idle env up wf before base running
              (done ++ step_label wf type completed ∷ []) event details t idle)
            λ _ u idle'. returns idle'

  -- The outcome of a step that is entered with these tasks done.
  abbrev pub StepEnds : {A : Type 0} → String → Labels → Exec (World R) A → World R → Type 0
  StepEnds type done =
      Run (λ _. Idle wf before base running (done ++ step_label wf type completed ∷ []))
        (λ _. Idle wf before base failed (done ++ step_label wf type failed ∷ []))

  pub summarize_step-Run :
      (done : Labels) (c : Commit) (w : World R)
      → Idle wf before base running done w
      → StepEnds "summarize" done (summarize_step env wf c) w
  unfolding summarize_step
  summarize_step-Run done c w h =
      >>=-Run (create_task env "summarize" wf _) _ w
        (create_task-Idle env up wf before base "summarize" done _ w h)
        λ id t busy. guarded-Run env up wf before base "summarize" id "summarize" done _ t (
          >>=-Run (agent env (λ n. summarize env.llm n c.subject c.author c.sha c.diff)) _ t
            (Keeps-Busy id "summarize" done _
              (agent-Keeps env (λ n. summarize env.llm n c.subject c.author c.sha c.diff)) t busy)
            λ eng u still.
              close_step id "summarize" done (summary_dict eng) "summary_done" _ eng u still)

  pub draft_step-Run :
      (done : Labels) (c : Commit) (eng : EngineeringSummary) (w : World R)
      → Idle wf before base running done w
      → StepEnds "draft_social" done (draft_step env wf c eng) w
  unfolding draft_step
  draft_step-Run done c eng w h =
      >>=-Run (create_task env "draft_social" wf (sha_of c)) _ w
        (create_task-Idle env up wf before base "draft_social" done _ w h)
        λ id t busy. guarded-Run env up wf before base "draft" id "draft_social" done _ t (
          >>=-Run (agent env (λ n. draft env.llm n eng.summary eng.changelog eng.risk_level)) _ t
            (Keeps-Busy id "draft_social" done _
              (agent-Keeps env (λ n. draft env.llm n eng.summary eng.changelog eng.risk_level)) t
              busy)
            λ soc u still.
              close_step id "draft_social" done (draft_dict soc) "social_done" _ soc u still)

  pub save_step-Run :
      (done : Labels) (c : Commit) (eng : EngineeringSummary) (w : World R)
      → Idle wf before base running done w
      → StepEnds "save" done (save_step env wf c eng) w
  unfolding save_step
  save_step-Run done c eng w h =
      >>=-Run (create_task env "save" wf (sha_of c)) _ w
        (create_task-Idle env up wf before base "save" done _ w h)
        λ id t busy. guarded-Run env up wf before base "save" id "save" done _ t (
          >>=-Run (add_memory env c eng) _ t
            (Keeps-Busy id "save" done _ (add_memory-Keeps env c eng) t busy)
            λ memory_id u still.
              >>=-Run
                (try_except (vector_upsert env >> mark_embedded env memory_id c) (λ e. pure tt)) _ u
                (Keeps-Busy id "save" done _ (index-Keeps env memory_id c) u still)
                λ _ v kept. complete_task-Busy env up wf before base id "save" done _ v kept)

  pub approval_step-Run :
      (done : Labels) (c : Commit) (eng : EngineeringSummary) (soc : SocialDraft) (w : World R)
      → Idle wf before base running done w
      → StepEnds "request_approval" done (approval_step env wf c eng soc) w
  unfolding approval_step
  approval_step-Run done c eng soc w h =
      >>=-Run (create_task env "request_approval" wf (sha_of c)) _ w
        (create_task-Idle env up wf before base "request_approval" done _ w h)
        λ id t busy. guarded-Run env up wf before base "approval" id "request_approval" done _ t (
          >>=-Run (send env (approval_request wf id c eng soc)) _ t
            (Keeps-Busy id "request_approval" done _ (send-Keeps env _) t busy)
            λ approval_id u still.
              close_step id "request_approval" done _ "approval_sent" _ approval_id u still)
