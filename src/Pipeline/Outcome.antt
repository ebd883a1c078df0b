-- ===== src/Pipeline/Outcome.antt =====
-- How a run of the pipeline ends, where the database takes every transaction.
use wiseorder.Prelude.{ℕ, ◌<◌, String, ◌≡◌, none, List, [], ◌∷◌, zero, suc, arith}
use wiseorder.Values.{end}
use wiseorder.Exec.{Result}
use wiseorder.Exec.Ends.{Ends, returns, Run, >>=-Run, Ends-weaken}
use wiseorder.Db.{running, completed, failed, Task, Workflow}
use wiseorder.Runtime.{World, Env}
use wiseorder.Steps.{complete_workflow}
use wiseorder.Steps.Rows.{Labels}
use wiseorder.Steps.Effects.{step_label, Idle, complete_workflow-Idle}
use wiseorder.Pipeline.{run_pipeline_steps, summarize_step, draft_step, save_step, approval_step}
use wiseorder.Pipeline.Records.{Commit, task_chain}
use wiseorder.Pipeline.Stages.{summarize_step-Run, draft_step-Run, save_step-Run, approval_step-Run}

-- The labels of the first n tasks of the chain, completed.
abbrev pub all_completed : ℕ → List String → Labels
all_completed wf [] = []
all_completed wf (type ∷ types) = step_label wf type completed ∷ all_completed wf types

-- The labels where the task after the first n has failed, and no later one was created.
abbrev pub stopped_at : ℕ → ℕ → List String → Labels
stopped_at wf n [] = []
stopped_at wf zero (type ∷ types) = step_label wf type failed ∷ []
stopped_at wf (suc n) (type ∷ types) = step_label wf type completed ∷ stopped_at wf n types

module _ {R : Type 0} (wf : ℕ) (before : List Workflow) (base : List Task) where
  -- The workflow is completed, and so are its four tasks, the only ones added.
  unfoldable pub Completed : World R → Type 0
  Completed = Idle wf before base completed (all_completed wf task_chain)

  -- The workflow is failed: some step of the chain failed after the earlier ones had completed, and
  -- no later one was begun.
  pub record Stopped (w : World R) : Type 0 where
    pub step : ℕ
    pub in_chain : step < 4
    pub idle : Idle wf before base failed (stopped_at wf step task_chain) w

module _ {R : Type 0} (env : Env R) (up : (n : ℕ) → env.postgres.refuses n ≡ none) (wf : ℕ)
    (before : List Workflow) (base : List Task) where
  -- From a running workflow with no task added yet, the steps return with the workflow completed, or
  -- raise with the workflow failed. It never stays running, and no other workflow changes.
  pub run_pipeline_steps-Run :
      (c : Commit) (w : World R)
      → Idle wf before base running [] w
      → Run
          (λ _. Completed wf before base)
          (λ _. Stopped wf before base)
          (run_pipeline_steps env wf c)
          w
  unfolding run_pipeline_steps Completed
  run_pipeline_steps-Run c w h =
      >>=-Run (summarize_step env wf c) _ w
        (stop 0 (omega arith) (summarize_step-Run env up wf before base [] c w h))
        λ eng w₁ h₁.
          >>=-Run (draft_step env wf c eng) _ w₁
            (stop 1 (omega arith) (draft_step-Run env up wf before base _ c eng w₁ h₁))
            λ soc w₂ h₂.
              >>=-Run (save_step env wf c eng) _ w₂
                (stop 2 (omega arith) (save_step-Run env up wf before base _ c eng w₂ h₂))
                λ _ w₃ h₃.
                  >>=-Run (approval_step env wf c eng soc) _ w₃
                    (stop 3 (omega arith)
                      (approval_step-Run env up wf before base _ c eng soc w₃ h₃))
                    λ id w₄ h₄.
                      >>=-Run (complete_workflow env "workflow_completed" end wf) _ w₄
                        (complete_workflow-Idle env up wf before base running _ "workflow_completed"
                          end w₄ h₄)
                        λ _ w₅ h₅. returns h₅
    where
      stop :
          {A : Type 0} {Q : A → World R → Type 0} (n : ℕ)
          → n < 4
          → {r : Result A} {t : World R}
          → Ends Q (λ _. Idle wf before base failed (stopped_at wf n task_chain)) t r
          → Ends Q (λ _. Stopped wf before base) t r
      stop n lt e = Ends-weaken e (λ a q. q) (λ x i. record { step = n; in_chain = lt; idle = i })
