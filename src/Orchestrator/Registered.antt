-- ===== src/Orchestrator/Registered.antt =====
-- The registered handlers leave the lists of jobs alone, so that a worker's round needs no condition on
-- them.
use wiseorder.Prelude.{String, Bool-cases, ◌≡◌, refl, Option, none, some, [], ◌∷◌, inl, inr, subst}
use wiseorder.Prelude.Text.{str_eq}
use wiseorder.Values.{Fields}
use wiseorder.Exec.{ok}
use wiseorder.Job.{Job}
use wiseorder.Queue
use wiseorder.Queue.{QueueName, high, normal, failed}
use wiseorder.Queue.Lists.{Queues}
use wiseorder.Runtime.{World, Env, on_redis}
use wiseorder.Pipeline.{run_commit_pipeline}
use wiseorder.Forge.{run_demo_forge_request}
use wiseorder.Forge.Config.{ForgeConfig}
use wiseorder.Forge.Context.{run_demo_forge_request-Apart}
use wiseorder.Orchestrator.{Handler, handler_of, worker_round}
use wiseorder.Orchestrator.Handlers.{registered, commit_handler, forge_handler}
use wiseorder.Orchestrator.Jobs.{KeepJobs, HoldsJobs, Round, worker_round-Round}
use wiseorder.Orchestrator.Kept.{
  KeepsLists, KeepsLists-bind, Apart-KeepsLists, run_commit_pipeline-KeepsLists,
  KeepsLists-HoldsJobs,
}

module _ {R : Type 0} (env : Env R) (repr : String → String) (config : ForgeConfig) where
  pub commit_handler-KeepsLists : (p : Fields) → KeepsLists env (commit_handler env config p)
  commit_handler-KeepsLists p =
      KeepsLists-bind env (run_commit_pipeline env p) _ (run_commit_pipeline-KeepsLists env p)
        (λ r. record { at = λ w q. refl })

  forge_handler-KeepsLists : (p : Fields) → KeepsLists env (forge_handler env config p)
  forge_handler-KeepsLists p =
      KeepsLists-bind env (run_demo_forge_request env config p) _
        (Apart-KeepsLists env _ (run_demo_forge_request-Apart env config p))
        (λ r. record { at = λ w q. refl })

  registered-KeepsLists :
      (type : String) (h : Handler R)
      → handler_of (registered env config) type ≡ some h
      → (p : Fields) → KeepsLists env (h p)
  unfolding handler_of
  registered-KeepsLists type h e p = elim (Bool-cases (str_eq "commit_pipeline" type)) [
    | inl a ↦
        subst (λ (g : Handler R). KeepsLists env (g p)) (some_handler (rw a at e))
          (commit_handler-KeepsLists p)
    | inr a ↦ elim (Bool-cases (str_eq "demo_request" type)) [
      | inl b ↦
          subst (λ (g : Handler R). KeepsLists env (g p)) (some_handler (rw (a, b) at e))
            (forge_handler-KeepsLists p)
      | inr b ↦ (let c : ◌≡◌ {A = Option (Handler R)} none (some h) = rw (a, b) at e in cc)
    ]
  ]
    where
      some_handler : {g g' : Handler R} → ◌≡◌ {A = Option (Handler R)} (some g) (some g') → g ≡ g'
      some_handler q = cc

  registered-KeepJobs : KeepJobs env repr (registered env config)
  registered-KeepJobs type h e p w q holds =
      KeepsLists-HoldsJobs env repr (h p) (registered-KeepsLists type h e p) w q holds

  -- A round of a worker with the two handlers of the orchestrator, where the dequeue and the round
  -- returned: no job was waiting; or the oldest of the highest priority was taken off its list, and
  -- the handler of its type was called with its payload: it returned, or raised and the job is in the
  -- failed list, marked with the error; or no handler has its type and it is in the failed list, marked
  -- so. The rows are as the handler left them, and no other job was touched.
  pub registered-Round :
      (r : Option Job) (w w₁ t : World R) (q : Queues)
      → HoldsJobs env repr w q
      → on_redis (Queue.dequeue env.redis env.json (high ∷ normal ∷ [])) w ≡ (ok r, w₁)
      → worker_round env repr (registered env config) w ≡ (ok tt, t)
      → Round env repr (registered env config) w₁ q t
  registered-Round = worker_round-Round env repr (registered env config) registered-KeepJobs
