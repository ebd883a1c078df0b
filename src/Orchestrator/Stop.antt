-- ===== src/Orchestrator/Stop.antt =====
-- core/orchestrator/main.py: the stop of the orchestrator. How the tasks end that it waits for is a
-- parameter; stopping the watchers and closing the queue are taken to return.
use wiseorder.Prelude.{ℕ, zero, suc, Bool, true, false, List, [], ◌∷◌, ◌++◌, if◌then◌else◌}
use wiseorder.Exec.{Exn, Result, ok, err}

-- The tasks that `start` creates.
pub data Service : Type 0 where
  worker : (i : ℕ) → Service
  api_server integrity_watcher ci_watcher daily_summary : Service

-- What `stop` does; `wait s` is `asyncio.wait_for` or, for a worker, its share of `asyncio.gather`.
pub data Action : Type 0 where
  set_stop stop_observer stop_integrity stop_ci exit_server close_queue : Action
  cancel wait : (s : Service) → Action

-- A task that is waited for ends, is still running after the timeout (or raised a TimeoutError itself),
-- was cancelled, or has raised another exception.
pub data TaskEnd : Type 0 where
  ended still_running : TaskEnd
  cancelled has_raised : (e : Exn) → TaskEnd

-- The attributes that are not None, and how many workers there are.
pub record Started : Type 0 where
  pub num_workers : ℕ
  pub observer : Bool
  pub integrity : Bool
  pub ci : Bool
  pub integrity_task : Bool
  pub ci_task : Bool
  pub daily_task : Bool
  pub server : Bool
  pub api_task : Bool

-- Actions that were done, and whether the last one raised.
abbrev pub Done : Type 0
Done = Result (Unit {0}) × List Action

infixl 5 ◌then◌
abbrev pub ◌then◌ : Done → Done → Done
(ok u, xs) then (r, ys) = (r, xs ++ ys)
(err e, xs) then next = (err e, xs)

abbrev pub only_if : Bool → Action → List Action
only_if true a = a ∷ []
only_if false a = []

-- Everything is told to end.
unfoldable pub tell : Started → List Action
tell o =
    set_stop
    ∷ (only_if o.observer stop_observer
        ++ (only_if o.integrity stop_integrity
            ++ (only_if o.ci stop_ci
                ++ (only_if o.integrity_task (cancel integrity_watcher)
                    ++ (only_if o.ci_task (cancel ci_watcher)
                        ++ (only_if o.daily_task (cancel daily_summary)
                            ++ only_if o.server exit_server))))))

-- wait_for(self._api_task, 5): the task is cancelled on a timeout, and any other exception goes on.
unfoldable pub wait_api : TaskEnd → Done
wait_api (has_raised e) = (err e, wait api_server ∷ [])
wait_api (cancelled e) = (err e, wait api_server ∷ [])
wait_api still_running = (ok tt, wait api_server ∷ cancel api_server ∷ [])
wait_api ended = (ok tt, wait api_server ∷ [])

-- gather(*workers, return_exceptions=True)
unfoldable pub gather : ℕ → List Action
gather zero = []
gather (suc n) = gather n ++ wait (worker n) ∷ []

-- The loop over the background tasks that are there: a timeout and a cancellation are passed over.
unfoldable pub wait_each : (Service → TaskEnd) → List (Bool × Service) → Done
wait_each ends [] = (ok tt, [])
wait_each ends ((there, s) ∷ rest) =
    let later = wait_each ends rest in
    if there
    then elim (ends s) [ has_raised e ↦ (err e, wait s ∷ []) | _ ↦ (ok tt, wait s ∷ []) then later ]
    else later

abbrev pub background_tasks : Started → List (Bool × Service)
background_tasks o =
    (o.integrity_task, integrity_watcher)
    ∷ (o.ci_task, ci_watcher)
    ∷ (o.daily_task, daily_summary)
    ∷ []

unfoldable pub stop : (Service → TaskEnd) → Started → Done
unfolding tell wait_api gather wait_each
stop ends o =
    (ok tt, tell o)
    then (if o.api_task then wait_api (ends api_server) else (ok tt, []))
    then (ok tt, gather o.num_workers)
    then wait_each ends (background_tasks o)
    then (ok tt, close_queue ∷ [])
