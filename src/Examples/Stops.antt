-- ===== src/Examples/Stops.antt =====
-- The stop of the orchestrator, where the API has refused its address.
use wiseorder.Prelude.{◌≡◌, refl, true, false, List, [], ◌∷◌, ◌++◌}
use wiseorder.Exec.{Exn, err, raised, runtime_error}
use wiseorder.Orchestrator.Stop.{
  Service, api_server, Action, set_stop, stop_observer, stop_integrity, stop_ci, cancel, wait,
  integrity_watcher, ci_watcher, daily_summary, TaskEnd, ended, has_raised, Started, tell, stop,
}
use wiseorder.Orchestrator.Stopped.{Ended, stop-lem}

abbrev started : Started
started = record {
  num_workers = 2;
  observer = true;
  integrity = true;
  ci = true;
  integrity_task = true;
  ci_task = true;
  daily_task = true;
  server = false;
  api_task = true;
}

abbrev refused : Exn
refused = raised runtime_error "refusing to bind to non-loopback host '0.0.0.0'"

abbrev ends : Service → TaskEnd
ends api_server = has_raised refused
ends s = ended

stop-lem_example :
    Ended ends started (stop ends started)
    × ((rest : List Action) × ((stop ends started).1 ≡ tell started ++ rest))
stop-lem_example = stop-lem ends started

-- The workers are not waited for.
workers_left : stop ends started ≡ (
  err refused,
  set_stop
      ∷ stop_observer
      ∷ stop_integrity
      ∷ stop_ci
      ∷ cancel integrity_watcher
      ∷ cancel ci_watcher
      ∷ cancel daily_summary
      ∷ wait api_server
      ∷ [],
)
unfolding stop
workers_left = refl
