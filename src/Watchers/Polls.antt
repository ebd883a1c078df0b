-- ===== src/Watchers/Polls.antt =====
-- The methods `run` of core/watchers/integrity_watcher.py and ci_watcher.py: a check at once, and then one
-- whenever the interval has passed, until the stop event is set.
use wiseorder.Prelude.{String, List, [], ◌∷◌, if◌then◌else◌}
use wiseorder.Prelude.Text.{str_eq}
use wiseorder.Values.{Value, Fields}
use wiseorder.Exec.{Result}
use wiseorder.Watchers.Integrity.{IntegrityWatcher, Verification, check_once}
use wiseorder.Watchers.Ci.{CiCheck, GhOutcome, check_all}

-- What the loop meets next: the event is set at its test, the wait for the event returns, or it times
-- out, and A is what the check then finds.
pub data Wait (A : Type 0) : Type 0 where
  stopped woken : Wait A
  timed_out : (found : A) → Wait A

module _ {S A : Type 0} (check : S → A → S) where
  unfoldable pub poll : S → List (Wait A) → S
  poll s [] = s
  poll s (stopped ∷ waits) = s
  poll s (woken ∷ waits) = s
  poll s (timed_out found ∷ waits) = poll (check s found) waits

  -- What a watcher has become, given what its first check finds and what its loop meets.
  unfoldable pub run : S → A → List (Wait A) → S
  unfolding poll
  run s found waits = poll (check s found) waits

-- What the timeouts before the first stop find.
abbrev pub before_stop : {A : Type 0} → List (Wait A) → List A
before_stop [] = []
before_stop (stopped ∷ waits) = []
before_stop (woken ∷ waits) = []
before_stop (timed_out found ∷ waits) = found ∷ before_stop waits

-- IntegrityWatcher.run
unfoldable pub run_integrity :
    IntegrityWatcher
    → String × Verification
    → List (Wait (String × Verification))
    → IntegrityWatcher
unfolding run check_once
run_integrity = run (λ w (ts, found). (check_once w ts found).1)

-- {r: [] for r in repos}
abbrev pub add_empty : String → List (String × List CiCheck) → List (String × List CiCheck)
add_empty repo [] = (repo, []) ∷ []
add_empty repo ((r, checks) ∷ rest) =
    let others = add_empty repo rest in
    if str_eq r repo then (r, []) ∷ rest else (r, checks) ∷ others

abbrev pub add_empties : List String → List (String × List CiCheck) → List (String × List CiCheck)
add_empties [] history = history
add_empties (repo ∷ repos) history = add_empties repos (add_empty repo history)

unfoldable pub no_checks : List String → List (String × List CiCheck)
no_checks repos = add_empties repos []

-- CIWatcher.run, where each check finds what gh does for each repository and the time.
unfoldable pub run_ci :
    (String → Result (List Fields))
    → (Value → String)
    → List String
    → List (String × List CiCheck)
    → (String → String × GhOutcome)
    → List (Wait (String → String × GhOutcome))
    → List (String × List CiCheck)
unfolding run check_all
run_ci loads py_str repos = run (λ history outcome. check_all loads py_str outcome repos history)
