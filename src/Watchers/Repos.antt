-- ===== src/Watchers/Repos.antt =====
-- What the CI watcher keeps of all the checks that it makes of a repository.
use wiseorder.Prelude.{
  String, arith, ◌≡◌, refl, sym, ap, ◌∙◌, List, [], ◌∷◌, ◌++◌, last_n, if◌then◌else◌, Bool-cases,
  inl, inr, eq_iff,
}
use mathlib.Core.List.{append_assoc, append-nil}
use wiseorder.Prelude.Text.{str_eq}
use wiseorder.Prelude.Last.{last_n-append}
use wiseorder.Values.{Value, Fields}
use wiseorder.Exec.{Result}
use wiseorder.Watchers.Integrity.{bounded}
use wiseorder.Watchers.Ci.{CiCheck, GhOutcome, check_one, record_check, check_all}
use wiseorder.Watchers.Kept.{bounded-last_n}
use wiseorder.Watchers.Polls.{
  Wait, stopped, woken, timed_out, poll, before_stop, run_ci, no_checks, add_empty, add_empties,
}

abbrev Histories : Type 0
Histories = List (String × List CiCheck)

abbrev Round : Type 0
Round = String → String × GhOutcome

-- The checks of a repository.
pub history_of : String → Histories → List CiCheck
history_of r [] = []
history_of r ((k, checks) ∷ rest) =
    let others = history_of r rest in if str_eq k r then checks else others

add_empty-history :
    (r repo : String) (h : Histories) → history_of r h ≡ [] → history_of r (add_empty repo h) ≡ []
unfolding history_of
add_empty-history r repo [] e = elim (Bool-cases (str_eq repo r)) [ inl p ↦ rw p | inr p ↦ rw p ]
add_empty-history r repo ((k, checks) ∷ rest) e =
    ground (arith, eq_iff k repo, eq_iff k r, add_empty-history r repo rest)

no_checks-history :
    (r : String) (repos : List String) (h : Histories)
    → history_of r h ≡ []
    → history_of r (add_empties repos h) ≡ []
no_checks-history r [] h e = e
no_checks-history r (repo ∷ repos) h e =
    no_checks-history r repos (add_empty repo h) (add_empty-history r repo h e)

module _ (loads : String → Result (List Fields)) (py_str : Value → String) where
  -- What one round finds of the repository r, once for each time that it is listed.
  pub found_in : String → List String → Round → List CiCheck
  found_in r [] outcome = []
  found_in r (repo ∷ repos) outcome =
      let rest = found_in r repos outcome in
      if str_eq repo r
      then check_one loads py_str (outcome repo).0 repo (outcome repo).1 ∷ rest
      else rest

  pub found_over : String → List String → List Round → List CiCheck
  unfolding found_in
  found_over r repos [] = []
  found_over r repos (outcome ∷ rounds) = found_in r repos outcome ++ found_over r repos rounds

  record_check-history :
      (r repo : String) (check : CiCheck) (h : Histories)
      → history_of r (record_check loads py_str repo check h)
        ≡ (if str_eq repo r then bounded 50 (history_of r h ++ check ∷ []) else history_of r h)
  unfolding history_of record_check
  record_check-history r repo check [] = refl
  record_check-history r repo check ((k, checks) ∷ rest) =
      ground
        (arith, eq_iff k repo, eq_iff repo r, eq_iff k r, record_check-history r repo check rest)

  -- A round adds what it finds, and keeps the last 50.
  check_all-history :
      (r : String) (repos : List String) (outcome : Round) (xs : List CiCheck) (h : Histories)
      → history_of r h ≡ last_n 50 xs
      → history_of r (check_all loads py_str outcome repos h)
        ≡ last_n 50 (xs ++ found_in r repos outcome)
  unfolding check_all found_in
  check_all-history r [] outcome xs h e = e ∙ ap (last_n 50) (sym (append-nil xs))
  check_all-history r (repo ∷ repos) outcome xs h e = elim (Bool-cases (str_eq repo r)) [
    | inl p ↦
        let check = check_one loads py_str (outcome repo).0 repo (outcome repo).1 in
        rw p (
          check_all-history r repos outcome (xs ++ check ∷ [])
            (record_check loads py_str repo check h)
            (record_check-history r repo check h
              ∙ rw p (
                  bounded-last_n 50 (history_of r h ++ check ∷ [])
                  ∙ ap (λ ys. last_n 50 (ys ++ check ∷ [])) e
                  ∙ last_n-append 50 xs (check ∷ [])))
          ∙ ap (last_n 50) (append_assoc xs (check ∷ []) (found_in r repos outcome)))
    | inr p ↦
        let check = check_one loads py_str (outcome repo).0 repo (outcome repo).1 in
        rw p (
          check_all-history r repos outcome xs (record_check loads py_str repo check h)
            (record_check-history r repo check h ∙ rw p e))
  ]

  poll-history :
      (r : String) (repos : List String) (waits : List (Wait Round)) (xs : List CiCheck)
      (h : Histories)
      → history_of r h ≡ last_n 50 xs
      → history_of r (poll (λ s outcome. check_all loads py_str outcome repos s) h waits)
        ≡ last_n 50 (xs ++ found_over r repos (before_stop waits))
  unfolding poll found_over
  poll-history r repos [] xs h e = e ∙ ap (last_n 50) (sym (append-nil xs))
  poll-history r repos (stopped ∷ waits) xs h e = e ∙ ap (last_n 50) (sym (append-nil xs))
  poll-history r repos (woken ∷ waits) xs h e = e ∙ ap (last_n 50) (sym (append-nil xs))
  poll-history r repos (timed_out outcome ∷ waits) xs h e =
      poll-history r repos waits (xs ++ found_in r repos outcome)
        (check_all loads py_str outcome repos h) (check_all-history r repos outcome xs h e)
      ∙ ap (last_n 50)
          (append_assoc xs (found_in r repos outcome) (found_over r repos (before_stop waits)))

  -- The CI watcher is run until its stop event is set: for every repository it keeps
  -- the last 50 of all the checks that it has made of it, in their order.
  pub run_ci-history :
      (r : String) (repos : List String) (first : Round) (waits : List (Wait Round))
      → history_of r (run_ci loads py_str repos (no_checks repos) first waits)
        ≡ last_n 50 (found_over r repos (first ∷ before_stop waits))
  unfolding run_ci found_over history_of no_checks
  run_ci-history r repos first waits =
      poll-history r repos waits (found_in r repos first)
        (check_all loads py_str first repos (no_checks repos))
        (check_all-history r repos first [] (no_checks repos) (no_checks-history r repos [] refl))
