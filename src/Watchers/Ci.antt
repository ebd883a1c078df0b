-- ===== src/Watchers/Ci.antt =====
-- core/watchers/ci_watcher.py, the class CIWatcher. What `gh run list` does is a parameter of each
-- check, and so are json.loads of a list of objects, with its JSONDecodeError, and Python's `str` of a
-- value that is no text. What gh prints is taken to be UTF-8, and its JSON, where it is any, a list of
-- objects, as `--json` documents: for anything else the code raises, which is not modelled.
use Prim.Native.String.{compare}
use Prim.Native.Nat.{Ordering}
use wiseorder.Prelude.{
  zero, String, Bool, true, false, not, ◌&&◌, ◌||◌, Option, none, some, List, [], ◌∷◌, ◌++◌, map,
  keep, any, length, take, if◌then◌else◌,
}
use wiseorder.Prelude.Text
use wiseorder.Prelude.Text.{str_eq, concat, is_empty, lower, strip, contains}
use wiseorder.Prelude.Decimal.{str}
use wiseorder.Values.{Value, text, null, flag, num, arr, obj, nil, end, Fields, lookup}
use wiseorder.Exec.{Result, ok, err}
use wiseorder.Watchers.Integrity.{bounded}

pub record WorkflowRun : Type 0 where
  pub repo : String
  pub name : String
  pub status : String
  pub conclusion : String
  pub head_sha : String
  pub created_at : String
  pub url : String

pub record CiCheck : Type 0 where
  pub ts : String
  pub repo : String
  pub status : String
  pub note : String
  pub failed_runs : List WorkflowRun
  pub in_flight_runs : List WorkflowRun
  pub flaky_workflows : List String

-- What the call of gh does; a return code other than 0 is given as it prints.
pub data GhOutcome : Type 0 where
  not_installed timed_out : GhOutcome
  not_started : (e : String) → GhOutcome
  refused : (returncode stderr : String) → GhOutcome
  listed : (stdout : String) → GhOutcome

abbrev error_check : String → String → String → CiCheck
error_check ts repo note = record {
  ts = ts;
  repo = repo;
  status = "ERROR";
  note = note;
  failed_runs = [];
  in_flight_runs = [];
  flaky_workflows = [];
}

abbrev pub is_failed : WorkflowRun → Bool
is_failed r = str_eq r.status "completed" && str_eq r.conclusion "failure"

abbrev pub is_in_flight : WorkflowRun → Bool
is_in_flight r = str_eq r.status "queued" || str_eq r.status "in_progress"

-- An entry of `seen`: a key, and the set of its conclusions.
pub record Seen : Type 0 where
  pub name : String
  pub sha : String
  pub conclusions : List String

abbrev pub has_key_of : WorkflowRun → Seen → Bool
has_key_of r s = str_eq s.name r.name && str_eq s.sha r.head_sha

-- seen.setdefault(key, set()).add(r.conclusion)
unfoldable pub add_conclusion : WorkflowRun → List Seen → List Seen
add_conclusion r [] =
    record { name = r.name; sha = r.head_sha; conclusions = r.conclusion ∷ [] } ∷ []
add_conclusion r (s ∷ ss) =
    let rest = add_conclusion r ss in
    if has_key_of r s
    then record s { conclusions = r.conclusion ∷ s.conclusions } ∷ ss
    else s ∷ rest

abbrev pub concluded : WorkflowRun → Bool
concluded r = str_eq r.status "completed" && not (is_empty r.conclusion)

unfoldable pub seen_in : List WorkflowRun → List Seen → List Seen
unfolding add_conclusion
seen_in [] seen = seen
seen_in (r ∷ rs) seen = seen_in rs (if concluded r then add_conclusion r seen else seen)

-- flaky.add(name), in the order of `sorted`
unfoldable pub add_sorted : String → List String → List String
add_sorted n [] = n ∷ []
add_sorted n (m ∷ ms) =
    let rest = add_sorted n ms in
    elim (compare n m) [ Ordering.lt ↦ n ∷ m ∷ ms | Ordering.eq ↦ m ∷ ms | Ordering.gt ↦ m ∷ rest ]

abbrev pub is_flaky : Seen → Bool
is_flaky s = any (str_eq "failure") s.conclusions && any (str_eq "success") s.conclusions

unfoldable pub flaky_names : List Seen → List String
unfolding add_sorted
flaky_names [] = []
flaky_names (s ∷ ss) =
    let rest = flaky_names ss in if is_flaky s then add_sorted s.name rest else rest

unfoldable pub detect_flaky_workflows : List WorkflowRun → List String
unfolding seen_in flaky_names
detect_flaky_workflows runs = flaky_names (seen_in runs [])

abbrev pub is_nil : {A : Type 0} → List A → Bool
is_nil [] = true
is_nil (x ∷ xs) = false

-- The status and the note of a list of runs.
unfoldable pub classify : List WorkflowRun → List WorkflowRun → List String → String × String
classify failed in_flight flaky =
    if not (is_nil failed && is_nil flaky)
    then (
      "WARN",
      concat (
          str (length failed)
          ∷ " failed run(s), "
          ∷ str (length flaky)
          ∷ " flaky workflow(s)"
          ∷ []),
    )
    else if not (is_nil in_flight)
    then ("OK", concat (str (length in_flight) ∷ " run(s) in flight" ∷ []))
    else ("OK", "all recent runs green")

module _ (loads : String → Result (List Fields)) (py_str : Value → String) where
  str_of : String → Option Value → String
  str_of default none = default
  str_of default (some (text s)) = s
  str_of default (some v) = py_str v

  -- str(r.get("conclusion") or "")
  conclusion_of : Option Value → String
  unfolding str_of
  conclusion_of (some null) = ""
  conclusion_of (some (flag false)) = ""
  conclusion_of (some (num zero)) = ""
  conclusion_of (some (arr nil)) = ""
  conclusion_of (some (obj end)) = ""
  conclusion_of v = str_of "" v

  read_run : String → Fields → WorkflowRun
  unfolding lookup str_of conclusion_of
  read_run repo r = record {
    repo = repo;
    name = str_of "?" (lookup "name" r);
    status = str_of "?" (lookup "status" r);
    conclusion = conclusion_of (lookup "conclusion" r);
    head_sha = str_of "" (lookup "headSha" r);
    created_at = str_of "" (lookup "createdAt" r);
    url = str_of "" (lookup "url" r);
  }

  unfoldable pub check_runs : String → String → List WorkflowRun → CiCheck
  unfolding detect_flaky_workflows classify
  check_runs ts repo runs =
      let failed = keep is_failed runs in
      let in_flight = keep is_in_flight runs in
      let flaky = detect_flaky_workflows runs in
      record {
        ts = ts;
        repo = repo;
        status = (classify failed in_flight flaky).0;
        note = (classify failed in_flight flaky).1;
        failed_runs = take 5 failed;
        in_flight_runs = take 5 in_flight;
        flaky_workflows = flaky;
      }

  read_listed : String → String → Result (List Fields) → CiCheck
  unfolding check_runs read_run
  read_listed ts repo (err e) = error_check ts repo (concat ("json parse: " ∷ e.message ∷ []))
  read_listed ts repo (ok rows) = check_runs ts repo (map (read_run repo) rows)

  -- _check_one(repo), at the time ts
  unfoldable pub check_one : String → String → GhOutcome → CiCheck
  unfolding read_listed
  check_one ts repo not_installed = error_check ts repo "gh CLI not installed"
  check_one ts repo timed_out = error_check ts repo "gh run list timed out (30s)"
  check_one ts repo (not_started e) =
      error_check ts repo (concat ("gh subprocess error: " ∷ e ∷ []))
  check_one ts repo (refused returncode stderr) =
      let err_text = strip stderr in
      error_check ts repo (
        if contains "auth" (lower err_text)
        then "gh not authenticated"
        else concat ("gh rc=" ∷ returncode ∷ ": " ∷ Text.take 200 err_text ∷ []))
  check_one ts repo (listed stdout) = read_listed ts repo (loads stdout)

  -- self.history: for each repository the checks so far. A repository that is not there is added.
  unfoldable pub record_check :
      String → CiCheck → List (String × List CiCheck) → List (String × List CiCheck)
  record_check repo check [] = (repo, bounded 50 (check ∷ [])) ∷ []
  record_check repo check ((r, checks) ∷ rest) =
      let others = record_check repo check rest in
      if str_eq r repo then (r, bounded 50 (checks ++ check ∷ [])) ∷ rest else (r, checks) ∷ others

  -- _check_all, given what gh does for each repository and the time of the check
  unfoldable pub check_all :
      (String → String × GhOutcome)
      → List String
      → List (String × List CiCheck)
      → List (String × List CiCheck)
  unfolding record_check check_one
  check_all outcome [] history = history
  check_all outcome (repo ∷ repos) history =
      check_all outcome repos
        (record_check repo (check_one (outcome repo).0 repo (outcome repo).1) history)
