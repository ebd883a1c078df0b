-- ===== src/Events.antt =====
-- core/events/watcher.py: the watcher of the heads of git repositories. What git prints is a parameter
-- of each step (`none` where it fails).
pub mod Chain
pub mod Start
pub mod Emitted
use wiseorder.Prelude.{
  ℕ, String, Bool, true, false, not, ◌&&◌, ◌||◌, Option, none, some, List, [], ◌∷◌, any, ltb,
  if◌then◌else◌,
}
use wiseorder.Prelude.Text
use wiseorder.Prelude.Text.{str_eq, concat, is_empty, contains, count, strip}
use wiseorder.Values.{Fields, field, text, opt_text, end}
use wiseorder.Exec.{Result, ok, err, Exn, Exec, lift, ◌>>=◌}
use wiseorder.Job.{Job, new}
use wiseorder.Queue
use wiseorder.Queue.{normal}
use wiseorder.Runtime.{World, Env, on_redis}

pub record GitCommitEvent : Type 0 where
  pub repo : String
  pub sha : String
  pub author : String
  pub subject : String
  pub diff : String

-- The repository of a handler, and the last head that it has seen.
pub record GitHeadHandler : Type 0 where
  pub repo_path : String
  pub last_sha : Option String

-- A call of _emit_commit: the previous head and the new one.
pub record Emission : Type 0 where
  pub prev_sha : Option String
  pub new_sha : String

-- The event loop is missing or closed, refuses the call, or takes it.
pub data LoopState : Type 0 where
  unavailable refuses takes : LoopState

-- The path of a file event: its text, its parts and its name.
pub record EventPath : Type 0 where
  pub whole : String
  pub parts : List String
  pub name : String

unfoldable pub is_head_path : EventPath → Bool
is_head_path src =
    any (str_eq ".git") src.parts
    && (str_eq src.name "HEAD"
        || str_eq src.name "ORIG_HEAD"
        || contains "refs/heads" src.whole
        || contains "logs/HEAD" src.whole)

abbrev pub differs : String → Option String → Bool
differs sha none = true
differs sha (some last) = not (str_eq sha last)

-- `new_sha and new_sha != self._last_sha`
abbrev pub moved_to : Option String → Option String → Option String
moved_to last none = none
moved_to last (some sha) = if not (is_empty sha) && differs sha last then some sha else none

abbrev emitted : LoopState → Option String → String → List Emission
emitted takes prev sha = record { prev_sha = prev; new_sha = sha } ∷ []
emitted unavailable prev sha = []
emitted refuses prev sha = []

-- The head has been read: it is kept if it has moved, and the commit is emitted if the loop takes it.
unfoldable pub notice : GitHeadHandler → Option String → LoopState → GitHeadHandler × List Emission
notice h current loop = elim (moved_to h.last_sha current) [
  | none ↦ (h, [])
  | some sha ↦ (record h { last_sha = some sha }, emitted loop h.last_sha sha)
]

unfoldable pub on_any_event :
    GitHeadHandler → EventPath → Option String → LoopState → GitHeadHandler × List Emission
unfolding notice
on_any_event h src current loop = if is_head_path src then notice h current loop else (h, [])

-- _reconcile_after_start, of one handler after another, given what git says of each repository.
unfoldable pub reconcile_after_start :
    (String → Option String)
    → (String → LoopState)
    → List GitHeadHandler
    → List (GitHeadHandler × List Emission)
unfolding notice
reconcile_after_start current loop [] = []
reconcile_after_start current loop (h ∷ hs) =
    notice h (current h.repo_path) (loop h.repo_path) ∷ reconcile_after_start current loop hs

-- The handlers that EventWatcher.start makes: one for each path with a `.git`, with the head at that time.
unfoldable pub handlers_of :
    (String → Bool) → (String → Option String) → List String → List GitHeadHandler
handlers_of is_git head [] = []
handlers_of is_git head (repo ∷ repos) =
    let rest = handlers_of is_git head repos in
    if is_git repo then record { repo_path = repo; last_sha = head repo } ∷ rest else rest

-- EventWatcher.start, with what git says before the observer has started and after.
unfoldable pub start_watching :
    (String → Bool)
    → (before after : String → Option String) → (String → LoopState)
    → List String
    → List (GitHeadHandler × List Emission)
unfolding handlers_of reconcile_after_start
start_watching is_git before after loop repos =
    reconcile_after_start after loop (handlers_of is_git before repos)

-- What `git log` prints, decoded as UTF-8; it may be no UTF-8, for which decode() raises e, or git may
-- be missing or fail.
pub data Printed : Type 0 where
  prints : (s : String) → Printed
  not_text : (e : Exn) → Printed
  fails : Printed

-- What git prints of a commit; the diff is decoded with errors="replace", which never raises.
pub record GitOutput : Type 0 where
  pub author : Printed
  pub subject : Printed
  pub diff : Option String

abbrev pub stripped : String → Printed → Result String
stripped default (prints s) = ok (strip s)
stripped default (not_text e) = err e
stripped default fails = ok default

unfoldable pub truncate_diff : Option String → String
truncate_diff none = ""
truncate_diff (some d) =
    if ltb 200000 (count d) then concat (Text.take 200000 d ∷ "\n\n[diff truncated]\n" ∷ []) else d

-- _read_commit, with the repository and the sha
unfoldable pub read_commit : String → String → GitOutput → Result GitCommitEvent
unfolding truncate_diff
read_commit repo sha out = elim (stripped "unknown" out.author) [
  | err e ↦ err e
  | ok author ↦ elim (stripped "" out.subject) [
    | err e ↦ err e
    | ok subject ↦ ok (record {
      repo = repo;
      sha = sha;
      author = author;
      subject = subject;
      diff = truncate_diff out.diff;
    })
  ]
]

abbrev pub commit_payload : GitCommitEvent → Option String → Fields
commit_payload event prev_sha = field "repo" (text event.repo) (
    field "sha" (text event.sha) (
      field "prev_sha" (opt_text prev_sha) (
        field "author" (text event.author)
          (field "subject" (text event.subject) (field "diff" (text event.diff) end)))))

-- _emit_commit, with the id and the time that Job.new takes
unfoldable pub emit_commit :
    {R : Type 0}
    → Env R
    → String
    → String
    → String
    → Emission
    → GitOutput
    → Exec (World R) (Unit {0})
unfolding read_commit
emit_commit env uuid now repo e out = do
  event ← lift (read_commit repo e.new_sha out)
  on_redis (
      Queue.enqueue env.redis env.json
        (new uuid now "commit_pipeline" (commit_payload event e.prev_sha) none none) normal)
