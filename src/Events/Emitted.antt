-- ===== src/Events/Emitted.antt =====
-- What becomes of a commit that is emitted.
use wiseorder.Prelude.{
  ◌≤◌, ◌<◌, some, ◌∷◌, ltb, Bool-cases, arith, String, ◌≡◌, refl, Option, none, [], ◌⊎◌, inl, inr,
  subst,
}
use wiseorder.Prelude.Text
use wiseorder.Prelude.Text.{strip, count, concat}
use wiseorder.Exec.{Result, ok, err, Exn, ok_inj, Result-cases}
use wiseorder.Exec.Ends.{Run}
use wiseorder.Job.{Job, new}
use wiseorder.Queue
use wiseorder.Queue.{normal}
use wiseorder.Queue.Lists.{Queues, Holds, add, enqueue-Holds}
use wiseorder.Runtime.{World, Env}
use wiseorder.Runtime.Commands.{on_redis-Run}
use wiseorder.Events.{
  Emission, GitOutput, Printed, prints, not_text, fails, GitCommitEvent, truncate_diff, read_commit,
  commit_payload, emit_commit,
}
use wiseorder.Pipeline.{commit_of, missing_keys}
use wiseorder.Pipeline.Records.{Commit}

-- The job of an event.
abbrev pub job_of : String → String → GitCommitEvent → Option String → Job
job_of uuid now event prev_sha =
    new uuid now "commit_pipeline" (commit_payload event prev_sha) none none

-- The commit as the pipeline reads it.
abbrev pub as_commit : GitCommitEvent → Commit
as_commit event = record {
  repo = event.repo;
  sha = event.sha;
  subject = event.subject;
  author = event.author;
  diff = event.diff;
}

-- What the pipeline reads in the job of an event.
pub commit_of-commit_payload :
    (event : GitCommitEvent) (prev_sha : Option String)
    → (commit_of (commit_payload event prev_sha) ≡ as_commit event)
      × (missing_keys (commit_payload event prev_sha) ≡ [])
unfolding wiseorder.Values.lookup
commit_of-commit_payload event prev_sha = (refl, refl)

-- Git printed an author or a subject that is no UTF-8.
abbrev pub Unreadable : GitOutput → Exn → Type 0
Unreadable out x = (out.author ≡ not_text x) ⊎ (out.subject ≡ not_text x)

abbrev printed : Printed → Printed → Option String → GitOutput
printed author subject diff = record { author = author; subject = subject; diff = diff }

read_commit-err :
    (repo sha : String) (author subject : Printed) (diff : Option String) (x : Exn)
    → read_commit repo sha (printed author subject diff) ≡ err x
    → Unreadable (printed author subject diff) x
unfolding read_commit
read_commit-err repo sha (not_text e) subject diff x h = inl (cc h)
read_commit-err repo sha (prints s) (not_text e) diff x h = inr (cc h)
read_commit-err repo sha fails (not_text e) diff x h = inr (cc h)
read_commit-err repo sha (prints s) (prints u) diff x h = cc h
read_commit-err repo sha (prints s) fails diff x h = cc h
read_commit-err repo sha fails (prints u) diff x h = cc h
read_commit-err repo sha fails fails diff x h = cc h

-- What is kept of a line that git printed, and the default where git failed.
pub IsLine : String → Printed → String → Type 0
IsLine default (prints s) line = line ≡ strip s
IsLine default fails line = line ≡ default
IsLine default (not_text e) line = ⊥

-- A diff is kept as it is up to 200000 characters; of a longer one these are kept, and a note follows.
pub IsDiff : Option String → String → Type 0
IsDiff none diff = diff ≡ ""
IsDiff (some d) diff =
    ((count d ≤ 200000) × (diff ≡ d))
    ⊎ ((200000 < count d) × (diff ≡ concat (Text.take 200000 d ∷ "\n\n[diff truncated]\n" ∷ [])))

truncate_diff-IsDiff : (out : Option String) → IsDiff out (truncate_diff out)
unfolding truncate_diff IsDiff
truncate_diff-IsDiff none = refl
truncate_diff-IsDiff (some d) = elim (Bool-cases (ltb 200000 (count d))) [
  | inl p ↦ rw p (inr (ground arith, refl))
  | inr p ↦ rw p (inl (ground arith, refl))
]

-- The commit named, with its author, its subject and its diff.
abbrev pub Describes : String → String → GitOutput → GitCommitEvent → Type 0
Describes repo sha out event =
    ((event.repo ≡ repo) × (event.sha ≡ sha))
    × IsLine "unknown" out.author event.author
    × IsLine "" out.subject event.subject
    × IsDiff out.diff event.diff

same_event :
    (repo sha : String) (out : GitOutput) {r event : GitCommitEvent}
    → Describes repo sha out r
    → ◌≡◌ {A = Result GitCommitEvent} (ok r) (ok event)
    → Describes repo sha out event
same_event repo sha out d h = subst (Describes repo sha out) (ok_inj h) d

read_commit-ok :
    (repo sha : String) (author subject : Printed) (diff : Option String) (event : GitCommitEvent)
    → read_commit repo sha (printed author subject diff) ≡ ok event
    → Describes repo sha (printed author subject diff) event
unfolding read_commit IsLine
read_commit-ok repo sha (not_text e) subject diff event h = cc h
read_commit-ok repo sha (prints s) (not_text e) diff event h = cc h
read_commit-ok repo sha fails (not_text e) diff event h = cc h
read_commit-ok repo sha (prints s) (prints u) diff event h =
    same_event repo sha (printed (prints s) (prints u) diff)
      ((refl, refl), refl, refl, truncate_diff-IsDiff diff) h
read_commit-ok repo sha (prints s) fails diff event h =
    same_event repo sha (printed (prints s) fails diff)
      ((refl, refl), refl, refl, truncate_diff-IsDiff diff) h
read_commit-ok repo sha fails (prints u) diff event h =
    same_event repo sha (printed fails (prints u) diff)
      ((refl, refl), refl, refl, truncate_diff-IsDiff diff) h
read_commit-ok repo sha fails fails diff event h =
    same_event repo sha (printed fails fails diff)
      ((refl, refl), refl, refl, truncate_diff-IsDiff diff) h

module _ {R : Type 0} (env : Env R) (uuid now repo : String) (e : Emission) (out : GitOutput)
    (w : World R) (q : Queues) where
  -- What the emission of the commit that was read does, or of one that could not be read.
  abbrev pub Emitted : Result GitCommitEvent → Type 0
  Emitted (err x) = Unreadable out x × (emit_commit env uuid now repo e out w ≡ (err x, w))
  Emitted (ok event) =
      Describes repo e.new_sha out event
      × (commit_of (commit_payload event e.prev_sha) ≡ as_commit event)
      × (missing_keys (commit_payload event e.prev_sha) ≡ [])
      × Run
          (λ _ t.
            Holds env.redis env.json t.redis (add normal (job_of uuid now event e.prev_sha) q)
            × (t.db ≡ w.db))
          (λ _ t. t.db ≡ w.db) (emit_commit env uuid now repo e out) w

  pub unread :
      (x : Exn)
      → read_commit repo e.new_sha out ≡ err x
      → emit_commit env uuid now repo e out w ≡ (err x, w)
  unfolding emit_commit
  unread x p = rw p refl

  pub enqueued-Run :
      (event : GitCommitEvent)
      → read_commit repo e.new_sha out ≡ ok event
      → Holds env.redis env.json w.redis q
      → Run
          (λ _ t.
            Holds env.redis env.json t.redis (add normal (job_of uuid now event e.prev_sha) q)
            × (t.db ≡ w.db))
          (λ _ t. t.db ≡ w.db)
          (emit_commit env uuid now repo e out)
          w
  unfolding emit_commit
  enqueued-Run event p h = rw p (
      on_redis-Run (Queue.enqueue env.redis env.json (job_of uuid now event e.prev_sha) normal) w
        (λ a s i. (
          enqueue-Holds env.redis env.json normal (job_of uuid now event e.prev_sha) w.redis s q i
              h,
          refl,
        ))
        λ x s. refl)

  -- A commit is emitted. Where git's author or subject of it is no UTF-8 text, the emission raises, and
  -- nothing is enqueued. Else, unless Redis raises, one job is added, the last of the normal ones,
  -- in which the pipeline finds both required keys and reads the repository and the sha, the author and
  -- the subject that git printed, stripped (unknown and empty where git failed), and the diff that
  -- git printed, cut after 200000 characters with a note. The rows stay the same.
  pub emit_commit-Emitted :
      Holds env.redis env.json w.redis q → Emitted (read_commit repo e.new_sha out)
  emit_commit-Emitted h = elim (Result-cases (read_commit repo e.new_sha out)) [
    | inl (x, p) ↦
        rw p (read_commit-err repo e.new_sha out.author out.subject out.diff x p, unread x p)
    | inr (event, p) ↦ rw p (
      read_commit-ok repo e.new_sha out.author out.subject out.diff event p,
      (commit_of-commit_payload event e.prev_sha).0,
      (commit_of-commit_payload event e.prev_sha).1,
      enqueued-Run event p h,
    )
  ]
