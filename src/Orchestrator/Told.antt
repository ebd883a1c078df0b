-- ===== src/Orchestrator/Told.antt =====
-- The actions of the stop of the orchestrator: what occurs among them.
use wiseorder.Prelude.{
  ℕ, zero, suc, ◌<◌, ◌≡◌, ◌≢◌, ap, ◌⊎◌, inl, inr, Bool, true, false, List, [], ◌∷◌, ◌++◌, arith,
  ◌==◌, ==_iff, Bool-cases,
}
use wiseorder.Exec.{Exn}
use wiseorder.Orchestrator.Stop.{
  Service, worker, api_server, integrity_watcher, ci_watcher, daily_summary, Action, set_stop,
  stop_observer, stop_integrity, stop_ci, exit_server, close_queue, cancel, wait, TaskEnd,
  cancelled, has_raised, Started, only_if, tell, gather,
}

abbrev pub Occurs : Action → List Action → Type 0
Occurs a [] = ⊥
Occurs a (b ∷ bs) = (a ≡ b) ⊎ Occurs a bs

pub Occurs-left : (a : Action) (xs ys : List Action) → Occurs a xs → Occurs a (xs ++ ys)
Occurs-left a (x ∷ xs) ys (inl e) = inl e
Occurs-left a (x ∷ xs) ys (inr o) = inr (Occurs-left a xs ys o)
Occurs-left a [] ys o = elim o [ ]

pub Occurs-right : (a : Action) (xs ys : List Action) → Occurs a ys → Occurs a (xs ++ ys)
Occurs-right a [] ys o = o
Occurs-right a (x ∷ xs) ys o = inr (Occurs-right a xs ys o)

Occurs-append : (a : Action) (xs ys : List Action) → Occurs a (xs ++ ys) → Occurs a xs ⊎ Occurs a ys
Occurs-append a [] ys o = inr o
Occurs-append a (x ∷ xs) ys (inl e) = inl (inl e)
Occurs-append a (x ∷ xs) ys (inr o) = elim (Occurs-append a xs ys o) [
  | inl p ↦ inl (inr p)
  | inr p ↦ inr p
]

-- The task was started.
abbrev pub Runs : Started → Service → Type 0
Runs o (worker i) = i < o.num_workers
Runs o api_server = o.api_task ≡ true
Runs o integrity_watcher = o.integrity_task ≡ true
Runs o ci_watcher = o.ci_task ≡ true
Runs o daily_summary = o.daily_task ≡ true

-- The exception goes on where the task is waited for.
abbrev pub Breaks : Service → TaskEnd → Exn → Type 0
Breaks (worker i) end e = ⊥
Breaks api_server end e = (end ≡ has_raised e) ⊎ (end ≡ cancelled e)
Breaks _ end e = end ≡ has_raised e

abbrev pub NeverClosed : List Action → Type 0
NeverClosed xs = Occurs close_queue xs → ⊥

pub append-NeverClosed :
    (xs ys : List Action) → NeverClosed xs → NeverClosed ys → NeverClosed (xs ++ ys)
append-NeverClosed xs ys h k o = elim (Occurs-append close_queue xs ys o) [
  | inl p ↦ h p
  | inr p ↦ k p
]

pub only_if-NeverClosed : (b : Bool) (a : Action) → close_queue ≢ a → NeverClosed (only_if b a)
only_if-NeverClosed true a h (inl e) = h e
only_if-NeverClosed true a h (inr o) = elim o [ ]
only_if-NeverClosed false a h o = o

pub tell-NeverClosed : (o : Started) → NeverClosed (tell o)
unfolding tell
tell-NeverClosed o =
    append-NeverClosed (set_stop ∷ []) _ (only_if-NeverClosed true set_stop (λ e. cc)) (
      append-NeverClosed (only_if o.observer stop_observer) _
        (only_if-NeverClosed o.observer _ (λ e. cc))
        (append-NeverClosed (only_if o.integrity stop_integrity) _
          (only_if-NeverClosed o.integrity _ (λ e. cc))
          (append-NeverClosed (only_if o.ci stop_ci) _ (only_if-NeverClosed o.ci _ (λ e. cc)) (
            append-NeverClosed (only_if o.integrity_task (cancel integrity_watcher)) _
              (only_if-NeverClosed o.integrity_task _ (λ e. cc))
              (append-NeverClosed (only_if o.ci_task (cancel ci_watcher)) _
                (only_if-NeverClosed o.ci_task _ (λ e. cc))
                (append-NeverClosed (only_if o.daily_task (cancel daily_summary)) _
                  (only_if-NeverClosed o.daily_task _ (λ e. cc))
                  (only_if-NeverClosed o.server exit_server (λ e. cc))))))))

pub gather-NeverClosed : (n : ℕ) → NeverClosed (gather n)
unfolding gather
gather-NeverClosed zero o = o
gather-NeverClosed (suc n) o =
    append-NeverClosed (gather n) (wait (worker n) ∷ []) (gather-NeverClosed n) only_wait o
  where
    only_wait : NeverClosed (wait (worker n) ∷ [])
    only_wait (inl e') = cc
    only_wait (inr x) = x

pub gather-wait : (n i : ℕ) → i < n → Occurs (wait (worker i)) (gather n)
unfolding gather
gather-wait zero i h = elim h [ ]
gather-wait (suc n) i h = elim (Bool-cases (i == n)) [
  | inl e ↦ Occurs-right _ (gather n) _ (inl (ap (λ k. wait (worker k)) ((==_iff i n).0 e)))
  | inr e ↦ Occurs-left _ (gather n) _ (gather-wait n i (ground arith))
]
