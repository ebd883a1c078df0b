-- ===== src/Once/Progress.antt =====
-- Threads that share a value do not block one another.
use wiseorder.Prelude.{ℕ, ◌≡◌, ◌≢◌, refl, false, Option, none, some, List}
use wiseorder.Exec.{Result, ok, err}
use wiseorder.Once.{
  Point, begin, seen, waiting, locked, making, made, stored, returned, failed, Shared, Threads,
  advance, run, no_value, first_test, second_test, constructing,
}
use wiseorder.Once.Owner.{Owner, free, own, Inside, Owned}
use wiseorder.Once.Single.{Enters, run-Owned, start-Owned}

-- The thread has neither returned nor raised.
abbrev pub Runs : {A : Type 0} → Point A → Type 0
Runs (returned x) = ⊥
Runs (failed e) = ⊥
Runs _ = Unit {0}

module _ {A : Type 0} (make : ℕ → Result A) where
  -- A thread that runs, and need not wait for the lock, is elsewhere after its step.
  advance-ne :
      (p : Point A) (sh : Shared A)
      → Runs p
      → (p ≡ waiting → sh.is_locked ≡ false)
      → (advance make p sh).0 ≢ p
  unfolding advance
  advance-ne begin sh r w = tested sh.value
    where
      tested : (o : Option A) → first_test o ≢ begin
      tested none e = cc
      tested (some v) e = cc
  advance-ne seen sh r w = λ e. cc
  advance-ne waiting sh r w = rw (w refl) (λ e. cc)
  advance-ne locked sh r w = tested sh.value
    where
      tested : (o : Option A) → second_test o ≢ locked
      tested none e = cc
      tested (some v) e = cc
  advance-ne making sh r w = constructed (make sh.attempts)
    where
      constructed : (x : Result A) → (constructing x sh).0 ≢ making
      constructed (ok v) e = cc
      constructed (err x) e = cc
  advance-ne (made v) sh r w = λ e. cc
  advance-ne stored sh r w = λ e. cc
  advance-ne (returned x) sh r w = absurd r
  advance-ne (failed x) sh r w = absurd r

  Inside-Runs : (p : Point A) → Inside p → Runs p × (p ≢ waiting)
  Inside-Runs locked n = (tt, λ e. cc)
  Inside-Runs making n = (tt, λ e. cc)
  Inside-Runs (made v) n = (tt, λ e. cc)
  Inside-Runs stored n = (tt, λ e. cc)
  Inside-Runs begin n = absurd n
  Inside-Runs seen n = absurd n
  Inside-Runs waiting n = absurd n
  Inside-Runs (returned x) n = absurd n
  Inside-Runs (failed x) n = absurd n

  Owned-moving :
      (o : Owner) (t : Threads A) (i : ℕ)
      → Owned o t
      → Runs (t.points i)
      → (k : ℕ) × ((advance make (t.points k) t.shared).0 ≢ t.points k)
  Owned-moving free t i h r = (i, advance-ne (t.points i) t.shared r (λ e. h.held))
  Owned-moving (own k b) t i h r =
      let (runs, moving) = Inside-Runs (t.points k) (h.inside k b refl) in
      (k, advance-ne (t.points k) t.shared runs (λ e. absurd (moving e)))

  -- The same threads do not block one another: at any time, as long as one of them has neither returned
  -- nor raised, there is one that its next step takes to another point.
  pub run-moving :
      (schedule : List ℕ) (t : Threads A) (i : ℕ)
      → ((k : ℕ) → Enters (t.points k))
      → t.shared ≡ no_value A
      → Runs ((run make schedule t).points i)
      → (k : ℕ) × ((advance make ((run make schedule t).points k) (run make schedule t).shared).0
          ≢ (run make schedule t).points k)
  run-moving schedule t i entry fresh runs =
      let (o, h) = run-Owned make schedule free t (start-Owned make t entry fresh) in
      Owned-moving o (run make schedule t) i h runs
