-- ===== src/Once.antt =====
-- The values that are made once for the process: get_settings of configs/settings.py, get_vector_store of
-- core/memory/vector.py and get_queue of core/queues/redis_queue.py. Each thread (for get_queue, each
-- task) is at a point of the function; what Settings() with its two mkdir, VectorStore() or
-- RedisQueue() does is a parameter of the n-th attempt.
pub mod Owner
pub mod Moves
pub mod Single
pub mod Progress
use wiseorder.Prelude.{
  ℕ, ◌+◌, Bool, true, false, Option, none, some, List, [], ◌∷◌, ◌==◌, if◌then◌else◌,
}
use wiseorder.Exec.{Result, ok, err, Exn}

-- `begin` and `seen` are before the lock: at the first test, and behind it where the value was there.
-- `locked`, `making`, `made` and `stored` are inside: at the second test, before the construction, before
-- the assignment and before the return.
pub data Point (A : Type 0) : Type 0 where
  begin seen waiting locked making : Point A
  made : (v : A) → Point A
  stored : Point A
  returned : (result : Option A) → Point A
  failed : (e : Exn) → Point A

pub record Shared (A : Type 0) : Type 0 where
  pub value : Option A
  pub is_locked : Bool
  pub attempts : ℕ
  -- the constructions that returned
  pub constructed : ℕ

module _ {A : Type 0} where
  abbrev pub first_test : Option A → Point A
  first_test none = waiting
  first_test (some v) = seen

  abbrev pub second_test : Option A → Point A
  second_test none = making
  second_test (some v) = stored

  abbrev pub constructing : Result A → Shared A → Point A × Shared A
  constructing (ok v) sh =
      (made v, record sh { attempts = sh.attempts + 1; constructed = sh.constructed + 1 })
  constructing (err e) sh = (failed e, record sh { attempts = sh.attempts + 1; is_locked = false })

  -- The next step of a thread; one that waits for the lock stays where it is.
  unfoldable pub advance : (ℕ → Result A) → Point A → Shared A → Point A × Shared A
  advance make begin sh = (first_test sh.value, sh)
  advance make seen sh = (returned sh.value, sh)
  advance make waiting sh =
      if sh.is_locked then (waiting, sh) else (locked, record sh { is_locked = true })
  advance make locked sh = (second_test sh.value, sh)
  advance make making sh = constructing (make sh.attempts) sh
  advance make (made v) sh = (stored, record sh { value = some v })
  advance make stored sh = (returned sh.value, record sh { is_locked = false })
  advance make (returned result) sh = (returned result, sh)
  advance make (failed e) sh = (failed e, sh)

  -- get_queue takes the lock at once.
  abbrev pub get_settings : Point A
  get_settings = begin

  abbrev pub get_vector_store : Point A
  get_vector_store = begin

  abbrev pub get_queue : Point A
  get_queue = waiting

-- The threads, and what they share.
pub record Threads (A : Type 0) : Type 0 where
  pub points : ℕ → Point A
  pub shared : Shared A

module _ {A : Type 0} (make : ℕ → Result A) where
  abbrev pub step : ℕ → Threads A → Threads A
  unfolding advance
  step i t = record {
    points = λ j. if i == j then (advance make (t.points i) t.shared).0 else t.points j;
    shared = (advance make (t.points i) t.shared).1;
  }

  -- The threads run as the scheduler says.
  unfoldable pub run : List ℕ → Threads A → Threads A
  unfolding step
  run [] t = t
  run (i ∷ is) t = run is (step i t)

-- Nothing has been made yet.
abbrev pub no_value : (A : Type 0) → Shared A
no_value A = record { value = none; is_locked = false; attempts = 0; constructed = 0 }
