-- ===== src/Examples/Threads.antt =====
-- Two threads that ask for a value which is not made yet.
use wiseorder.Prelude.{ℕ, ◌≡◌, ◌≢◌, refl, some, List, [], ◌∷◌, ◌==◌, if◌then◌else◌}
use wiseorder.Exec.{Result, ok, err, raised, other}
use wiseorder.Once.{get_settings, returned, Threads, no_value, advance, run}
use wiseorder.Once.Single.{run-one_value}
use wiseorder.Once.Progress.{run-moving}

-- The first construction raises.
abbrev make : ℕ → Result ℕ
make n = if n == 0 then err (raised other "no such directory") else ok 7

abbrev threads : Threads ℕ
threads = record { points = λ i. get_settings; shared = no_value ℕ }

-- The thread 0 fails, 1 and 2 find no value, 1 makes it while 2 waits, and both return.
abbrev schedule : List ℕ
schedule = 0 ∷ 0 ∷ 1 ∷ 2 ∷ 0 ∷ 1 ∷ 0 ∷ 1 ∷ 2 ∷ 1 ∷ 1 ∷ 2 ∷ 1 ∷ 2 ∷ 1 ∷ 2 ∷ 2 ∷ 2 ∷ []

ended :
    ((run make schedule threads).points 1 ≡ returned (some 7))
    × ((run make schedule threads).points 2 ≡ returned (some 7))
unfolding run
ended = (refl, refl)

run-one_value_example :
    (v : ℕ) × (some 7 ≡ some v)
    × (some 7 ≡ some v)
    × ((run make schedule threads).shared.constructed ≡ 1)
run-one_value_example =
    run-one_value make schedule threads 1 2 (some 7) (some 7) (λ k. tt) refl ended.0 ended.1

-- The thread 0 is in the lock, and 1 waits for it.
abbrev contended : List ℕ
contended = 0 ∷ 1 ∷ 0 ∷ 1 ∷ []

run-moving_example :
    (k : ℕ) × ((advance make
        ((run make contended threads).points k)
        (run make contended threads).shared).0
      ≢ (run make contended threads).points k)
unfolding run
run-moving_example = run-moving make contended threads 1 (λ k. tt) refl tt
