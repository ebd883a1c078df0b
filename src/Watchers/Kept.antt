-- ===== src/Watchers/Kept.antt =====
-- What the integrity watcher keeps of all the checks that it makes.
use wiseorder.Prelude.{
  ℕ, ◌-◌, String, ◌≡◌, refl, sym, ap, ◌∙◌, Option, List, [], ◌∷◌, ◌++◌, length, last_n, drop, arith,
  ltb, false, subst, Bool-cases, inl, inr,
}
use mathlib.Core.List.{append_assoc, append-nil}
use wiseorder.Prelude.Last.{last_n-append}
use wiseorder.Watchers.Integrity.{
  IntegrityCheck, IntegrityWatcher, Verification, bounded, check_once, verify_once,
}
use wiseorder.Watchers.History.{head_after, check_once-lem}
use wiseorder.Watchers.Polls.{Wait, stopped, woken, timed_out, poll, before_stop, run_integrity}

-- What the verifications come to.
abbrev pub all_checks : String → List (String × Verification) → List IntegrityCheck
all_checks chain_dir [] = []
all_checks chain_dir ((ts, found) ∷ rest) =
    verify_once ts chain_dir found ∷ all_checks chain_dir rest

-- The head of the last check that found a valid chain with a head.
abbrev pub last_valid : Option String → List IntegrityCheck → Option String
last_valid before [] = before
last_valid before (check ∷ rest) = last_valid (head_after before check) rest

pub bounded-last_n : {A : Type 0} (n : ℕ) (xs : List A) → bounded n xs ≡ last_n n xs
bounded-last_n n xs = elim (Bool-cases (ltb n (length xs))) [
  | inl e ↦ rw e
  | inr e ↦ rw e (ap (λ k. drop k xs) (short (length xs) n e))
]
  where
    short : (a b : ℕ) → ltb b a ≡ false → 0 ≡ a - b
    short a b e = ground arith

-- What has been checked so far, and the head that is kept.
record After (dir : String) (head : Option String) (xs : List IntegrityCheck) (w : IntegrityWatcher)
    : Type 0 where
  chain_dir : w.chain_dir ≡ dir
  last_head : w.last_head ≡ head
  history : w.history ≡ last_n 100 xs

check_once-After :
    (dir : String) (head : Option String) (xs : List IntegrityCheck) (w : IntegrityWatcher)
    (ts : String) (found : Verification)
    → After dir head xs w
    → After dir
        (head_after head (verify_once ts dir found))
        (xs ++ verify_once ts dir found ∷ [])
        (check_once w ts found).1
unfolding check_once
check_once-After dir head xs w ts found a =
    let check = verify_once ts w.chain_dir found in
    let same = ap (λ d. verify_once ts d found) a.chain_dir in
    record {
      chain_dir = a.chain_dir;
      last_head = (check_once-lem w ts found).1 ∙ (λ i. head_after (a.last_head i) (same i));
      history =
          bounded-last_n 100 (w.history ++ check ∷ [])
          ∙ (λ i. last_n 100 (a.history i ++ same i ∷ []))
          ∙ last_n-append 100 xs (verify_once ts dir found ∷ []);
    }

ended :
    {dir : String} {head : Option String} {xs : List IntegrityCheck} {w : IntegrityWatcher}
    → After dir head xs w
    → After dir head (xs ++ []) w
ended {dir} {head} {xs} {w} a = subst (λ ys. After dir head ys w) (sym (append-nil xs)) a

poll-After :
    (dir : String) (head : Option String) (xs : List IntegrityCheck) (w : IntegrityWatcher)
    (waits : List (Wait (String × Verification)))
    → After dir head xs w
    → After dir
        (last_valid head (all_checks dir (before_stop waits)))
        (xs ++ all_checks dir (before_stop waits))
        (poll (λ s (ts, found). (check_once s ts found).1) w waits)
unfolding poll
poll-After dir head xs w [] a = ended a
poll-After dir head xs w (stopped ∷ waits) a = ended a
poll-After dir head xs w (woken ∷ waits) a = ended a
poll-After dir head xs w (timed_out (ts, found) ∷ waits) a =
    let check = verify_once ts dir found in
    subst
      (λ ys.
        After dir (last_valid head (check ∷ all_checks dir (before_stop waits))) ys
          (poll (λ v (t, x). (check_once v t x).1) (check_once w ts found).1 waits))
      (append_assoc xs (check ∷ []) (all_checks dir (before_stop waits)))
      (poll-After dir (head_after head check) (xs ++ check ∷ []) (check_once w ts found).1 waits
        (check_once-After dir head xs w ts found a))

-- A watcher that has made no check yet is run, until its stop event is set: its history is the last 100 of
-- all the checks that it has made, in their order, and the head that it keeps is the head of the last
-- one that found a valid chain with a head.
pub run_integrity-history :
    (w : IntegrityWatcher) (first : String × Verification)
    (waits : List (Wait (String × Verification)))
    → w.history ≡ []
    → let made = all_checks w.chain_dir (first ∷ before_stop waits) in
      ((run_integrity w first waits).history ≡ last_n 100 made)
      × ((run_integrity w first waits).last_head ≡ last_valid w.last_head made)
unfolding run_integrity
run_integrity-history w (ts, found) waits e =
    let fresh : After w.chain_dir w.last_head [] w = record {
      chain_dir = refl;
      last_head = refl;
      history = e;
    } in
    let a =
      poll-After w.chain_dir (head_after w.last_head (verify_once ts w.chain_dir found))
        (verify_once ts w.chain_dir found ∷ []) (check_once w ts found).1 waits
        (check_once-After w.chain_dir w.last_head [] w ts found fresh) in
    (a.history, a.last_head)
