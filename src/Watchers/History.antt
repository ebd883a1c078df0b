-- ===== src/Watchers/History.antt =====
-- What the watchers' histories keep.
use wiseorder.Prelude.{
  ℕ, ◌≤◌, String, ◌≡◌, refl, sym, ap, Bool, true, false, not, ◌&&◌, Option, none, some, List, [],
  ◌∷◌, ◌++◌, length, length-last_n, arith, if◌then◌else◌, Bool-cases, inl, inr, eq_iff,
}
use wiseorder.Prelude.Text.{str_eq}
use wiseorder.Watchers.Integrity.{
  IntegrityCheck, IntegrityWatcher, Verification, bounded, check_once, verify_once, same_head,
  is_some,
}
use wiseorder.Watchers.Ci.{CiCheck, GhOutcome, record_check, check_all}
use wiseorder.Values.{Value, Fields}
use wiseorder.Exec.{Result}

length-bounded : {A : Type 0} (n : ℕ) (xs : List A) → length (bounded n xs) ≤ n
length-bounded n xs = ground (arith, length-last_n n xs)

same_head-eq : (a b : Option String) → same_head a b ≡ true → a ≡ b
same_head-eq none none h = refl
same_head-eq none (some b) h = cc
same_head-eq (some a) none h = cc
same_head-eq (some a) (some b) h = ap some ((eq_iff a b).0 h)

-- The head that is kept after a check: that of a valid chain.
abbrev pub head_after : Option String → IntegrityCheck → Option String
head_after before check =
    if is_some check.head && str_eq check.status "CHAIN_VALID" then check.head else before

moved_head :
    (check : IntegrityCheck) (before : Option String) (same valid some' : Bool)
    → (same ≡ true → check.head ≡ before)
    → (if not same && some' && valid then check.head else before)
      ≡ (if some' && valid then check.head else before)
moved_head check before true true true h = sym (h refl)
moved_head check before true false true h = refl
moved_head check before true true false h = refl
moved_head check before true false false h = refl
moved_head check before false valid some' h = refl

-- A round of the integrity watcher: the history has at most 100 checks, and the head kept is the head
-- of the last check that found a valid chain with a head; any other check leaves it.
pub check_once-lem :
    (w : IntegrityWatcher) (ts : String) (found : Verification)
    → (length (check_once w ts found).1.history ≤ 100)
      × ((check_once w ts found).1.last_head ≡ head_after w.last_head (check_once w ts found).0)
unfolding check_once
check_once-lem w ts found =
    let check = verify_once ts w.chain_dir found in
    (
      length-bounded 100 (w.history ++ check ∷ []),
      moved_head check w.last_head (same_head check.head w.last_head)
          (str_eq check.status "CHAIN_VALID") (is_some check.head)
          (same_head-eq check.head w.last_head),
    )

-- Every repository's history has at most 50 checks.
abbrev pub AllBounded : List (String × List CiCheck) → Type 0
AllBounded [] = Unit {0}
AllBounded ((r, checks) ∷ rest) = (length checks ≤ 50) × AllBounded rest

module _ (loads : String → Result (List Fields)) (py_str : Value → String) where
  record_check-AllBounded :
      (repo : String) (check : CiCheck) (h : List (String × List CiCheck))
      → AllBounded h
      → AllBounded (record_check loads py_str repo check h)
  unfolding record_check
  record_check-AllBounded repo check [] b = (length-bounded 50 (check ∷ []), tt)
  record_check-AllBounded repo check ((r, checks) ∷ rest) (b, bs) =
      elim (Bool-cases (str_eq r repo)) [
        | inl p ↦ rw p (length-bounded 50 (checks ++ check ∷ []), bs)
        | inr p ↦ rw p (b, record_check-AllBounded repo check rest bs)
      ]

  -- A round over the repositories keeps every history within 50 checks, whatever gh does.
  pub check_all-AllBounded :
      (outcome : String → String × GhOutcome) (repos : List String)
      (h : List (String × List CiCheck))
      → AllBounded h
      → AllBounded (check_all loads py_str outcome repos h)
  unfolding check_all
  check_all-AllBounded outcome [] h b = b
  check_all-AllBounded outcome (repo ∷ repos) h b =
      check_all-AllBounded outcome repos _ (record_check-AllBounded repo _ h b)
