-- ===== src/Watchers/Integrity.antt =====
-- core/watchers/integrity_watcher.py, the class IntegrityWatcher. What the file system and the
-- verifier of the protocol answer is a parameter of each check. The verifier's result is taken to have a
-- status, a count that is a number, and a reason: where str() or int() of one of them raised, the
-- code would raise, which is not modelled.
use wiseorder.Prelude.{
  ℕ, String, Bool, true, false, not, ◌&&◌, Option, none, some, List, [], ◌∷◌, ◌++◌, length, ltb,
  last_n, if◌then◌else◌,
}
use wiseorder.Prelude.Text.{str_eq, concat}

pub record IntegrityCheck : Type 0 where
  pub ts : String
  pub status : String
  pub count : ℕ
  pub head : Option String
  pub chain_dir : String
  pub note : String

-- What one verification meets: the directory is missing, the verifier cannot be imported, it raises
-- an exception (its type and text), or it returns.
pub data Verification : Type 0 where
  no_directory : Verification
  no_verifier : (e : String) → Verification
  broken : (type e : String) → Verification
  verified : (status : String) (count : ℕ) (head reason : Option String) → Verification

pub record IntegrityWatcher : Type 0 where
  pub chain_dir : String
  pub history : List IntegrityCheck
  pub last_head : Option String

abbrev failed_check : String → String → String → IntegrityCheck
failed_check ts chain_dir note = record {
  ts = ts;
  status = "ERROR";
  count = 0;
  head = none;
  chain_dir = chain_dir;
  note = note;
}

-- str(result.reason or "")
abbrev reason_text : Option String → String
reason_text none = ""
reason_text (some s) = s

-- _verify_once, at the time ts
unfoldable pub verify_once : String → String → Verification → IntegrityCheck
verify_once ts chain_dir no_directory =
    failed_check ts chain_dir (concat ("chain directory not found: " ∷ chain_dir ∷ []))
verify_once ts chain_dir (no_verifier e) = failed_check ts chain_dir (
    concat (
      "cannot import protocol verifier: " ∷ e
      ∷ ". Set WISEORDER_PROTOCOL_DIR to a clone of wiseorder-protocol." ∷ []))
verify_once ts chain_dir (broken type e) =
    failed_check ts chain_dir (concat ("verify_chain raised: " ∷ type ∷ ": " ∷ e ∷ []))
verify_once ts chain_dir (verified status count head reason) = record {
  ts = ts;
  status = status;
  count = count;
  head = head;
  chain_dir = chain_dir;
  note = reason_text reason;
}

abbrev pub same_head : Option String → Option String → Bool
same_head none none = true
same_head (some a) (some b) = str_eq a b
same_head _ _ = false

abbrev pub is_some : Option String → Bool
is_some none = false
is_some (some s) = true

abbrev pub bounded : {A : Type 0} → ℕ → List A → List A
bounded n xs = if ltb n (length xs) then last_n n xs else xs

-- _check_once
unfoldable pub check_once :
    IntegrityWatcher → String → Verification → IntegrityCheck × IntegrityWatcher
unfolding verify_once
check_once w ts found =
    let check = verify_once ts w.chain_dir found in
    let moved =
      not (same_head check.head w.last_head)
      && is_some check.head
      && str_eq check.status "CHAIN_VALID" in
    (
      check,
      record w {
        history = bounded 100 (w.history ++ check ∷ []);
        last_head = if moved then check.head else w.last_head;
      },
    )

-- The checks of `run`, one for each answer of the outside.
unfoldable pub watch : IntegrityWatcher → List (String × Verification) → IntegrityWatcher
unfolding check_once
watch w [] = w
watch w ((ts, found) ∷ rounds) = watch (check_once w ts found).1 rounds
