-- ===== src/Pipeline/Skips.antt =====
-- workflows/commit_pipeline.py: what a run that lost the claim answers.
use wiseorder.Prelude.{
  ℕ, String, ◌≡◌, refl, sym, ap, ◌∙◌, true, false, none, some, eq_iff, Bool-cases, inl, inr,
}
use wiseorder.Prelude.Text.{str_eq, is_empty}
use wiseorder.Prelude.Decimal.{str, is_digit, int-str, is_digit-str}
use wiseorder.Dedup.{pending_mark}
use wiseorder.Pipeline.{skip_outcome}
use wiseorder.Pipeline.Records.{skipped}

not_empty : (s : String) → is_digit s ≡ true → is_empty s ≡ false
unfolding is_digit
not_empty String.[] h = cc
not_empty (String.◌∷◌ c s) h = refl

not_pending : (s : String) → is_digit s ≡ true → str_eq s pending_mark ≡ false
unfolding is_digit
not_pending s h = elim (Bool-cases (str_eq s pending_mark)) [
  | inl e ↦ cc (sym h ∙ ap is_digit ((eq_iff s pending_mark).0 e))
  | inr e ↦ e
]

-- A duplicate of a run whose id is attached is answered with that id.
pub skip_outcome-str :
    (n : ℕ)
    → skip_outcome (record { acquired = false; existing_value = some (str n) })
      ≡ skipped (some n) "duplicate_sha"
unfolding skip_outcome
skip_outcome-str n =
    rw (not_empty (str n) (is_digit-str n))
      (rw (is_digit-str n, int-str n, not_pending (str n) (is_digit-str n)))

-- A duplicate of a run in flight, whose claim is still marked pending, is answered with no id.
pub skip_outcome-pending :
    skip_outcome (record { acquired = false; existing_value = some pending_mark })
    ≡ skipped none "in_flight"
unfolding skip_outcome
skip_outcome-pending = refl
