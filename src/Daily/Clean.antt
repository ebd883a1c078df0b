-- ===== src/Daily/Clean.antt =====
-- A summary that recommends nothing to be done.
use wiseorder.Prelude.{ℕ, zero, suc, String, ◌≡◌, refl, false, [], ◌∷◌, eq_iff, ◌==◌, arith}
use wiseorder.Prelude.Text.{str_eq}
use wiseorder.Daily.Stats.{DailyStats}
use wiseorder.Daily.Format.{matter_lines, urgent_lines, next_action}

-- Nothing is waiting, failed, interrupted or running.
abbrev pub IsClean : DailyStats → Type 0
IsClean s =
    (s.approvals_pending ≡ 0)
    × ((s.queue_depth_failed ≡ 0)
        × ((s.workflows_failed ≡ 0) × ((s.workflows_interrupted ≡ 0) × (s.workflows_running ≡ 0))))

abbrev pub clean_advice : String
clean_advice = "None. The runtime is in a clean state."

abbrev Advised : DailyStats → Type 0
Advised s = next_action s ≡ clean_advice → IsClean s × (urgent_lines s ≡ "nothing urgent." ∷ [])

different : {P : Type 0} (s t : String) → str_eq s t ≡ false → s ≡ t → P
different s t d e = cc (d, (eq_iff s t).1 e)

nonzero : (n : ℕ) → (suc n == 0) ≡ false
nonzero n = ground arith

by_number :
    (s : DailyStats) (a q f i r : ℕ)
    → Advised (record s {
      approvals_pending = a;
      queue_depth_failed = q;
      workflows_failed = f;
      workflows_interrupted = i;
      workflows_running = r;
    })
unfolding next_action urgent_lines matter_lines
by_number s zero zero zero zero zero e = ((refl, (refl, (refl, (refl, refl)))), refl)
by_number s zero zero zero zero (suc r) e =
    different _ clean_advice refl (rw (next_action, nonzero r) at e)
by_number s zero zero zero (suc i) r e =
    different _ clean_advice refl (rw (next_action, nonzero i) at e)
by_number s zero zero (suc f) i r e =
    different _ clean_advice refl (rw (next_action, nonzero f) at e)
by_number s zero (suc q) f i r e = different _ clean_advice refl (rw (next_action, nonzero q) at e)
by_number s (suc a) q f i r e = different _ clean_advice refl (rw (next_action, nonzero a) at e)

-- Where the summary recommends no action, nothing is waiting, failed, interrupted or running, and nothing is listed as urgent.
pub next_action-IsClean :
    (s : DailyStats)
    → next_action s ≡ clean_advice
    → IsClean s × (urgent_lines s ≡ "nothing urgent." ∷ [])
next_action-IsClean s h =
    by_number s s.approvals_pending s.queue_depth_failed s.workflows_failed s.workflows_interrupted
      s.workflows_running h
