-- ===== src/Llm/Retries.antt =====
-- The retry loop ends, and makes a bounded number of attempts.
use wiseorder.Prelude.{
  ℕ, zero, suc, ◌+◌, ◌*◌, ◌≤◌, ◌<◌, ◌≡◌, Bool, true, false, Option, none, some, arith, min, ◌^◌,
}
use wiseorder.Prelude.Text.{strip}
use wiseorder.Exec.{ok, err, Result}
use wiseorder.Llm.{
  Reply, content, timed_out, transient, broken, Call, llm_loop, llm_call, timeout_exn,
}
use wiseorder.Prelude.{String}

-- The loop has ended, within the attempts allowed, and slept at most 30 seconds between two of them.
abbrev pub Bounded : ℕ → Option Call → Type 0
Bounded max_retries none = ⊥
Bounded max_retries (some c) =
    (0 < c.attempts) × (c.attempts ≤ max_retries + 1) × (c.slept ≤ 30 * max_retries)

llm_loop-Bounded :
    (fuel : ℕ) (reply : ℕ → Reply) (m attempt slept : ℕ)
    → attempt + fuel ≡ m + 1
    → 0 < fuel
    → slept ≤ 30 * attempt
    → Bounded m (llm_loop fuel reply m attempt slept)
unfolding llm_loop
llm_loop-Bounded zero reply m attempt slept h pos s = absurd (omega arith)
llm_loop-Bounded (suc fuel) reply m attempt slept h pos s = ground (
  arith,
  llm_loop-Bounded fuel reply m (attempt + 1) slept,
  llm_loop-Bounded fuel reply m (attempt + 1) (slept + min (2 ^ (attempt + 1)) 30),
)

-- Whatever the provider does, the call ends: it makes at most max_retries + 1 attempts, and sleeps at
-- most 30 seconds for each retry.
pub llm_call-Bounded :
    (reply : ℕ → Reply) (max_retries : ℕ) → Bounded max_retries (llm_call reply max_retries)
unfolding llm_call
llm_call-Bounded reply m =
    llm_loop-Bounded (m + 1) reply m 0 0 (omega arith) (omega arith) (omega arith)

-- An attempt whose error is tried again.
abbrev pub retryable : Reply → Bool
retryable timed_out = true
retryable (transient e) = true
retryable _ = false

-- How a reply that is not tried again, or the last one, ends the call.
abbrev pub final : Reply → Result String
final (content s) = ok (strip s)
final timed_out = err timeout_exn
final (transient e) = err e
final (broken e) = err e

-- The call has ended with this result, after this many attempts.
abbrev pub Ends : Result String → ℕ → Option Call → Type 0
Ends r n none = ⊥
Ends r n (some c) = (c.result ≡ r) × (c.attempts ≡ n)

final_attempt :
    (reply : ℕ → Reply) (m n fuel slept : ℕ)
    → (retryable (reply (n + 1)) ≡ true → m < n + 1)
    → Ends (final (reply (n + 1))) (n + 1) (llm_loop (suc fuel) reply m n slept)
unfolding llm_loop
final_attempt reply m n fuel slept last = ground arith

attempts_from :
    (k : ℕ) (reply : ℕ → Reply) (m n j fuel slept : ℕ)
    → j + k ≡ n
    → n ≤ m
    → j + fuel ≡ m + 1
    → ((i : ℕ) → i < n → retryable (reply (i + 1)) ≡ true)
    → (retryable (reply (n + 1)) ≡ true → m < n + 1)
    → Ends (final (reply (n + 1))) (n + 1) (llm_loop fuel reply m j slept)
unfolding llm_loop
attempts_from k reply m n j zero slept e le f again last = absurd (omega arith)
attempts_from zero reply m n j (suc fuel) slept e le f again last =
    let same : n ≡ j = omega arith in rw same (final_attempt reply m j fuel slept (rw same at last))
attempts_from (suc k) reply m n j (suc fuel) slept e le f again last = ground (
  arith,
  again j,
  attempts_from k reply m n (j + 1) fuel slept (omega arith) le (omega arith) again last,
  attempts_from k reply m n (j + 1) fuel (slept + min (2 ^ (j + 1)) 30) (omega arith) le
      (omega arith) again last,
)

-- If the first n attempts, n at most max_retries, fail in a way that is tried again, and the next one
-- does not or is the last that is allowed, then that one decides the result and is the last made.
pub llm_call-Ends :
    (reply : ℕ → Reply) (max_retries n : ℕ)
    → n ≤ max_retries
    → ((i : ℕ) → i < n → retryable (reply (i + 1)) ≡ true)
    → (retryable (reply (n + 1)) ≡ true → max_retries < n + 1)
    → Ends (final (reply (n + 1))) (n + 1) (llm_call reply max_retries)
unfolding llm_call
llm_call-Ends reply m n le again last =
    attempts_from n reply m n 0 (m + 1) 0 (omega arith) le (omega arith) again last
