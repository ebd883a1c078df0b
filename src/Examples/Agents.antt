-- ===== src/Examples/Agents.antt =====
-- The LLM call and the agents over sample replies.
use wiseorder.Prelude.{
  ℕ, ◌≤◌, ◌<◌, ◌+◌, ◌⊎◌, inl, inr, String, ◌≡◌, refl, arith, true, false, Option, none, some, List,
  [], ◌∷◌,
}
use wiseorder.Prelude.Text.{count}
use wiseorder.Exec.{ok}
use wiseorder.Llm.{Reply, content, llm_call, summarize, draft}
use wiseorder.Llm.Retries.{Bounded, llm_call-Bounded, Ends, final, llm_call-Ends, retryable}
use wiseorder.Llm.Agents.{IsRisk, summarize-IsRisk}
use wiseorder.Examples.Sample.{sample_llm, sample_replies}

llm_call-Bounded_example : Bounded 2 (llm_call sample_replies 2)
llm_call-Bounded_example = llm_call-Bounded sample_replies 2

first_fails : (i : ℕ) → i < 1 → retryable (sample_replies (i + 1)) ≡ true
first_fails i h = ground arith

llm_call-Ends_example : Ends (final (content " fine ")) 2 (llm_call sample_replies 2)
llm_call-Ends_example = llm_call-Ends sample_replies 2 1 (omega arith) first_fails (λ e. cc)

summarized :
    summarize sample_llm 1 "a" "b" "c" "d"
    ≡ ok (record { summary = "fine"; changed_files = []; changelog = ""; risk_level = "low" })
unfolding summarize llm_call wiseorder.Llm.llm_loop wiseorder.Prelude.Text.strip
    wiseorder.Prelude.Text.take wiseorder.Llm.normalize_risk wiseorder.Prelude.Text.lower
    wiseorder.Values.lookup
summarized = refl

summarize-IsRisk_example : IsRisk "low"
summarize-IsRisk_example = summarize-IsRisk sample_llm 1 "a" "b" "c" "d" summarized
