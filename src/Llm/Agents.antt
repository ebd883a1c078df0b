-- ===== src/Llm/Agents.antt =====
-- What the two agents promise of their answers.
use wiseorder.Prelude.{ap, ℕ, ◌≤◌, String, ◌≡◌, ◌⊎◌, inl, inr, arith, [], ◌∷◌, eq_iff}
use wiseorder.Prelude.Text.{count, take, concat, count-take, lower, strip, strip_char}
use package.text.Mathlib.TextLemmas.{length-append}
use wiseorder.Exec.{ok, Result-cases, ok_inj}
use wiseorder.Llm.{
  LlmConfig, SocialDraft, EngineeringSummary, normalize_risk, summarize, draft, summary_of,
  read_summary, trim_post, result_of, llm_call, social_prompt, engineering_prompt, parse_json,
  changed_files_of,
}
use wiseorder.Values.{Value, obj, text, arr, num, flag, null, Fields, lookup}

-- The three risk levels.
abbrev pub IsRisk : String → Type 0
IsRisk r = (r ≡ "low") ⊎ ((r ≡ "medium") ⊎ (r ≡ "high"))

-- Every text is read as one of the three.
pub normalize_risk-IsRisk : (v : String) → IsRisk (normalize_risk v)
unfolding normalize_risk
normalize_risk-IsRisk v = ground (
  arith,
  eq_iff (lower (strip v)) "low",
  eq_iff (lower (strip v)) "medium",
  eq_iff (lower (strip v)) "high",
)

count-ellipsis : (s : String) → count (concat (take 277 s ∷ "..." ∷ [])) ≤ 280
unfolding concat
count-ellipsis s = omega (arith, length-append (take 277 s) "...", count-take 277 s)

trim_post-le : (s : String) → count (trim_post s).post ≤ 280
unfolding trim_post
trim_post-le s =
    let cut = strip (strip_char "'" (strip_char "\"" s)) in ground (arith, count-ellipsis cut)

-- A draft that is returned has at most 280 characters.
pub draft-le :
    (config : LlmConfig) (call : ℕ) (summary changelog risk_level : String) {d : SocialDraft}
    → draft config call summary changelog risk_level ≡ ok d
    → count d.post ≤ 280
unfolding draft
draft-le config call summary changelog risk_level {d} e =
    elim (Result-cases (
      result_of config (
        llm_call (config.acompletion call (social_prompt config summary changelog risk_level))
          config.max_retries))) [
            | inl (x, p) ↦ cc (rw (p, draft) at e)
            | inr (s, p) ↦ let posted = rw (p, draft) at e in rw (← ok_inj posted) (trim_post-le s)
          ]

summary_of-IsRisk :
    (config : LlmConfig) (data' : Fields) {eng : EngineeringSummary}
    → summary_of config data' ≡ ok eng
    → IsRisk eng.risk_level
unfolding summary_of
summary_of-IsRisk config d {eng} e =
    elim (Result-cases (changed_files_of config (lookup "changed_files" d))) [
      | inl (x, p) ↦ cc (rw (p, summary_of) at e)
      | inr (files, p) ↦
          let made = rw (p, summary_of) at e in
          rw (← ap (λ (x : EngineeringSummary). x.risk_level) (ok_inj made))
            (normalize_risk-IsRisk _)
    ]

read_summary-IsRisk :
    (config : LlmConfig) (v : Value) {eng : EngineeringSummary}
    → read_summary config v ≡ ok eng
    → IsRisk eng.risk_level
unfolding read_summary wiseorder.Llm.no_get
read_summary-IsRisk config (obj fs) e = summary_of-IsRisk config fs e
read_summary-IsRisk config (text s) e = cc e
read_summary-IsRisk config (arr vs) e = cc e
read_summary-IsRisk config (num n) e = cc e
read_summary-IsRisk config (flag b) e = cc e
read_summary-IsRisk config null e = cc e

-- A summary that is returned has one of the three risk levels, whatever the provider wrote.
pub summarize-IsRisk :
    (config : LlmConfig) (call : ℕ) (subject author sha diff : String) {eng : EngineeringSummary}
    → summarize config call subject author sha diff ≡ ok eng
    → IsRisk eng.risk_level
unfolding summarize
summarize-IsRisk config call subject author sha diff e =
    elim (Result-cases (
      result_of config (
        llm_call (config.acompletion call (engineering_prompt config subject author sha diff))
          config.max_retries))) [
            | inl (x, p) ↦ cc (rw (p, summarize) at e)
            | inr (s, p) ↦ read_summary-IsRisk config (parse_json config s) (rw (p, summarize) at e)
          ]
