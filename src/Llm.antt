-- ===== src/Llm.antt =====
-- agents/engineering/summarizer.py and agents/social/post_generator.py: the bounded LLM call, and the
-- two agents over it. The provider (litellm) answers each attempt with a reply; what re.search finds
-- for the two patterns of `_parse_json`, json.loads and Python's `str` of a value that is no text are
-- parameters too.
pub mod Retries
pub mod Agents
use wiseorder.Prelude.{
  ℕ, zero, suc, ◌+◌, ◌^◌, String, Bool, true, false, Option, none, some, List, [], ◌∷◌, min, ltb,
  if◌then◌else◌,
}
use wiseorder.Prelude.Text.{
  str_eq, strip, lower, replace, characters, count, take, concat, strip_char,
}
use wiseorder.Values.{
  Value, null, text, arr, obj, flag, num, Items, nil, item, Fields, end, field, lookup, texts,
}
use wiseorder.Exec.{
  Result, ok, err, Exn, raised, Kind, timeout_error, rate_limit, api_connection,
  service_unavailable, type_error, other,
}

-- What one awaited `acompletion` does: it answers, it is cut off by `wait_for`, it raises one of the
-- three errors that are tried again, or it raises another.
pub data Reply : Type 0 where
  content : String → Reply
  timed_out : Reply
  transient : Exn → Reply
  broken : Exn → Reply

-- A call that has ended: its result, the attempts made and the seconds slept between them.
pub record Call : Type 0 where
  pub result : Result String
  pub attempts : ℕ
  pub slept : ℕ

abbrev pub timeout_exn : Exn
timeout_exn = raised timeout_error ""

abbrev ended : ℕ → ℕ → Result String → Option Call
ended attempts slept r = some (record { result = r; attempts = attempts; slept = slept })

-- The `while True` of `_llm_call`, from the state before an attempt. `none`: the fuel ran out.
unfoldable pub llm_loop : ℕ → (ℕ → Reply) → ℕ → ℕ → ℕ → Option Call
llm_loop zero reply max_retries attempt slept = none
llm_loop (suc fuel) reply max_retries attempt slept =
    let attempt' = attempt + 1 in
    let again = llm_loop fuel reply max_retries attempt' slept in
    let later = llm_loop fuel reply max_retries attempt' (slept + min (2 ^ attempt') 30) in
    elim (reply attempt') [
      | content s ↦ ended attempt' slept (ok (strip s))
      | timed_out ↦
          if ltb max_retries attempt' then ended attempt' slept (err timeout_exn) else again
      | transient e ↦ if ltb max_retries attempt' then ended attempt' slept (err e) else later
      | broken e ↦ ended attempt' slept (err e)
    ]

-- _llm_call: attempt n is answered by `reply n`, from 1 on.
unfoldable pub llm_call : (ℕ → Reply) → ℕ → Option Call
unfolding llm_loop
llm_call reply max_retries = llm_loop (max_retries + 1) reply max_retries 0 0

pub record LlmConfig : Type 0 where
  -- The provider's reply to the prompt at an attempt of a call, which is numbered.
  pub acompletion : ℕ → String → ℕ → Reply
  pub max_retries : ℕ
  pub engineering_template : String
  pub social_template : String
  -- What re.search finds for the two patterns of `_parse_json`: the group of the first, a fenced block
  -- with a pair of braces, and the match of the second, the longest text between braces.
  pub fenced : String → Option String
  pub braced : String → Option String
  -- json.loads; `none` on JSONDecodeError
  pub loads : String → Option Value
  -- str(v), for a value that is no text
  pub py_str : Value → String

pub record EngineeringSummary : Type 0 where
  pub summary : String
  pub changed_files : List String
  pub changelog : String
  pub risk_level : String

pub record SocialDraft : Type 0 where
  pub post : String

unfoldable pub normalize_risk : String → String
normalize_risk v =
    let w = lower (strip v) in
    if str_eq w "low"
    then w
    else if str_eq w "medium"
    then w
    else if str_eq w "high"
    then w
    else "low"

-- The last lines of SocialDrafter.draft: quotes are stripped, and a long post is cut.
trim_post : String → SocialDraft
trim_post s =
    let cut = strip (strip_char "'" (strip_char "\"" s)) in
    record { post = if ltb 280 (count cut) then concat (take 277 cut ∷ "..." ∷ []) else cut }

module _ (config : LlmConfig) where
  abbrev str_of : Value → String
  str_of (text s) = s
  str_of v = config.py_str v

  abbrev str_or : String → Option Value → String
  str_or default none = default
  str_or default (some v) = str_of v

  item_strs : Items → List String
  item_strs nil = []
  item_strs (item v vs) = str_of v ∷ item_strs vs

  keys_of : Fields → List String
  keys_of end = []
  keys_of (field k v fs) = k ∷ keys_of fs

  -- [str(x) for x in data.get("changed_files", [])]
  changed_files_of : Option Value → Result (List String)
  unfolding item_strs keys_of
  changed_files_of none = ok []
  changed_files_of (some (arr vs)) = ok (item_strs vs)
  changed_files_of (some (text s)) = ok (characters s)
  changed_files_of (some (obj fs)) = ok (keys_of fs)
  changed_files_of (some _) = err (raised type_error "object is not iterable")

  -- The part of a reply that `_parse_json` reads.
  cut_out : String → String
  cut_out s = elim (config.fenced s) [
    | some x ↦ x
    | none ↦ elim (config.braced s) [ some x ↦ x | none ↦ s ]
  ]

  -- _parse_json: a part that is no JSON becomes the summary.
  parse_json : String → Value
  unfolding cut_out
  parse_json s =
      let part = cut_out s in
      elim (config.loads part) [
        | some v ↦ v
        | none ↦ obj (
            field "summary" (text (take 500 part)) (
              field "changed_files" (arr nil)
                (field "changelog" (text "") (field "risk_level" (text "low") end))))
      ]

  summary_of : Fields → Result EngineeringSummary
  unfolding changed_files_of
  summary_of d = elim (changed_files_of (lookup "changed_files" d)) [
    | err e ↦ err e
    | ok files ↦ ok (record {
      summary = strip (str_or "" (lookup "summary" d));
      changed_files = files;
      changelog = strip (str_or "" (lookup "changelog" d));
      risk_level = normalize_risk (str_or "low" (lookup "risk_level" d));
    })
  ]

  no_get : String → Result EngineeringSummary
  no_get type = err (raised other (concat ("'" ∷ type ∷ "' object has no attribute 'get'" ∷ [])))

  -- data.get(..) of what was parsed: AttributeError where it is no dict
  read_summary : Value → Result EngineeringSummary
  unfolding summary_of no_get
  read_summary (obj fs) = summary_of fs
  read_summary (text s) = no_get "str"
  read_summary (arr vs) = no_get "list"
  read_summary (num n) = no_get "int"
  read_summary (flag b) = no_get "bool"
  read_summary null = no_get "NoneType"

  abbrev result_of : Option Call → Result String
  result_of none = err timeout_exn
  result_of (some c) = c.result

  engineering_prompt : String → String → String → String → String
  engineering_prompt subject author sha diff = replace "{{diff}}" diff (
      replace "{{sha}}" sha
        (replace "{{author}}" author (replace "{{subject}}" subject config.engineering_template)))

  -- EngineeringSummarizer().summarize(..), as the LLM call with this number.
  unfoldable pub summarize : ℕ → String → String → String → String → Result EngineeringSummary
  unfolding read_summary parse_json engineering_prompt
  summarize call subject author sha diff =
      let reply = config.acompletion call (engineering_prompt subject author sha diff) in
      elim (result_of (llm_call reply config.max_retries)) [
        | err e ↦ err e
        | ok s ↦ read_summary (parse_json s)
      ]

  social_prompt : String → String → String → String
  social_prompt summary changelog risk_level =
      replace "{{risk_level}}" risk_level
        (replace "{{changelog}}" changelog (replace "{{summary}}" summary config.social_template))

  -- SocialDrafter().draft(..)
  unfoldable pub draft : ℕ → String → String → String → Result SocialDraft
  unfolding social_prompt trim_post
  draft call summary changelog risk_level =
      let reply = config.acompletion call (social_prompt summary changelog risk_level) in
      elim (result_of (llm_call reply config.max_retries)) [
        | err e ↦ err e
        | ok s ↦ ok (trim_post s)
      ]
