-- ===== src/Pipeline.antt =====
-- workflows/commit_pipeline.py. The values of the payload's keys repo, sha, subject, author and diff
-- are texts, as the annotations of `_run_pipeline_steps` say.
pub mod Records
pub mod Stages
pub mod Outcome
pub mod Context
pub mod Skips
pub mod Held
pub mod Claimed
pub mod Whole
pub mod Failed
use wiseorder.Prelude.{
  ℕ, ◌+◌, String, Bool, true, false, not, ◌||◌, Option, none, some, List, [], ◌∷◌, ◌++◌,
  if◌then◌else◌,
}
use wiseorder.Prelude.Text
use wiseorder.Prelude.Text.{str_eq, concat, join, is_empty, after_last}
use wiseorder.Prelude.Decimal.{is_digit, int}
use wiseorder.Values.{
  Value, text, num, Fields, field, end, lookup, has_key, texts, arr, opt_num, obj, flag,
}
use wiseorder.Exec.{
  Result, ok, err, Exn, raised, value_error, Exec, pure, raise, lift, modify, ◌>>=◌, ◌>>◌,
  try_except,
}
use wiseorder.Dedup
use wiseorder.Dedup.{ClaimResult, pending_mark}
use wiseorder.Db.{Memory, Db, find, ids, set_row, add_row}
use wiseorder.Runtime.{World, Env, tick, on_redis, scalar_one, session_scope}
use wiseorder.Llm.{EngineeringSummary, SocialDraft, summarize, draft}
use wiseorder.Gateway.{ApprovalRequest, send}
use wiseorder.Steps.{
  create_task, complete_task, append_log, complete_workflow, start_workflow, guarded,
}
use Records.{
  Commit, RunResult, finished, skipped, task_chain, summary_dict, draft_dict, sha_of,
  memory_content, memory_meta, approval_request,
}

module _ {R : Type 0} (env : Env R) where
  -- An awaited agent: one call of the outside.
  abbrev agent : {A : Type 0} → (ℕ → Result A) → Exec (World R) A
  agent f w = (f w.calls, tick w)

  pub summarize_step : ℕ → Commit → Exec (World R) EngineeringSummary
  summarize_step workflow_id c = do
    task_id ←
        create_task env "summarize" workflow_id
          (field "sha" (text c.sha) (field "repo" (text c.repo) end))
    guarded env workflow_id "summarize" task_id (do
      eng ← agent (λ n. summarize env.llm n c.subject c.author c.sha c.diff)
      complete_task env task_id (summary_dict eng)
      append_log env workflow_id "summary_done" (field "risk" (text eng.risk_level) end)
      pure eng)

  pub draft_step : ℕ → Commit → EngineeringSummary → Exec (World R) SocialDraft
  draft_step workflow_id c eng = do
    task_id ← create_task env "draft_social" workflow_id (sha_of c)
    guarded env workflow_id "draft" task_id (do
      soc ← agent (λ n. draft env.llm n eng.summary eng.changelog eng.risk_level)
      complete_task env task_id (draft_dict soc)
      append_log env workflow_id "social_done" (field "len" (num (Text.count soc.post)) end)
      pure soc)

  add_memory : Commit → EngineeringSummary → Exec (World R) ℕ
  unfolding session_scope memory_content memory_meta
  add_memory c eng = session_scope env λ n db.
      let id = env.postgres.serial n (ids (λ m. m.id) db.memory) in
      let m : Memory = record {
        id = id;
        category = "commit_summary";
        content = memory_content c eng;
        embedding_id = none;
        meta = memory_meta c eng;
        created_at = env.clock n;
      } in
      pure id (record db { memory = add_row m db.memory })

  -- `row.embedding_id = f"commit:{sha}"`
  mark_embedded : ℕ → Commit → Exec (World R) (Unit {0})
  unfolding session_scope
  mark_embedded memory_id c = session_scope env λ n db.
      let found = find (λ m. m.id) memory_id db.memory in
      let set =
        λ (m : Memory). record m { embedding_id = some (concat ("commit:" ∷ c.sha ∷ [])) } in
      (scalar_one found >>= λ _ db.
      pure tt (record db { memory = set_row (λ m. m.id) memory_id set db.memory }))
        db

  -- get_vector_store().upsert(..): the index is the vector store's own.
  vector_upsert : Exec (World R) (Unit {0})
  vector_upsert w = elim (env.upsert_fails w.calls) [
    | some e ↦ (err e, tick w)
    | none ↦ (ok tt, tick w)
  ]

  pub save_step : ℕ → Commit → EngineeringSummary → Exec (World R) (Unit {0})
  unfolding add_memory mark_embedded vector_upsert
  save_step workflow_id c eng = do
    task_id ← create_task env "save" workflow_id (sha_of c)
    guarded env workflow_id "save" task_id (do
      memory_id ← add_memory c eng
      try_except (vector_upsert >> mark_embedded memory_id c) (λ e. pure tt)
      complete_task env task_id (field "memory_id" (num memory_id) end))

  pub approval_step : ℕ → Commit → EngineeringSummary → SocialDraft → Exec (World R) ℕ
  unfolding approval_request
  approval_step workflow_id c eng soc = do
    task_id ← create_task env "request_approval" workflow_id (sha_of c)
    guarded env workflow_id "approval" task_id (do
      approval_id ← send env (approval_request workflow_id task_id c eng soc)
      complete_task env task_id (field "approval_id" (num approval_id) end)
      append_log env workflow_id "approval_sent" (field "id" (num approval_id) end)
      pure approval_id)

  unfoldable pub run_pipeline_steps : ℕ → Commit → Exec (World R) RunResult
  unfolding summarize_step draft_step save_step approval_step guarded
  run_pipeline_steps workflow_id c = do
    eng ← summarize_step workflow_id c
    soc ← draft_step workflow_id c eng
    save_step workflow_id c eng
    approval_id ← approval_step workflow_id c eng soc
    complete_workflow env "workflow_completed" end workflow_id
    pure (finished workflow_id approval_id eng soc.post)

-- `existing_value = claim.existing_value or "unknown"`
abbrev existing_of : Option String → String
existing_of none = "unknown"
existing_of (some s) = if is_empty s then "unknown" else s

-- What a duplicate is answered with.
unfoldable pub skip_outcome : ClaimResult → RunResult
unfolding is_digit int
skip_outcome claim =
    let existing = existing_of claim.existing_value in
    skipped (if is_digit existing then some (int existing) else none)
      (if str_eq existing pending_mark then "in_flight" else "duplicate_sha")

abbrev text_or : String → Option Value → String
text_or default (some (text s)) = s
text_or default _ = default

abbrev pub commit_of : Fields → Commit
commit_of payload = record {
  repo = text_or "" (lookup "repo" payload);
  sha = text_or "" (lookup "sha" payload);
  subject = text_or "" (lookup "subject" payload);
  author = text_or "" (lookup "author" payload);
  diff = text_or "" (lookup "diff" payload);
}

-- sorted(required - payload.keys()), for the two required keys
abbrev pub missing_keys : Fields → List String
missing_keys payload =
    (if has_key "repo" payload then [] else "repo" ∷ [])
    ++ (if has_key "sha" payload then [] else "sha" ∷ [])

-- `try: return await m` / `finally: current_workflow_id.reset(token)`
unfoldable pub with_workflow : {R A : Type 0} → ℕ → Exec (World R) A → Exec (World R) A
with_workflow workflow_id m w =
    let (r, w') = m (record w { current_workflow_id = some workflow_id }) in
    (r, record w' { current_workflow_id = w.current_workflow_id })

-- The seconds that the steps take pass in Redis too. The steps send it no command, so it is all one when.
unfoldable pub lasting : {R A : Type 0} → Env R → ℕ → Exec (World R) A → Exec (World R) A
lasting env workflow_id m w =
    let (r, w') = m w in
    (r, record w' { redis = env.redis.elapse (env.lasts workflow_id) w'.redis })

module _ {R : Type 0} (env : Env R) where
  unfoldable pub require_keys : List String → Exec (World R) (Unit {0})
  require_keys [] = pure tt
  require_keys (k ∷ ks) = raise (
      raised value_error (
        concat
          ("commit_pipeline payload missing required keys: ['" ∷ join "', '" (k ∷ ks) ∷ "']" ∷ [])))

  -- The run of a commit whose claim was won.
  unfoldable pub run_claimed : Commit → Exec (World R) RunResult
  unfolding with_workflow lasting
  run_claimed c = do
    workflow_id ←
        start_workflow env "commit_pipeline" task_chain "workflow_started"
          (field "repo" (text c.repo) (field "sha" (text c.sha) end))
    on_redis (Dedup.attach_workflow_id env.redis env.claims c.repo c.sha workflow_id)
    with_workflow workflow_id (lasting env workflow_id (run_pipeline_steps env workflow_id c))

  unfoldable pub run_commit_pipeline : Fields → Exec (World R) RunResult
  unfolding require_keys run_claimed skip_outcome lookup
  run_commit_pipeline payload = do
    require_keys (missing_keys payload)
    let c = commit_of payload
    claim ← on_redis (Dedup.acquire env.redis env.claims c.repo c.sha)
    if claim.acquired then run_claimed c else pure (skip_outcome claim)
