-- ===== src/Pipeline/Records.antt =====
-- workflows/commit_pipeline.py: what a commit is, and the texts and records that a run of it makes.
use wiseorder.Prelude.{ℕ, String, Option, some, List, [], ◌∷◌, if◌then◌else◌}
use wiseorder.Prelude.Text
use wiseorder.Prelude.Text.{str_eq, concat, join, is_empty, after_last}
use wiseorder.Values.{text, Fields, field, end, texts, arr}
use wiseorder.Llm.{EngineeringSummary, SocialDraft}
use wiseorder.Gateway.{ApprovalRequest}

pub record Commit : Type 0 where
  pub repo : String
  pub sha : String
  pub subject : String
  pub author : String
  pub diff : String

-- What the handler returns: the dict of a run, or that of a skipped duplicate.
pub data RunResult : Type 0 where
  finished : (workflow_id approval_id : ℕ) → EngineeringSummary → String → RunResult
  skipped : (workflow_id : Option ℕ) → (reason : String) → RunResult

abbrev pub task_chain : List String
task_chain = "summarize" ∷ "draft_social" ∷ "save" ∷ "request_approval" ∷ []

-- EngineeringSummary.to_dict(), SocialDraft.to_dict()
abbrev pub summary_dict : EngineeringSummary → Fields
summary_dict eng = field "summary" (text eng.summary) (
    field "changed_files" (arr (texts eng.changed_files))
      (field "changelog" (text eng.changelog) (field "risk_level" (text eng.risk_level) end)))

abbrev pub draft_dict : SocialDraft → Fields
draft_dict soc = field "post" (text soc.post) end

abbrev pub sha_of : Commit → Fields
sha_of c = field "sha" (text c.sha) end

unfoldable pub memory_content : Commit → EngineeringSummary → String
memory_content c eng = concat (
    "["
    ∷ Text.take 8 c.sha
    ∷ "] "
    ∷ c.subject
    ∷ "\n\n"
    ∷ eng.summary
    ∷ "\n\nChangelog: "
    ∷ eng.changelog
    ∷ "\nRisk: "
    ∷ eng.risk_level
    ∷ "\nFiles: "
    ∷ join ", " eng.changed_files
    ∷ [])

unfoldable pub memory_meta : Commit → EngineeringSummary → Fields
memory_meta c eng = field "repo" (text c.repo) (
    field "sha" (text c.sha) (
      field "author" (text c.author) (
        field "risk" (text eng.risk_level) (
          field "changelog" (text eng.changelog) (
            field "files" (arr (texts eng.changed_files))
              (field "subject" (text c.subject) end))))))

unfoldable pub approval_request :
    ℕ → ℕ → Commit → EngineeringSummary → SocialDraft → ApprovalRequest
approval_request workflow_id task_id c eng soc = record {
  summary = concat (
      "Commit "
      ∷ Text.take 8 c.sha
      ∷ " in "
      ∷ after_last "/" c.repo
      ∷ ": "
      ∷ (if is_empty c.subject then "(no subject)" else c.subject)
      ∷ []);
  outputs =
      field "engineering_summary" (text eng.summary)
        (field "changelog" (text eng.changelog) (field "social_post" (text soc.post) end));
  affected = eng.changed_files;
  risk_level = eng.risk_level;
  workflow_id = some workflow_id;
  task_id = some task_id;
}
