-- ===== src/Gateway.antt =====
-- core/approvals/gateway.py, the class ApprovalGateway.
pub mod Format
pub mod Keeps
pub mod Delivered
pub mod Decisions
use wiseorder.Prelude.{
  ℕ, ◌<◌, String, Bool, true, false, ◌||◌, Option, none, some, List, [], ◌∷◌, ◌++◌, ltb,
  if◌then◌else◌,
}
use wiseorder.Prelude.Text.{str_eq, concat, join, is_empty}
use wiseorder.Values.{Fields, field, end, num, text, obj, arr, texts, opt_num}
use wiseorder.Exec.{
  Result, ok, err, Exn, raised, value_error, Exec, pure, raise, modify, ◌>>=◌, ◌>>◌, try_except,
}
use wiseorder.Db.{Approval, Db, find, ids, set_row, add_row}
use wiseorder.Runtime.{World, Env, tick, scalar_one, session_scope}
use Format.{Card, format_discord, format_telegram}

pub record ApprovalRequest : Type 0 where
  pub summary : String
  pub outputs : Fields
  pub affected : List String
  pub risk_level : String
  pub workflow_id : Option ℕ
  pub task_id : Option ℕ

abbrev assign_approval : ℕ → (Approval → Approval) → Exec Db (Unit {0})
assign_approval i f = do
  db ← λ db. pure db db
  scalar_one (find (λ a. a.id) i db.approvals)
  modify (λ db. record db { approvals = set_row (λ a. a.id) i f db.approvals })

abbrev joined : List String → Option String
joined [] = none
joined (d ∷ ds) = some (join "," (d ∷ ds))

-- `record`, the JSON line of the approval
unfoldable pub approval_record : ℕ → String → ApprovalRequest → Fields
approval_record id ts req = field "approval_id" (num id) (
    field "ts" (text ts) (
      field "summary" (text req.summary) (
        field "outputs" (obj req.outputs) (
          field "affected" (arr (texts req.affected)) (
            field "risk_level" (text req.risk_level) (
              field "workflow_id" (opt_num req.workflow_id)
                (field "task_id" (opt_num req.task_id) end)))))))

-- What the messages show of `record`.
abbrev card_of : ℕ → String → ApprovalRequest → Card
card_of id ts req = record {
  approval_id = id;
  ts = ts;
  summary = req.summary;
  outputs = req.outputs;
  affected = req.affected;
  risk_level = req.risk_level;
}

module _ {R : Type 0} (env : Env R) where
  -- The first session of `send`: the pending row.
  unfoldable pub add_approval : ApprovalRequest → Exec (World R) ℕ
  unfolding session_scope
  add_approval req = session_scope env λ n db.
      let id = env.postgres.serial n (ids (λ a. a.id) db.approvals) in
      let a : Approval = record {
        id = id;
        workflow_id = req.workflow_id;
        task_id = req.task_id;
        summary = req.summary;
        outputs = req.outputs;
        affected = req.affected;
        risk_level = req.risk_level;
        decision = none;
        delivered_via = none;
        created_at = env.clock n;
        decided_at = none;
      } in
      pure id (record db { approvals = add_row a db.approvals })

  -- The line is appended to logs/approvals.jsonl, or the exception is caught.
  append_line : Fields → List String → Exec (World R) (List String)
  append_line line delivered w = elim (env.delivery.append_fails w.calls) [
    | some e ↦ (ok delivered, tick w)
    | none ↦ (
      ok (delivered ++ "file" ∷ []),
      record (tick w) { approvals_log = w.approvals_log ++ line ∷ [] },
    )
  ]

  -- `r.status_code < 300` counts as delivered; a raise and any other status do not.
  abbrev noted : String → List String → Result ℕ → List String
  noted channel delivered (err e) = delivered
  noted channel delivered (ok status) =
      if ltb status 300 then delivered ++ channel ∷ [] else delivered

  post_discord : Card → List String → Exec (World R) (List String)
  post_discord card delivered w = if is_empty env.delivery.discord_url then (ok delivered, w) else (
    ok (
        noted "discord" delivered
          (env.delivery.post w.calls env.delivery.discord_url (format_discord card))),
    tick w,
  )

  post_telegram : Card → List String → Exec (World R) (List String)
  post_telegram card delivered w =
      if is_empty env.delivery.telegram_token || is_empty env.delivery.telegram_chat_id
      then (ok delivered, w)
      else (
        ok (
            noted "telegram" delivered (
              env.delivery.post w.calls
                (concat (
                  "https://api.telegram.org/bot" ∷ env.delivery.telegram_token ∷ "/sendMessage"
                  ∷ []))
                (field "chat_id" (text env.delivery.telegram_chat_id) (
                  field "text" (text (format_telegram card))
                    (field "parse_mode" (text "Markdown") end))))),
        tick w,
      )

  -- The last session of `send`.
  set_delivered : ℕ → List String → Exec (World R) (Unit {0})
  unfolding session_scope
  set_delivered id delivered =
      session_scope env λ n. assign_approval id (λ a. record a { delivered_via = joined delivered })

  unfoldable pub send : ApprovalRequest → Exec (World R) ℕ
  unfolding add_approval append_line post_discord post_telegram set_delivered
  send req = do
    approval_id ← add_approval req
    ts ← λ w. pure (env.iso (env.clock w.calls)) w
    let card = card_of approval_id ts req
    on_file ← append_line (approval_record approval_id ts req) []
    on_discord ← post_discord card on_file
    delivered ← post_telegram card on_discord
    set_delivered approval_id delivered
    pure approval_id

  abbrev is_decision : String → Bool
  is_decision d = str_eq d "approved" || str_eq d "rejected"

  -- decide's session: False where there is no such row.
  write_decision : ℕ → String → Exec (World R) Bool
  unfolding session_scope
  write_decision approval_id decision = session_scope env λ n db.
      elim (find (λ a. a.id) approval_id db.approvals) [
        | none ↦ pure false db
        | some _ ↦ pure true (record db {
          approvals =
              set_row (λ a. a.id) approval_id
                (λ a. record a { decision = some decision; decided_at = some (env.clock n) })
                db.approvals;
        })
      ]

  unfoldable pub decide : ℕ → String → Exec (World R) Bool
  unfolding write_decision
  decide approval_id decision =
      if is_decision decision
      then write_decision approval_id decision
      else raise (raised value_error "decision must be 'approved' or 'rejected'")
