-- ===== src/Gateway/Delivered.antt =====
-- What ApprovalGateway.send leaves behind, where the database takes every transaction.
use wiseorder.Prelude.{
  ℕ, ◌+◌, String, ◌≡◌, refl, sym, Bool, true, false, not, ◌&&◌, ◌||◌, Option, none, some, List, [],
  ◌∷◌, ◌++◌, inl, inr, ltb, Bool-cases, Option-cases, if◌then◌else◌,
}
use wiseorder.Prelude.Text.{is_empty, concat}
use wiseorder.Values.{Fields, field, text, end}
use wiseorder.Exec.{Exn, Result, ok, err}
use wiseorder.Exec.Ends.{returns, Run, >>=-ok-Run}
use wiseorder.Db.{Approval, ids, has_id, add_row, find-last, set_row-last}
use wiseorder.Runtime.{World, Env, session_scope, tick}
use wiseorder.Gateway.{
  ApprovalRequest, Card, card_of, approval_record, joined, noted, add_approval, append_line,
  post_discord, post_telegram, set_delivered, send,
}
use mathlib.Core.List.{append-nil}
use wiseorder.Gateway.Format.{format_discord, format_telegram}

-- A place was reached: `name` is listed, or it is not.
abbrev pub listed : String → Bool → List String
listed name true = name ∷ []
listed name false = []

abbrev pub accepted : Result ℕ → Bool
accepted (ok status) = ltb status 300
accepted (err e) = false

abbrev pub succeeds : Option Exn → Bool
succeeds none = true
succeeds (some e) = false

module _ {R : Type 0} (env : Env R) where
  -- Whether the file, Discord and Telegram take the message, at the call with this number.
  abbrev pub file_takes : ℕ → Bool
  file_takes n = succeeds (env.delivery.append_fails n)

  abbrev pub has_discord : Bool
  has_discord = not (is_empty env.delivery.discord_url)

  abbrev pub discord_takes : ℕ → Card → Bool
  discord_takes n card =
      has_discord && accepted (env.delivery.post n env.delivery.discord_url (format_discord card))

  abbrev pub has_telegram : Bool
  has_telegram =
      not (is_empty env.delivery.telegram_token || is_empty env.delivery.telegram_chat_id)

  abbrev telegram_url : String
  telegram_url =
      concat ("https://api.telegram.org/bot" ∷ env.delivery.telegram_token ∷ "/sendMessage" ∷ [])

  abbrev telegram_body : Card → Fields
  telegram_body card =
      field "chat_id" (text env.delivery.telegram_chat_id)
        (field "text" (text (format_telegram card)) (field "parse_mode" (text "Markdown") end))

  abbrev pub telegram_takes : ℕ → Card → Bool
  telegram_takes n card =
      has_telegram && accepted (env.delivery.post n telegram_url (telegram_body card))

  -- The places that take the message, in the order in which they are tried: Telegram's call is one
  -- later where Discord has been called.
  abbrev pub reached : ℕ → Card → List String
  reached n card =
      (listed "file" (file_takes n) ++ listed "discord" (discord_takes (n + 1) card))
      ++ listed "telegram" (telegram_takes (if has_discord then n + 1 + 1 else n + 1) card)

  -- The state after the attempts.
  abbrev after_file : Fields → World R → World R
  after_file line w = record (tick w) {
    approvals_log = w.approvals_log ++ (if file_takes w.calls then line ∷ [] else []);
  }

  abbrev after_call : Bool → World R → World R
  after_call called w = record w { calls = if called then w.calls + 1 else w.calls }

  append_line-eq :
      (line : Fields) (w : World R)
      → append_line env line [] w ≡ (ok (listed "file" (file_takes w.calls)), after_file line w)
  unfolding append_line
  append_line-eq line w = elim (Option-cases (env.delivery.append_fails w.calls)) [
    | inl p ↦ rw (p, append_line)
    | inr (e, p) ↦ rw (p, append_line, append-nil w.approvals_log)
  ]

  noted-listed :
      (channel : String) (d : List String) (r : Result ℕ)
      → noted env channel d r ≡ d ++ listed channel (accepted r)
  noted-listed channel d (err e) = sym (append-nil d)
  noted-listed channel d (ok status) = elim (Bool-cases (ltb status 300)) [
    | inl p ↦ rw p
    | inr p ↦ rw (p, append-nil d)
  ]

  post_discord-eq :
      (card : Card) (d : List String) (w : World R)
      → post_discord env card d w
        ≡ (ok (d ++ listed "discord" (discord_takes w.calls card)), after_call has_discord w)
  unfolding post_discord
  post_discord-eq card d w = elim (Bool-cases (is_empty env.delivery.discord_url)) [
    | inl p ↦ rw (p, append-nil d)
    | inr p ↦ rw p (λ i. (
      ok (
          noted-listed "discord" d
            (env.delivery.post w.calls env.delivery.discord_url (format_discord card)) i),
      tick w,
    ))
  ]

  post_telegram-eq :
      (card : Card) (d : List String) (w : World R)
      → post_telegram env card d w
        ≡ (ok (d ++ listed "telegram" (telegram_takes w.calls card)), after_call has_telegram w)
  unfolding post_telegram
  post_telegram-eq card d w =
      elim (Bool-cases
        (is_empty env.delivery.telegram_token || is_empty env.delivery.telegram_chat_id)) [
          | inl p ↦ rw (p, append-nil d)
          | inr p ↦ rw p (λ i. (
            ok (
                noted-listed "telegram" d
                  (env.delivery.post w.calls telegram_url (telegram_body card)) i),
            tick w,
          ))
        ]

  -- The row that `send` adds, when it has ended.
  abbrev pub sent_row : ApprovalRequest → ℕ → ℕ → List String → Approval
  sent_row req id n delivered = record {
    id = id;
    workflow_id = req.workflow_id;
    task_id = req.task_id;
    summary = req.summary;
    outputs = req.outputs;
    affected = req.affected;
    risk_level = req.risk_level;
    decision = none;
    delivered_via = joined delivered;
    created_at = env.clock n;
    decided_at = none;
  }

  -- The number of the call after the first session, and what is sent.
  abbrev pub card_at : ApprovalRequest → ℕ → ℕ → Card
  card_at req id n = card_of id (env.iso (env.clock n)) req

  -- The id is new, and the one change to the approvals is the added row of a pending decision that
  -- names the places reached.
  pub record Sent (req : ApprovalRequest) (w : World R) (id : ℕ) (t : World R) : Type 0 where
    pub fresh : has_id id (ids (λ (a : Approval). a.id) w.db.approvals) ≡ false
    pub approvals :
        t.db.approvals
        ≡ add_row
            (sent_row req id w.calls (reached (w.calls + 1) (card_at req id (w.calls + 1))))
            w.db.approvals
    pub log :
        t.approvals_log
        ≡ w.approvals_log
          ++ (if file_takes (w.calls + 1)
              then approval_record id (env.iso (env.clock (w.calls + 1))) req ∷ []
              else [])

  abbrev new_id : World R → ℕ
  new_id w = env.postgres.serial w.calls (ids (λ a. a.id) w.db.approvals)

module _ {R : Type 0} (env : Env R) (up : (n : ℕ) → env.postgres.refuses n ≡ none) where
  abbrev added : ApprovalRequest → World R → World R
  added req w = record (tick w) {
    db = record w.db {
      approvals = add_row (sent_row env req (new_id env w) w.calls []) w.db.approvals;
    };
  }

  add_approval-eq :
      (req : ApprovalRequest) (w : World R)
      → add_approval env req w ≡ (ok (new_id env w), added req w)
  unfolding add_approval session_scope
  add_approval-eq req w = rw (up w.calls)

  set_delivered-eq :
      (id : ℕ) (delivered : List String) (w : World R) (r : Approval) (rows : List Approval)
      → w.db.approvals ≡ add_row r rows
      → has_id id (ids (λ (a : Approval). a.id) rows) ≡ false
      → r.id ≡ id
      → set_delivered env id delivered w ≡ (
        ok tt,
        record (tick w) {
          db = record w.db {
            approvals = add_row (record r { delivered_via = joined delivered }) rows;
          };
        },
      )
  unfolding set_delivered session_scope
  set_delivered-eq id delivered w r rows e fresh same = rw (
    up w.calls,
    e,
    find-last (λ (a : Approval). a.id) id r rows fresh same,
    set_row-last (λ (a : Approval). a.id) id (λ a. record a { delivered_via = joined delivered }) r
        rows fresh same,
  )

  -- send always returns, whatever the file, Discord and Telegram do. It adds one approval, under a new
  -- id and with no decision yet, that names just the places that took the message; the line is in the
  -- file unless appending it failed.
  pub send-Run :
      (req : ApprovalRequest) (w : World R) → Run (Sent env req w) (λ e t. ⊥) (send env req) w
  unfolding send
  send-Run req w =
      let id = new_id env w in
      let fresh = env.postgres.serial_fresh w.calls (ids (λ (a : Approval). a.id) w.db.approvals) in
      let t₁ = added req w in
      let line = approval_record id (env.iso (env.clock t₁.calls)) req in
      let card = card_at env req id t₁.calls in
      let t₂ = after_file env line t₁ in
      let t₃ = after_call env (has_discord env) t₂ in
      let t₄ = after_call env (has_telegram env) t₃ in
      >>=-ok-Run (add_approval env req) _ w (add_approval-eq req w) (
        >>=-ok-Run (append_line env line []) _ t₁ (append_line-eq env line t₁) (
          >>=-ok-Run (post_discord env card _) _ t₂ (post_discord-eq env card _ t₂) (
            >>=-ok-Run (post_telegram env card _) _ t₃ (post_telegram-eq env card _ t₃) (
              >>=-ok-Run (set_delivered env id _) _ t₄
                (set_delivered-eq id _ t₄ (sent_row env req id w.calls []) w.db.approvals refl fresh
                  refl)
                (returns (record { fresh = fresh; approvals = refl; log = refl }))))))
