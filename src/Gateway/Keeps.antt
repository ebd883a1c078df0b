-- ===== src/Gateway/Keeps.antt =====
-- `send` leaves the tables of tasks and workflows, the Redis server and the context variables alone,
-- on every path.
use wiseorder.Prelude.{ℕ, String, refl, List, [], arith}
use wiseorder.Values.{Fields}
use wiseorder.Exec.{pure}
use wiseorder.Runtime.{Env}
use wiseorder.Runtime.Apart.{Apart, apart_rules}
use wiseorder.Runtime.Keeps.{SameSteps-refl, Keeps, Keeps-bind, Keeps-session}
use wiseorder.Gateway.{
  ApprovalRequest, Card, send, add_approval, append_line, post_discord, post_telegram,
  set_delivered, approval_record, card_of,
}

module _ {R : Type 0} (env : Env R) where
  add_approval-Keeps : (req : ApprovalRequest) → Keeps (add_approval env req)
  unfolding add_approval
  add_approval-Keeps req = Keeps-session env _ (λ n db. refl) (λ n db. refl)

  append_line-Keeps : (line : Fields) (d : List String) → Keeps (append_line env line d)
  unfolding append_line
  append_line-Keeps line d = record {
    at = λ w. record { tasks = ground arith; workflows = ground arith };
  }

  post_discord-Keeps : (card : Card) (d : List String) → Keeps (post_discord env card d)
  unfolding post_discord
  post_discord-Keeps card d = record {
    at = λ w. record { tasks = ground arith; workflows = ground arith };
  }

  post_telegram-Keeps : (card : Card) (d : List String) → Keeps (post_telegram env card d)
  unfolding post_telegram
  post_telegram-Keeps card d = record {
    at = λ w. record { tasks = ground arith; workflows = ground arith };
  }

  set_delivered-Keeps : (id : ℕ) (d : List String) → Keeps (set_delivered env id d)
  unfolding set_delivered
  set_delivered-Keeps id d = Keeps-session env _ (λ n db. ground arith) (λ n db. ground arith)

  Keeps-pure : {A : Type 0} (a : A) → Keeps {R = R} (pure a)
  Keeps-pure a = record { at = SameSteps-refl }

  pub send-Keeps : (req : ApprovalRequest) → Keeps (send env req)
  unfolding send
  send-Keeps req = Keeps-bind (add_approval env req) _ (add_approval-Keeps req) λ id.
      Keeps-bind (λ w. pure (env.iso (env.clock w.calls)) w) _ (record { at = SameSteps-refl })
        λ ts.
          Keeps-bind (append_line env (approval_record id ts req) []) _
            (append_line-Keeps (approval_record id ts req) [])
            λ on_file.
              Keeps-bind (post_discord env (card_of id ts req) on_file) _
                (post_discord-Keeps (card_of id ts req) on_file)
                λ on_discord.
                  Keeps-bind (post_telegram env (card_of id ts req) on_discord) _
                    (post_telegram-Keeps (card_of id ts req) on_discord)
                    λ delivered.
                      Keeps-bind (set_delivered env id delivered) _
                        (set_delivered-Keeps id delivered) λ _. Keeps-pure id

  append_line-Apart : (line : Fields) (d : List String) → Apart (append_line env line d)
  unfolding append_line
  append_line-Apart line d = record { at = λ w. ground arith }

  post_discord-Apart : (card : Card) (d : List String) → Apart (post_discord env card d)
  unfolding post_discord
  post_discord-Apart card d = record { at = λ w. ground arith }

  post_telegram-Apart : (card : Card) (d : List String) → Apart (post_telegram env card d)
  unfolding post_telegram
  post_telegram-Apart card d = record { at = λ w. ground arith }

  now-Apart : Apart {R = R} (λ w. pure (env.iso (env.clock w.calls)) w)
  now-Apart = record { at = λ w. refl }

  pub send-Apart : (req : ApprovalRequest) → Apart (send env req)
  unfolding send add_approval set_delivered
  send-Apart req =
      search (apart_rules, append_line-Apart, post_discord-Apart, post_telegram-Apart, now-Apart)
        depth 9
