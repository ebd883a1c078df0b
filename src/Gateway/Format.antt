-- ===== src/Gateway/Format.antt =====
-- The message bodies of core/approvals/gateway.py: `_trim`, `_risk_color`, `_format_discord` and
-- `_format_telegram`. The outputs that are shown are texts, as the commit pipeline writes them.
use wiseorder.Prelude.{
  ℕ, ◌-◌, String, false, Option, some, List, [], ◌∷◌, ◌++◌, map, take, leb, if◌then◌else◌,
}
use wiseorder.Prelude.Text
use wiseorder.Prelude.Text.{str_eq, concat, join, count, is_empty, upper, count-take}
use wiseorder.Prelude.Decimal.{str}
use wiseorder.Values.{
  Value, text, num, flag, arr, obj, Items, nil, item, Fields, end, field, lookup,
}

-- _trim(s, n)
unfoldable pub trim : String → ℕ → String
trim s n = if leb (count s) n then s else concat (Text.take (n - 3) s ∷ "..." ∷ [])

-- _risk_color(risk)
unfoldable pub risk_color : String → ℕ
risk_color risk =
    if str_eq risk "low"
    then 0x2ECC71
    else if str_eq risk "medium"
    then 0xF1C40F
    else if str_eq risk "high"
    then 0xE74C3C
    else 0x95A5A6

-- The part of an approval that its messages show.
pub record Card : Type 0 where
  pub approval_id : ℕ
  pub ts : String
  pub summary : String
  pub outputs : Fields
  pub affected : List String
  pub risk_level : String

abbrev as_shown : Option Value → String
as_shown (some (text s)) = s
as_shown _ = ""

-- outputs.get(k, "")
abbrev output : String → Fields → String
output k outputs = as_shown (lookup k outputs)

bullets : List String → String
bullets affected = join "\n" (map (λ p. concat ("• " ∷ p ∷ [])) (take 10 affected))

embed_field : String → String → Value
embed_field name value =
    obj (field "name" (text name) (field "value" (text value) (field "inline" (flag false) end)))

abbrev when_shown : String → Value → Items → Items
when_shown s v rest = if is_empty s then rest else item v rest

unfoldable pub format_discord : Card → Fields
unfolding bullets embed_field trim risk_color lookup
format_discord card =
    let listed = bullets card.affected in
    let affected = if is_empty listed then "(none listed)" else listed in
    let eng = output "engineering_summary" card.outputs in
    let social = output "social_post" card.outputs in
    field "username" (text "WiseOrder") (
      field "embeds"
        (arr (
          item
            (obj (
              field "title"
                (text (
                  concat
                    ("Approval #" ∷ str card.approval_id ∷ " — " ∷ upper card.risk_level ∷ [])))
                (field "description" (text (trim card.summary 2048)) (
                  field "color" (num (risk_color card.risk_level)) (
                    field "fields"
                      (arr (
                        when_shown eng (embed_field "Engineering summary" (trim eng 1024)) (
                          when_shown social (embed_field "Social draft" (trim social 1024))
                            (item (embed_field "Affected files" (trim affected 1024)) nil))))
                      (field "timestamp" (text card.ts) end))))))
            nil))
        end)

abbrev section : String → List String → List String
section s parts = if is_empty s then [] else parts

-- `if record["affected"]:`
abbrev files_section : List String → String → List String
files_section [] listed = []
files_section (p ∷ ps) listed = "" ∷ "*Affected files*" ∷ listed ∷ []

unfoldable pub format_telegram : Card → String
unfolding bullets trim lookup
format_telegram card =
    let eng = output "engineering_summary" card.outputs in
    let social = output "social_post" card.outputs in
    let listed = bullets card.affected in
    Text.take 4000 (
      join "\n" (
        (concat ("*Approval #" ∷ str card.approval_id ∷ "* — `" ∷ card.risk_level ∷ "`" ∷ [])
          ∷ ""
          ∷ card.summary
          ∷ [])
        ++ (section eng ("" ∷ "*Engineering summary*" ∷ trim eng 1500 ∷ [])
            ++ (section social ("" ∷ "*Social draft*" ∷ trim social 1000 ∷ [])
                ++ files_section card.affected listed))))
