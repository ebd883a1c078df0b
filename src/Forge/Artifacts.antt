-- ===== src/Forge/Artifacts.antt =====
-- The manifest of a demo's artifacts, and what its approval shows.
use Prim.Native.String.{compare}
use Prim.Native.Nat.{Ordering}
use wiseorder.Prelude.{
  ℕ, zero, suc, ◌+◌, ◌/◌, ◌%◌, String, Bool, true, false, Option, none, some, List, [], ◌∷◌, ltb,
  length, if◌then◌else◌,
}
use wiseorder.Prelude.Text
use wiseorder.Prelude.Text.{str_eq, concat, count, is_empty}
use wiseorder.Prelude.Decimal.{str}
use wiseorder.Prelude.Sorting.{sort_by}
use wiseorder.Values.{Items, nil, item, Fields, field, end, text, num, arr, obj, texts}
use wiseorder.Exec.{Result, ok, err}
use wiseorder.Forge.Config.{Entry}

pub record Artifact : Type 0 where
  pub name : String
  pub bytes : ℕ
  pub sha256 : String

pub record Manifest : Type 0 where
  pub scenario : String
  pub title : String
  pub generated_at : String
  pub out_dir : String
  pub artifacts : List Artifact

-- SCENARIO_TITLES.get(scenario, default)
unfoldable pub title_of : String → String → String
title_of default scenario =
    if str_eq scenario "001"
    then "unsafe deployment refusal"
    else if str_eq scenario "002"
    then "SIGKILL recovery proof"
    else if str_eq scenario "003"
    then "offline T7 verification"
    else default

-- sorted(out_dir.iterdir()): the names of one directory differ
abbrev named_before : Entry → Entry → Bool
named_before y e = elim (compare e.name y.name) [ Ordering.gt ↦ true | _ ↦ false ]

unfoldable pub sort_entries : List Entry → List Entry
sort_entries es = sort_by named_before es

-- The loop over the entries: what is no file is passed over, and a read may raise.
unfoldable pub artifacts_of : (List ℕ → String) → List Entry → Result (List Artifact)
artifacts_of sha256 [] = ok []
artifacts_of sha256 (e ∷ es) =
    let rest = artifacts_of sha256 es in
    if e.is_file
    then elim e.body [
      | err x ↦ err x
      | ok body ↦ elim rest [
        | err x ↦ err x
        | ok as' ↦ ok (record { name = e.name; bytes = length body; sha256 = sha256 body } ∷ as')
      ]
    ]
    else rest

unfoldable pub build_manifest :
    (List ℕ → String) → Result (List Entry) → String → String → String → Result Manifest
unfolding artifacts_of sort_entries title_of
build_manifest sha256 listing out_dir scenario stamp = elim listing [
  | err x ↦ err x
  | ok entries ↦ elim (artifacts_of sha256 (sort_entries entries)) [
    | err x ↦ err x
    | ok artifacts ↦ ok (record {
      scenario = scenario;
      title = title_of "" scenario;
      generated_at = stamp;
      out_dir = out_dir;
      artifacts = artifacts;
    })
  ]
]

artifact_items : List Artifact → Items
artifact_items [] = nil
artifact_items (a ∷ as') =
    item
      (obj (
        field "name" (text a.name)
          (field "bytes" (num a.bytes) (field "sha256" (text a.sha256) end))))
      (artifact_items as')

unfoldable pub manifest_dict : Manifest → Fields
unfolding artifact_items
manifest_dict m = field "scenario" (text m.scenario) (
    field "title" (text m.title) (
      field "generated_at" (text m.generated_at) (
        field "out_dir" (text m.out_dir) (
          field "artifact_count" (num (length m.artifacts))
            (field "artifacts" (arr (artifact_items m.artifacts)) end)))))

unfoldable pub total_bytes : List Artifact → ℕ
total_bytes [] = 0
total_bytes (a ∷ as') = a.bytes + total_bytes as'

unfoldable pub names_of : List Artifact → List String
names_of [] = []
names_of (a ∷ as') = a.name ∷ names_of as'

-- f"{n:}": the digits in groups of three, on fuel; n + 1 rounds are enough.
padded : ℕ → String
padded n =
    if ltb n 10
    then concat ("00" ∷ str n ∷ [])
    else if ltb n 100
    then concat ("0" ∷ str n ∷ [])
    else str n

grouped : ℕ → ℕ → String
unfolding padded
grouped zero n = str n
grouped (suc fuel) n =
    let rest = concat (grouped fuel (n / 1000) ∷ "," ∷ padded (n % 1000) ∷ []) in
    if ltb n 1000 then str n else rest

unfoldable pub commas : ℕ → String
unfolding grouped
commas n = grouped (suc n) n

-- The excerpt of the X thread, where the file is there.
excerpt : String → String
excerpt s =
    if is_empty s
    then "(no X thread file)"
    else if ltb 1000 (count s)
    then concat (Text.take 1000 s ∷ "..." ∷ [])
    else s

-- _format_outputs_for_approval, given what reading the X thread does
unfoldable pub format_outputs :
    (Fields → String) → Option (Result String) → Manifest → Result Fields
unfolding title_of names_of total_bytes manifest_dict excerpt
format_outputs digest found m = elim (thread found) [
  | err x ↦ err x
  | ok s ↦ ok (
      field "scenario" (text (concat ("DEMO_" ∷ m.scenario ∷ " — " ∷ title_of "" m.scenario ∷ [])))
        (field "artifacts" (arr (texts (names_of m.artifacts))) (
          field "total_bytes" (num (total_bytes m.artifacts)) (
            field "manifest_sha256" (text (digest (manifest_dict m)))
              (field "x_thread_excerpt" (text (excerpt s)) end)))))
]
  where
    thread : Option (Result String) → Result String
    thread none = ok ""
    thread (some r) = r
