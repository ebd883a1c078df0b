-- ===== src/Events/Chain.antt =====
-- The commits that a handler emits over a run of file events.
use wiseorder.Prelude.{
  ◌≤◌, String, ◌≡◌, true, false, Option, none, some, List, [], ◌∷◌, ◌++◌, arith, Bool-cases,
  Option-cases, inl, inr,
}
use wiseorder.Prelude.Text
use package.text.Mathlib.TextLemmas.{length-append as text_append}
use wiseorder.Prelude.Text.{str_eq, is_empty, count, concat, count-take}
use wiseorder.Events.{
  GitHeadHandler, Emission, takes, EventPath, is_head_path, on_any_event, notice, moved_to, differs,
  truncate_diff,
}

-- A file event and the head that git gives after it.
abbrev pub HeadEvent : Type 0
HeadEvent = EventPath × Option String

-- The events one after another, while the loop takes every call.
unfoldable pub handle_events : GitHeadHandler → List HeadEvent → GitHeadHandler × List Emission
handle_events h [] = (h, [])
handle_events h ((src, current) ∷ events) =
    let (h₁, now) = on_any_event h src current takes in
    let (h₂, later) = handle_events h₁ events in (h₂, now ++ later)

-- The emissions lead from the first head to the last: each names the head before it, and a new one
-- that differs from it and is not empty.
pub data Leads : Option String → List Emission → Option String → Type 0 where
  stays : {a : Option String} → Leads a [] a
  steps :
      {a b : Option String} {es : List Emission} (sha : String)
      → is_empty sha ≡ false
      → differs sha a ≡ true
      → Leads (some sha) es b
      → Leads a (record { prev_sha = a; new_sha = sha } ∷ es) b

pub moved_to-some :
    (last current : Option String) (sha : String)
    → moved_to last current ≡ some sha
    → (is_empty sha ≡ false) × (differs sha last ≡ true)
moved_to-some last none sha e = cc
moved_to-some last (some s) sha e = elim (Bool-cases (is_empty s)) [
  | inl p ↦ cc (rw (p, moved_to) at e)
  | inr p ↦ elim (Bool-cases (differs s last)) [
    | inr q ↦ cc (rw (p, q, moved_to) at e)
    | inl q ↦
        let same : some s ≡ some sha = rw (p, q, moved_to) at e in
        let one : s ≡ sha = cc in (rw (← one) p, rw (← one) q)
  ]
]

pub notice-Leads :
    (h : GitHeadHandler) (current : Option String) (es : List Emission) (b : Option String)
    → Leads (notice h current takes).0.last_sha es b
    → Leads h.last_sha ((notice h current takes).1 ++ es) b
unfolding notice
notice-Leads h current es b l = elim (Option-cases (moved_to h.last_sha current)) [
  | inl p ↦ rw (p, ◌++◌) (rw (p, notice) at l)
  | inr (sha, p) ↦
      let (ne, d) = moved_to-some h.last_sha current sha p in
      rw (p, ◌++◌) (steps sha ne d (rw (p, notice) at l))
]

-- Over any run of file events, while the loop takes every call, the commits emitted lead from the head
-- that the handler began with to the one that it ends with: each names the head before it, and a new
-- one that is not empty and differs from it.
pub handle_events-Leads :
    (h : GitHeadHandler) (events : List HeadEvent)
    → Leads h.last_sha (handle_events h events).1 (handle_events h events).0.last_sha
unfolding handle_events on_any_event
handle_events-Leads h [] = stays
handle_events-Leads h ((src, current) ∷ events) = elim (Bool-cases (is_head_path src)) [
  | inl p ↦
      rw p (notice-Leads h current _ _ (handle_events-Leads (notice h current takes).0 events))
  | inr p ↦ rw p (handle_events-Leads h events)
]

count-truncated :
    (d : String) → count (concat (Text.take 200000 d ∷ "\n\n[diff truncated]\n" ∷ [])) ≤ 200019
unfolding concat
count-truncated d =
    omega (arith, text_append (Text.take 200000 d) "\n\n[diff truncated]\n", count-take 200000 d)

-- The diff of an event has at most 200000 characters and the note that it was cut, which is 19 more.
pub truncate_diff-le : (out : Option String) → count (truncate_diff out) ≤ 200019
unfolding truncate_diff
truncate_diff-le none = omega arith
truncate_diff-le (some d) = ground (arith, count-truncated d)
