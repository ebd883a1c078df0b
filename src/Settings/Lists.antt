-- ===== src/Settings/Lists.antt =====
-- The lists of the environment read back what was joined with commas.
use Prim.Native.Char.{Char, code}
use Prim.Native.String.{[], ◌∷◌, ◌++◌}
use text.Mathlib.TextLemmas.{nil-append, cons-append}
use mathlib.Core.List.{List, Memᴰ}
use mathlib.Core.List.Memᴰ.{head, tail}
use wiseorder.Prelude.{
  String, Bool, false, not, ◌||◌, Bool-cases, inl, inr, ◌≡◌, refl, ap, ◌∙◌, ◌==◌, ==_refl, map,
  keep,
}
use wiseorder.Prelude.Text.{split, strip, is_empty, join}
use wiseorder.Settings.{parse_list, split_paths, raw}

-- c occurs in s.
unfoldable pub has_char : Char → String → Bool
has_char ch [] = false
has_char ch (c ∷ s) = code c == code ch || has_char ch s

-- Neither the first character nor a later one.
has_char-cons :
    (ch c : Char) (s : String)
    → has_char ch (c ∷ s) ≡ false
    → ((code c == code ch) ≡ false) × (has_char ch s ≡ false)
unfolding has_char
has_char-cons ch c s h = elim (Bool-cases (code c == code ch)) [
  | inl p ↦ cc (rw (p, has_char) at h)
  | inr p ↦ (p, rw (p, has_char) at h)
]

split-free : (ch : Char) (p : String) → has_char ch p ≡ false → split ch p ≡ List.◌∷◌ p List.[]
unfolding split
split-free ch [] h = refl
split-free ch (c ∷ s) h =
    let (first, rest) = has_char-cons ch c s h in rw (first, split-free ch s rest)

split-append :
    (ch : Char) (p s : String)
    → has_char ch p ≡ false
    → split ch (p ++ (ch ∷ s)) ≡ List.◌∷◌ p (split ch s)
unfolding split
split-append ch [] s h = rw (nil-append (ch ∷ s)) (rw (==_refl (code ch)))
split-append ch (c ∷ p) s h =
    let (first, rest) = has_char-cons ch c p h in
    rw (cons-append c p (ch ∷ s)) (rw (first, split-append ch p s rest))

-- A text that can stand in the list: it has no comma, is not empty, and has no blanks around it.
pub record IsEntry (p : String) : Type 0 where
  pub no_comma : has_char "," p ≡ false
  pub nonempty : is_empty p ≡ false
  pub stripped : strip p ≡ p

-- The loop over the parts gives entries back.
abbrev kept : List String → List String
kept parts = map strip (keep (λ p. not (is_empty (strip p))) parts)

kept-cons :
    (p : String) (ps : List String) → IsEntry p → kept (List.◌∷◌ p ps) ≡ List.◌∷◌ p (kept ps)
kept-cons p ps h = rw (h.stripped, h.nonempty) (rw h.stripped)

kept-split-join :
    (p : String) (ps : List String)
    → ((q : String) → Memᴰ q (List.◌∷◌ p ps) → IsEntry q)
    → kept (split "," (join "," (List.◌∷◌ p ps))) ≡ List.◌∷◌ p ps
unfolding join
kept-split-join p List.[] h =
    rw (split-free "," p (h p (head refl)).no_comma) (kept-cons p List.[] (h p (head refl)))
kept-split-join p (List.◌∷◌ q qs) h =
    let rest = kept-split-join q qs (λ r m. h r (tail m)) in
    let s = join "," (List.◌∷◌ q qs) in
    ap (λ t. kept (split "," (p ++ t))) (cons-append "," [] s ∙ ap (λ t. "," ∷ t) (nil-append s))
    ∙ ap kept (split-append "," p s (h p (head refl)).no_comma)
    ∙ kept-cons p (split "," s) (h p (head refl))
    ∙ ap (λ xs. List.◌∷◌ p xs) rest

kept_nothing : kept (split "," "") ≡ List.[]
unfolding split strip
kept_nothing = refl

-- WISEORDER_WATCH_PATHS reads back paths joined with commas: texts with no comma, which are not empty
-- and have no blanks around them.
pub split_paths-join :
    (paths : List String)
    → ((p : String) → Memᴰ p paths → IsEntry p)
    → split_paths (raw (join "," paths)) ≡ paths
unfolding split_paths parse_list join
split_paths-join List.[] h = kept_nothing
split_paths-join (List.◌∷◌ p ps) h = kept-split-join p ps h
