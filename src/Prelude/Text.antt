-- ===== src/Prelude/Text.antt =====
-- Python's texts: `len` counts code points (`count`), `s[:n]`, `s + t` as `concat`, `join`, `in`,
-- `startswith`, and `lower` and `strip` over the ASCII letters and blanks.
use Prim.Native.Nat.{ℕ, zero, suc, ◌≤◌}
use Prim.Native.Char.{Char, code}
use Prim.Native.String.{String, [], ◌∷◌, ◌++◌, count}
use mathlib.Core.Bool.{Bool, true, false, ◌&&◌, ◌||◌}
use mathlib.Core.List.{List}
use native.Mathlib.Omega.{arith}
use text.Mathlib.TextLemmas.{length-cons, length-nil}
pub use text.Mathlib.Text.{◌==◌ as str_eq}
pub use Prim.Native.String.{count}
use wiseorder.Prelude.Tests.{if◌then◌else◌, ◌==◌, leb}

-- s[:n]
unfoldable pub take : ℕ → String → String
take zero s = []
take (suc n) [] = []
take (suc n) (c ∷ s) = c ∷ take n s

-- s[n:]
unfoldable pub drop : ℕ → String → String
drop zero s = s
drop (suc n) [] = []
drop (suc n) (c ∷ s) = drop n s

pub count-take : (n : ℕ) (s : String) → count (take n s) ≤ n
unfolding take
count-take zero s = omega (arith, length-nil)
count-take (suc n) [] = omega (arith, length-nil)
count-take (suc n) (c ∷ s) = omega (arith, length-cons c (take n s), count-take n s)

-- The parts of an f-string, one after the other.
unfoldable pub concat : List String → String
concat List.[] = []
concat (List.◌∷◌ s ss) = s ++ concat ss

-- sep.join(ss)
unfoldable pub join : String → List String → String
join sep List.[] = []
join sep (List.◌∷◌ s List.[]) = s
join sep (List.◌∷◌ s (List.◌∷◌ t ss)) = s ++ (sep ++ join sep (List.◌∷◌ t ss))

-- s.startswith(p)
unfoldable pub starts_with : String → String → Bool
starts_with s [] = true
starts_with [] (p ∷ ps) = false
starts_with (c ∷ s) (p ∷ ps) = code c == code p && starts_with s ps

-- p in s
unfoldable pub contains : String → String → Bool
unfolding starts_with
contains p [] = starts_with [] p
contains p (c ∷ s) = starts_with (c ∷ s) p || contains p s

-- c, or the letter of `to` that stands where c stands in `from`
translate : String → String → Char → Char
translate [] to c = c
translate (f ∷ fs) [] c = c
translate (f ∷ fs) (t ∷ ts) c = if code c == code f then t else translate fs ts c

-- s.lower(), for ASCII texts
unfoldable pub lower : String → String
unfolding translate
lower [] = []
lower (c ∷ s) = translate "ABCDEFGHIJKLMNOPQRSTUVWXYZ" "abcdefghijklmnopqrstuvwxyz" c ∷ lower s

-- s.upper(), for ASCII texts
unfoldable pub upper : String → String
unfolding translate
upper [] = []
upper (c ∷ s) = translate "abcdefghijklmnopqrstuvwxyz" "ABCDEFGHIJKLMNOPQRSTUVWXYZ" c ∷ upper s

is_blank : Char → Bool
is_blank c = code c == 32 || leb 9 (code c) && leb (code c) 13

lstrip_by : (Char → Bool) → String → String
lstrip_by p [] = []
lstrip_by p (c ∷ s) = let rest = lstrip_by p s in if p c then rest else c ∷ s

append_unless : (Char → Bool) → Char → String → String
append_unless p c [] = if p c then [] else c ∷ []
append_unless p c (d ∷ s) = c ∷ d ∷ s

rstrip_by : (Char → Bool) → String → String
unfolding append_unless
rstrip_by p [] = []
rstrip_by p (c ∷ s) = append_unless p c (rstrip_by p s)

-- s.strip(), for ASCII blanks
unfoldable pub strip : String → String
unfolding lstrip_by rstrip_by is_blank
strip s = rstrip_by is_blank (lstrip_by is_blank s)

-- s.rstrip(), for ASCII blanks
unfoldable pub rstrip : String → String
unfolding rstrip_by is_blank
rstrip s = rstrip_by is_blank s

-- s.strip(ch), for a text of one character
unfoldable pub strip_char : Char → String → String
unfolding lstrip_by rstrip_by
strip_char ch s = rstrip_by (λ c. code c == code ch) (lstrip_by (λ c. code c == code ch) s)

-- The rounds of `replace`: at each place the pattern or one character is passed over.
replace_from : ℕ → String → String → String → String
replace_from zero p r s = s
replace_from (suc f) p r [] = []
replace_from (suc f) p r (c ∷ s) =
    let found = r ++ replace_from f p r (drop (count p) (c ∷ s)) in
    let passed = c ∷ replace_from f p r s in if starts_with (c ∷ s) p then found else passed

-- s.replace(p, r), for a pattern that is not empty; a text of n characters takes n rounds at most.
unfoldable pub replace : String → String → String → String
unfolding replace_from drop starts_with
replace p r s = replace_from (count s) p r s

-- list(s)
unfoldable pub characters : String → List String
characters [] = List.[]
characters (c ∷ s) = List.◌∷◌ (c ∷ []) (characters s)

-- `not s`
abbrev pub is_empty : String → Bool
is_empty [] = true
is_empty (c ∷ s) = false

-- s.split(ch)[-1], for a separator of one character: what stands after its last occurrence
after_last_from : Char → String → String → String
after_last_from ch whole [] = whole
after_last_from ch whole (c ∷ s) = after_last_from ch (if code c == code ch then s else whole) s

unfoldable pub after_last : Char → String → String
unfolding after_last_from
after_last ch s = after_last_from ch s s

abbrev pub cons_head : Char → List String → List String
cons_head c List.[] = List.◌∷◌ (c ∷ []) List.[]
cons_head c (List.◌∷◌ s ss) = List.◌∷◌ (c ∷ s) ss

-- s.split(ch), for a separator of one character
unfoldable pub split : Char → String → List String
split ch [] = List.◌∷◌ [] List.[]
split ch (c ∷ s) =
    let rest = split ch s in if code c == code ch then List.◌∷◌ [] rest else cons_head c rest
