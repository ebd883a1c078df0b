-- ===== src/Prelude/Prefix.antt =====
-- `startswith`, and what stands after a prefix.
use Prim.Native.Char.{code}
use Prim.Native.String.{String, ◌∷◌, ◌++◌, [], count}
use text.Mathlib.TextEquality.{Char-path}
use text.Mathlib.TextLemmas.{nil-append, cons-append, length-cons}
use mathlib.Core.Path.{◌≡◌, refl, sym, ◌∙◌}
use mathlib.Core.Bool.{true}
use wiseorder.Prelude.Tests.{both_true, ◌==◌, ==_iff, ==_refl}
use wiseorder.Prelude.Text
use wiseorder.Prelude.Text.{starts_with}

-- A text that starts with p is p and some rest.
pub starts_with-rest : (s p : String) → starts_with s p ≡ true → (t : String) × (s ≡ p ++ t)
unfolding starts_with
starts_with-rest s [] h = (s, sym (nil-append s))
starts_with-rest [] (p ∷ ps) h = cc
starts_with-rest (c ∷ s) (p ∷ ps) h =
    let (same, rest) = both_true (code c == code p) (starts_with s ps) h in
    let (t, e) = starts_with-rest s ps rest in
    (t, (λ i. Char-path c p ((==_iff (code c) (code p)).0 same) i ∷ e i) ∙ sym (cons-append p ps t))

pub starts_with-append : (p t : String) → starts_with (p ++ t) p ≡ true
unfolding starts_with
starts_with-append [] t = refl
starts_with-append (p ∷ ps) t =
    rw (cons-append p ps t) (rw (==_refl (code p)) (starts_with-append ps t))

pub drop-append : (p t : String) → Text.drop (count p) (p ++ t) ≡ t
unfolding Text.drop
drop-append [] t = nil-append t
drop-append (p ∷ ps) t = rw (length-cons p ps, cons-append p ps t) (drop-append ps t)
