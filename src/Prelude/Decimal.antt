-- ===== src/Prelude/Decimal.antt =====
-- `str(n)`, `s.isdigit()` and `int(s)` for numbers from 0 on. `isdigit` and `int` read ASCII digits.
use Prim.Native.Nat.{ℕ, zero, suc, ◌+◌, ◌-◌, ◌*◌, ◌/◌, ◌%◌, ◌<◌}
use Prim.Native.Char.{Char, code}
use Prim.Native.String.{String, [], ◌∷◌, ◌++◌}
use mathlib.Core.Path.{◌≡◌, refl, ◌∙◌}
use mathlib.Core.Logic.{inl, inr}
use mathlib.Core.Bool.{Bool, true, false, ◌&&◌}
use native.Mathlib.Omega.{arith}
use text.Mathlib.TextLemmas.{nil-append, cons-append}
use wiseorder.Prelude.Tests.{if◌then◌else◌, ltb, leb, Bool-cases}

digit : ℕ → Char
digit zero = "0"
digit (suc zero) = "1"
digit (suc (suc zero)) = "2"
digit (suc (suc (suc zero))) = "3"
digit (suc (suc (suc (suc zero)))) = "4"
digit (suc (suc (suc (suc (suc zero))))) = "5"
digit (suc (suc (suc (suc (suc (suc zero)))))) = "6"
digit (suc (suc (suc (suc (suc (suc (suc zero))))))) = "7"
digit (suc (suc (suc (suc (suc (suc (suc (suc zero)))))))) = "8"
digit _ = "9"

-- The digits of n, on fuel; n + 1 rounds are enough.
print : ℕ → ℕ → String
print zero n = []
print (suc f) n =
    let rest = print f (n / 10) ++ digit (n % 10) ∷ [] in if ltb n 10 then digit n ∷ [] else rest

-- str(n)
unfoldable pub str : ℕ → String
unfolding print digit
str n = print (suc n) n

all_digits : String → Bool
all_digits [] = true
all_digits (c ∷ s) = leb 48 (code c) && leb (code c) 57 && all_digits s

-- s.isdigit()
unfoldable pub is_digit : String → Bool
unfolding all_digits
is_digit [] = false
is_digit (c ∷ s) = all_digits (c ∷ s)

value : ℕ → String → ℕ
value acc [] = acc
value acc (c ∷ s) = value (acc * 10 + (code c - 48)) s

-- int(s), for a text of digits
unfoldable pub int : String → ℕ
unfolding value
int s = value 0 s

code-digit : (n : ℕ) → n < 10 → code (digit n) ≡ 48 + n
unfolding digit
code-digit zero h = refl
code-digit (suc zero) h = refl
code-digit (suc (suc zero)) h = refl
code-digit (suc (suc (suc zero))) h = refl
code-digit (suc (suc (suc (suc zero)))) h = refl
code-digit (suc (suc (suc (suc (suc zero))))) h = refl
code-digit (suc (suc (suc (suc (suc (suc zero)))))) h = refl
code-digit (suc (suc (suc (suc (suc (suc (suc zero))))))) h = refl
code-digit (suc (suc (suc (suc (suc (suc (suc (suc zero)))))))) h = refl
code-digit (suc (suc (suc (suc (suc (suc (suc (suc (suc zero))))))))) h = refl
code-digit (suc (suc (suc (suc (suc (suc (suc (suc (suc (suc n)))))))))) h = absurd (omega arith)

value-append :
    (acc : ℕ) (s : String) (c : Char) → value acc (s ++ c ∷ []) ≡ value acc s * 10 + (code c - 48)
unfolding value
value-append acc [] c = rw nil-append
value-append acc (d ∷ s) c = rw cons-append (value-append (acc * 10 + (code d - 48)) s c)

all_digits-append :
    (s : String) (n : ℕ) → n < 10 → all_digits s ≡ true → all_digits (s ++ digit n ∷ []) ≡ true
unfolding all_digits
all_digits-append [] n h a = rw nil-append (ground (arith, code-digit n))
all_digits-append (d ∷ s) n h a = rw cons-append (ground (arith, all_digits-append s n))

value-print : (f n : ℕ) → n < f → value 0 (print f n) ≡ n
unfolding value print
value-print zero n h = elim h [ ]
value-print (suc f) n h = ground (
  arith,
  code-digit n,
  code-digit (n % 10),
  value-append 0 (print f (n / 10)) (digit (n % 10)),
  value-print f (n / 10),
)

all_digits-print : (f n : ℕ) → all_digits (print f n) ≡ true
unfolding all_digits print
all_digits-print zero n = refl
all_digits-print (suc f) n = ground (
  arith,
  code-digit n,
  all_digits-append (print f (n / 10)) (n % 10),
  all_digits-print f (n / 10),
)

pub int-str : (n : ℕ) → int (str n) ≡ n
unfolding int str
int-str n = value-print (suc n) n (omega arith)

is_digit-append : (s : String) (c : Char) → is_digit (s ++ c ∷ []) ≡ all_digits (s ++ c ∷ [])
unfolding is_digit
is_digit-append [] c = rw nil-append
is_digit-append (d ∷ s) c = rw cons-append

is_digit-print : (f n : ℕ) → is_digit (print (suc f) n) ≡ all_digits (print (suc f) n)
unfolding print
is_digit-print f n = elim (Bool-cases (ltb n 10)) [
  | inl small ↦ rw small (unfold is_digit in refl)
  | inr large ↦ rw large (is_digit-append (print f (n / 10)) (digit (n % 10)))
]

pub is_digit-str : (n : ℕ) → is_digit (str n) ≡ true
unfolding str
is_digit-str n = is_digit-print n n ∙ all_digits-print (suc n) n
