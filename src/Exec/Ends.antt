-- ===== src/Exec/Ends.antt =====
-- How a statement ends: a postcondition for its return and one for its raise, and the rules for blocks.
use wiseorder.Prelude.{◌≡◌}
use wiseorder.Exec.{Exn, Result, ok, err, Exec, ok_inj, continue, ◌>>=◌, handle, try_except}

-- The statement ended with this result, in the state s.
pub data Ends {S A : Type 0} (Q : A → S → Type 0) (E : Exn → S → Type 0) (s : S)
    : Result A → Type 0 where
  returns : {a : A} → Q a s → Ends Q E s (ok a)
  raises : {e : Exn} → E e s → Ends Q E s (err e)

-- `m`, run from s, ends so.
abbrev pub Run : {S A : Type 0} → (A → S → Type 0) → (Exn → S → Type 0) → Exec S A → S → Type 0
Run Q E m s = Ends Q E (m s).1 (m s).0

module _ {S A B : Type 0} {P : A → S → Type 0} {Q : B → S → Type 0} {E : Exn → S → Type 0} where
  continue-Ends :
      {r : Result A} {s : S} (f : A → Exec S B)
      → Ends P E s r
      → ((a : A) (t : S) → P a t → Run Q E (f a) t)
      → Run Q E (continue r f) s
  continue-Ends f (returns p) k = k _ _ p
  continue-Ends f (raises e) k = raises e

  pub >>=-Run :
      (m : Exec S A) (f : A → Exec S B) (s : S)
      → Run P E m s
      → ((a : A) (t : S) → P a t → Run Q E (f a) t)
      → Run Q E (m >>= f) s
  >>=-Run m f s h k = continue-Ends f h k

module _ {S A B : Type 0} {Q : B → S → Type 0} {E : Exn → S → Type 0} where
  -- A first statement that is known to return.
  pub >>=-ok-Run :
      (m : Exec S A) (f : A → Exec S B) (s : S) {a : A} {t : S}
      → m s ≡ (ok a, t)
      → Run Q E (f a) t
      → Run Q E (m >>= f) s
  >>=-ok-Run m f s e h = rw e h

module _ {S A : Type 0} {Q : A → S → Type 0} {D E : Exn → S → Type 0} where
  handle-Ends :
      {r : Result A} {s : S} (h : Exn → Exec S A)
      → Ends Q D s r
      → ((e : Exn) (t : S) → D e t → Run Q E (h e) t)
      → Run Q E (handle r h) s
  handle-Ends h (returns q) k = returns q
  handle-Ends h (raises d) k = k _ _ d

  pub try_except-Run :
      (m : Exec S A) (h : Exn → Exec S A) (s : S)
      → Run Q D m s
      → ((e : Exn) (t : S) → D e t → Run Q E (h e) t)
      → Run Q E (try_except m h) s
  try_except-Run m h s p k = handle-Ends h p k

module _ {S A : Type 0} {P Q : A → S → Type 0} {D E : Exn → S → Type 0} where
  pub Ends-weaken :
      {r : Result A} {s : S}
      → Ends P D s r
      → ((a : A) → P a s → Q a s)
      → ((e : Exn) → D e s → E e s)
      → Ends Q E s r
  Ends-weaken (returns p) q e = returns (q _ p)
  Ends-weaken (raises d) q e = raises (e _ d)

module _ {S A : Type 0} {P Q : A → S → Type 0} {D E : Exn → S → Type 0} where
  -- A statement that never raises needs no condition for its raise.
  pub Ends-no_raise : {r : Result A} {s : S} → Ends P D s r → Ends Q (λ e t. ⊥) s r → Ends P E s r
  Ends-no_raise (returns p) (returns q) = returns p
  Ends-no_raise (raises d) (raises x) = elim x [ ]

err-injective : {A : Type 0} {x y : Exn} → ◌≡◌ {A = Result A} (err x) (err y) → x ≡ y
err-injective p = cc

module _ {S A : Type 0} {Q : A → S → Type 0} {E : Exn → S → Type 0} where
  -- What holds of the state however the statement ended.
  pub Ends-also :
      {s : S} {r : Result A} (P : S → Type 0)
      → P s
      → Ends Q E s r
      → Ends (λ a t. Q a t × P t) (λ e t. E e t × P t) s r
  Ends-also P p (returns q) = returns (q, p)
  Ends-also P p (raises x) = raises (x, p)

  -- The condition of a statement that raised, and of one that returned.
  pub raised-Ends : {s t : S} {r : Result A} {e : Exn} → Ends Q E s r → r ≡ err e → s ≡ t → E e t
  raised-Ends (returns q) p same = cc p
  raised-Ends (raises h) p same = rw (← err-injective p, ← same) h

  pub returned-Ends : {s t : S} {r : Result A} {a : A} → Ends Q E s r → r ≡ ok a → s ≡ t → Q a t
  returned-Ends (returns q) p same = rw (← ok_inj p, ← same) q
  returned-Ends (raises h) p same = cc p

module _ {S A : Type 0} {P Q : A → S → Type 0} {D E : Exn → S → Type 0} where
  -- Conditions of another state, after an update that cannot fail.
  pub Ends-restate :
      {r : Result A} {s s' : S}
      → Ends P D s r
      → ((a : A) → P a s → Q a s')
      → ((e : Exn) → D e s → E e s')
      → Ends Q E s' r
  Ends-restate (returns p) q e = returns (q _ p)
  Ends-restate (raises d) q e = raises (e _ d)
