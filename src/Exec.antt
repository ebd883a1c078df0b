-- ===== src/Exec.antt =====
-- Statements that read and write the runtime's state and may raise. What was written before a raise
-- stays written, so the state comes back beside the exception too.
pub mod Ends
use wiseorder.Prelude.{ℕ, String, Bool, true, false, ◌≡◌, refl, ◌⊎◌, inl, inr, arith}

-- The exceptions that the runtime raises or tells apart; `other` is any other `Exception`.
pub data Kind : Type 0 where
  value_error runtime_error type_error file_not_found timeout_error rate_limit api_connection : Kind
  service_unavailable no_result http_error other : Kind
  -- fastapi.HTTPException, with its status code
  http_exception : (status : ℕ) → Kind

-- An exception and `str(e)`.
pub record Exn : Type 0 where
  pub kind : Kind
  pub message : String

pub data Result {ℓ} (A : Type ℓ) : Type ℓ where
  ok : A → Result A
  err : Exn → Result A

module _ {ℓ} {A : Type ℓ} where
  pub Result-cases : (r : Result A) → ((e : Exn) × (r ≡ err e)) ⊎ ((a : A) × (r ≡ ok a))
  Result-cases (ok a) = inr (a, refl)
  Result-cases (err e) = inl (e, refl)

  pub ok_inj : {a b : A} → ok a ≡ ok b → a ≡ b
  ok_inj e = cc

abbrev pub raised : Kind → String → Exn
raised k m = record { kind = k; message = m }

abbrev pub Exec : Type 0 → Type 0 → Type 0
Exec S A = S → Result A × S

module _ {S A : Type 0} where
  abbrev pub pure : A → Exec S A
  pure a s = (ok a, s)

  abbrev pub raise : Exn → Exec S A
  raise e s = (err e, s)

  abbrev pub lift : Result A → Exec S A
  lift r s = (r, s)

  abbrev pub gets : (S → A) → Exec S A
  gets f s = (ok (f s), s)

module _ {S : Type 0} where
  abbrev pub modify : (S → S) → Exec S (Unit {0})
  modify f s = (ok tt, f s)

module _ {S A B : Type 0} where
  abbrev pub continue : Result A → (A → Exec S B) → Exec S B
  continue (ok a) f s = f a s
  continue (err e) f s = (err e, s)

  infixl 5 ◌>>=◌ ◌>>◌
  abbrev pub ◌>>=◌ : Exec S A → (A → Exec S B) → Exec S B
  m >>= f = λ s. let (r, s') = m s in continue r f s'

  abbrev pub ◌>>◌ : Exec S A → Exec S B → Exec S B
  m >> k = m >>= λ _. k

module _ {S A : Type 0} where
  abbrev pub handle : Result A → (Exn → Exec S A) → Exec S A
  handle (ok a) h s = (ok a, s)
  handle (err e) h s = h e s

  -- `try: m` / `except Exception as e: h(e)`
  abbrev pub try_except : Exec S A → (Exn → Exec S A) → Exec S A
  try_except m h s = let (r, s') = m s in handle r h s'

module _ {A S : Type 0} where
  -- The answer and the state of a statement that returned.
  pub ok-injective :
      {a a' : A} {s s' : S} → ◌≡◌ {A = Result A × S} (ok a, s) (ok a', s') → (a ≡ a') × (s ≡ s')
  ok-injective e = (cc, cc)

module _ {S A B : Type 0} where
  continue-eq-ok :
      (r : Result A) (f : A → Exec S B) (s : S) {b : B} {s' : S}
      → continue r f s ≡ (ok b, s')
      → (a : A) × (r ≡ ok a) × (f a s ≡ (ok b, s'))
  continue-eq-ok (ok a) f s e = (a, refl, e)
  continue-eq-ok (err x) f s e = cc

  -- A block that returned has run its first statement to the end.
  pub >>=-eq-ok :
      (m : Exec S A) (f : A → Exec S B) (s : S) {b : B} {s' : S}
      → (m >>= f) s ≡ (ok b, s')
      → (a : A) × (t : S) × (m s ≡ (ok a, t)) × (f a t ≡ (ok b, s'))
  >>=-eq-ok m f s e =
      let (a, p, q) = continue-eq-ok (m s).0 f (m s).1 e in (a, (m s).1, λ i. (p i, (m s).1), q)
