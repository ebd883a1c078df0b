-- ===== src/Db/Tables.antt =====
-- A table as the list of its rows: the row with an id, an update of that row, and a new row.
use wiseorder.Prelude.{
  ℕ, ◌≡◌, refl, Bool, false, Option, none, some, List, [], ◌∷◌, ◌++◌, map, any, arith, ◌==◌,
  if◌then◌else◌,
}
use mathlib.Core.Option

module _ {ℓ} {A : Type ℓ} (id_of : A → ℕ) where
  abbrev pub ids : List A → List ℕ
  ids rows = map id_of rows

  -- SELECT .. WHERE id = i, of a primary key
  unfoldable pub find : ℕ → List A → Option A
  find i [] = none
  find i (r ∷ rows) = if id_of r == i then some r else find i rows

  -- The assignments to the row with id i.
  unfoldable pub set_row : ℕ → (A → A) → List A → List A
  set_row i f [] = []
  set_row i f (r ∷ rows) = (if id_of r == i then f r else r) ∷ set_row i f rows

  -- An assignment that leaves the primary key alone.
  abbrev pub IdKept : (A → A) → Type ℓ
  IdKept f = (r : A) → id_of (f r) ≡ id_of r

abbrev pub has_id : ℕ → List ℕ → Bool
has_id i js = any (λ j. j == i) js

abbrev pub add_row {ℓ} : {A : Type ℓ} → A → List A → List A
add_row r rows = rows ++ r ∷ []

module _ {ℓ} {A : Type ℓ} (id_of : A → ℕ) where
  pub find-set_row :
      (i j : ℕ) (f : A → A) (rows : List A)
      → IdKept id_of f
      → find id_of j (set_row id_of i f rows)
        ≡ (if i == j then Option.map f (find id_of j rows) else find id_of j rows)
  unfolding find set_row
  find-set_row i j f [] h = ground arith
  find-set_row i j f (r ∷ rows) h = ground (arith, h r, find-set_row i j f rows h)

  pub find-add_row :
      (j : ℕ) (r : A) (rows : List A)
      → has_id (id_of r) (ids id_of rows) ≡ false
      → find id_of j (add_row r rows) ≡ (if id_of r == j then some r else find id_of j rows)
  unfolding find
  find-add_row j r [] h = refl
  find-add_row j r (q ∷ rows) h = ground (arith, find-add_row j r rows)

  pub set_row-fresh :
      (i : ℕ) (f : A → A) (rows : List A)
      → has_id i (ids id_of rows) ≡ false
      → set_row id_of i f rows ≡ rows
  unfolding set_row
  set_row-fresh i f [] h = refl
  set_row-fresh i f (r ∷ rows) h = ground (arith, set_row-fresh i f rows)

  pub set_row-last :
      (i : ℕ) (f : A → A) (r : A) (rows : List A)
      → has_id i (ids id_of rows) ≡ false
      → id_of r ≡ i
      → set_row id_of i f (rows ++ r ∷ []) ≡ rows ++ f r ∷ []
  unfolding set_row
  set_row-last i f r [] h e = ground arith
  set_row-last i f r (q ∷ rows) h e = ground (arith, set_row-last i f r rows)

  pub find-last :
      (i : ℕ) (r : A) (rows : List A)
      → has_id i (ids id_of rows) ≡ false
      → id_of r ≡ i
      → find id_of i (rows ++ r ∷ []) ≡ some r
  unfolding find
  find-last i r [] h e = ground arith
  find-last i r (q ∷ rows) h e = ground (arith, find-last i r rows)
