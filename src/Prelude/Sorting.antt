-- ===== src/Prelude/Sorting.antt =====
-- Stable sorting by a test (`sorted`, `ORDER BY`), and what filtering, sorting and cutting keep.
use wiseorder.Prelude.Tests.{if◌then◌else◌, Bool-cases}
use wiseorder.Prelude.Lists.{take, drop, keep, length}
use Prim.Native.Nat.{ℕ, zero, suc}
use mathlib.Core.Path.{◌≡◌, refl, sym, ap, subst, ◌∙◌}
use mathlib.Core.Logic.{◌↔◌, ◌⊎◌, inl, inr}
use mathlib.Core.Bool.{Bool, true, false}
use mathlib.Core.List.{List, [], ◌∷◌, Memᴰ}
use mathlib.Core.List.Memᴰ.{head, tail, cases_cons, not-nil}
use native.Mathlib.Omega.{arith}

module _ {A : Type 0} (before : A → A → Bool) where
  -- x, in front of the first element that is not before it
  unfoldable pub insert_by : A → List A → List A
  insert_by x [] = x ∷ []
  insert_by x (y ∷ ys) = let rest = insert_by x ys in if before y x then y ∷ rest else x ∷ y ∷ ys

  unfoldable pub sort_by : List A → List A
  unfolding insert_by
  sort_by [] = []
  sort_by (x ∷ xs) = insert_by x (sort_by xs)

  insert_by-Mem : (z x : A) (xs : List A) → Memᴰ z (insert_by x xs) ↔ Memᴰ z (x ∷ xs)
  unfolding insert_by
  insert_by-Mem z x [] = (λ m. m, λ m. m)
  insert_by-Mem z x (y ∷ ys) = elim (Bool-cases (before y x)) [
    | inr p ↦ rw p (λ m. m, λ m. m)
    | inl p ↦
        let k = insert_by-Mem z x ys in
        rw p (
          λ m. elim (cases_cons m) [
            | inl q ↦ tail (head q)
            | inr t ↦ elim (cases_cons (k.0 t)) [ inl q ↦ head q | inr u ↦ tail (tail u) ]
          ],
          λ m. elim (cases_cons m) [
            | inl q ↦ tail (k.1 (head q))
            | inr t ↦ elim (cases_cons t) [ inl q ↦ head q | inr u ↦ tail (k.1 (tail u)) ]
          ],
        )
  ]

  -- Sorting neither loses nor adds an element.
  pub sort_by-Mem : (z : A) (xs : List A) → Memᴰ z (sort_by xs) ↔ Memᴰ z xs
  unfolding sort_by
  sort_by-Mem z [] = (λ m. m, λ m. m)
  sort_by-Mem z (x ∷ xs) =
      let k = insert_by-Mem z x (sort_by xs) in
      let rest = sort_by-Mem z xs in
      (
        λ m. elim (cases_cons (k.0 m)) [ inl p ↦ head p | inr t ↦ tail (rest.0 t) ],
        λ m. elim (cases_cons m) [ inl p ↦ k.1 (head p) | inr t ↦ k.1 (tail (rest.1 t)) ],
      )

  insert_by-length : (x : A) (xs : List A) → length (insert_by x xs) ≡ suc (length xs)
  unfolding insert_by
  insert_by-length x [] = refl
  insert_by-length x (y ∷ ys) = ground (arith, insert_by-length x ys)

  pub length-sort_by : (xs : List A) → length (sort_by xs) ≡ length xs
  unfolding sort_by
  length-sort_by [] = refl
  length-sort_by (x ∷ xs) = omega (arith, insert_by-length x (sort_by xs), length-sort_by xs)

  -- No element stands after one that it is before.
  pub data Ordered : List A → Type 0 where
    nothing : Ordered []
    first :
        {x : A} {xs : List A}
        → ((y : A) → Memᴰ y xs → before y x ≡ false)
        → Ordered xs
        → Ordered (x ∷ xs)

  -- The test orders the elements as the comparison of a key does.
  pub record IsOrder : Type 0 where
    pub asymmetric : (x y : A) → before y x ≡ true → before x y ≡ false
    pub steps : (x y z : A) → before y x ≡ false → before z y ≡ false → before z x ≡ false

  insert_by-Ordered : IsOrder → (x : A) (xs : List A) → Ordered xs → Ordered (insert_by x xs)
  unfolding insert_by
  insert_by-Ordered o x [] nothing = first (λ y m. absurd (not-nil m)) nothing
  insert_by-Ordered o x (y ∷ ys) (first h s) = elim (Bool-cases (before y x)) [
    | inl p ↦ rw p (
        first
          (λ z m. elim (cases_cons ((insert_by-Mem z x ys).0 m)) [
            | inl q ↦ subst (λ w. before w y ≡ false) (sym q) (o.asymmetric x y p)
            | inr t ↦ h z t
          ])
          (insert_by-Ordered o x ys s))
    | inr p ↦ rw p (
        first
          (λ z m. elim (cases_cons m) [
            | inl q ↦ subst (λ w. before w x ≡ false) (sym q) p
            | inr t ↦ o.steps x y z p (h z t)
          ])
          (first h s))
  ]

  pub sort_by-Ordered : IsOrder → (xs : List A) → Ordered (sort_by xs)
  unfolding sort_by
  sort_by-Ordered o [] = nothing
  sort_by-Ordered o (x ∷ xs) = insert_by-Ordered o x (sort_by xs) (sort_by-Ordered o xs)

module _ {A : Type 0} where
  pub take-Mem : (n : ℕ) (x : A) (xs : List A) → Memᴰ x (take n xs) → Memᴰ x xs
  take-Mem zero x xs m = absurd (not-nil m)
  take-Mem (suc n) x [] m = m
  take-Mem (suc n) x (y ∷ ys) m = elim (cases_cons m) [
    | inl p ↦ head p
    | inr t ↦ tail (take-Mem n x ys t)
  ]

  pub drop-Mem : (n : ℕ) (x : A) (xs : List A) → Memᴰ x (drop n xs) → Memᴰ x xs
  drop-Mem zero x xs m = m
  drop-Mem (suc n) x [] m = m
  drop-Mem (suc n) x (y ∷ ys) m = tail (drop-Mem n x ys m)

  pub take-Ordered :
      (before : A → A → Bool) (n : ℕ) (xs : List A) → Ordered before xs → Ordered before (take n xs)
  take-Ordered before zero xs o = nothing
  take-Ordered before (suc n) [] o = nothing
  take-Ordered before (suc n) (x ∷ xs) (first h o) =
      first (λ y m. h y (take-Mem n y xs m)) (take-Ordered before n xs o)

  pub keep-Mem :
      (p : A → Bool) (x : A) (xs : List A) → Memᴰ x (keep p xs) ↔ (Memᴰ x xs × (p x ≡ true))
  keep-Mem p x [] = (λ m. absurd (not-nil m), λ m. m.0)
  keep-Mem p x (y ∷ ys) =
      let rest = keep-Mem p x ys in
      elim (Bool-cases (p y)) [
        | inl q ↦ rw q (
          λ m. elim (cases_cons m) [
            | inl e ↦ (head e, ap p e ∙ q)
            | inr t ↦ (tail (rest.0 t).0, (rest.0 t).1)
          ],
          λ m. elim (cases_cons m.0) [ inl e ↦ head e | inr t ↦ tail (rest.1 (t, m.1)) ],
        )
        | inr q ↦ rw q (
          λ m. (tail (rest.0 m).0, (rest.0 m).1),
          λ m. elim (cases_cons m.0) [
            | inl e ↦ (let c : true ≡ false = sym m.1 ∙ (ap p e ∙ q) in cc)
            | inr t ↦ rest.1 (t, m.1)
          ],
        )
      ]

  -- What a cut leaves out comes after everything that it leaves in, and then the cut is full.
  pub take-full :
      (before : A → A → Bool) (n : ℕ) (x : A) (xs : List A)
      → Ordered before xs
      → Memᴰ x xs
      → Memᴰ x (take n xs)
        ⊎ ((length (take n xs) ≡ n) × ((q : A) → Memᴰ q (take n xs) → before x q ≡ false))
  take-full before zero x xs o m = inr (refl, λ q k. absurd (not-nil k))
  take-full before (suc n) x [] o m = inl m
  take-full before (suc n) x (y ∷ ys) (first h o) m = elim (cases_cons m) [
    | inl e ↦ inl (head e)
    | inr t ↦ elim (take-full before n x ys o t) [
      | inl k ↦ inl (tail k)
      | inr (len, after) ↦ inr (
        ap suc len,
        λ q k. elim (cases_cons k) [
          | inl e ↦ subst (λ w. before x w ≡ false) (sym e) (h x t)
          | inr u ↦ after q u
        ],
      )
    ]
  ]
