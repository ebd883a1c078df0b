-- ===== src/Once/Owner.antt =====
-- Who owns the lock, and why one value is made.
use wiseorder.Prelude.{
  ℕ, ◌+◌, ◌≡◌, ◌≢◌, refl, sym, ◌∙◌, subst, ◌⊎◌, inl, inr, Bool, true, false, Option, none, some,
}
use wiseorder.Once.{
  Point, begin, seen, waiting, locked, making, made, stored, returned, failed, Shared, Threads,
}

-- The owner of the lock, and whether it has constructed a value that is not stored yet.
pub data Owner : Type 0 where
  free : Owner
  own : (i : ℕ) → (has_value : Bool) → Owner

abbrev pub is_owned : Owner → Bool
is_owned free = false
is_owned (own i b) = true

abbrev pub pending : Owner → ℕ
pending free = 0
pending (own i true) = 1
pending (own i false) = 0

abbrev pub size : {A : Type 0} → Option A → ℕ
size none = 0
size (some v) = 1

pub own-other : (i j : ℕ) (b c : Bool) (o : Owner) → o ≡ own i b → i ≢ j → o ≢ own j c
own-other i j b c o e ne q = ne (cc)

pub free-other : (o : Owner) (i : ℕ) (b : Bool) → is_owned o ≡ false → o ≢ own i b
free-other o i b e q = cc

pub pending_free : (o : Owner) → is_owned o ≡ false → pending o ≡ 0
pending_free free e = refl
pending_free (own i b) e = cc

module _ {A : Type 0} where
  abbrev pub IsMade : Option A → Type 0
  IsMade none = ⊥
  IsMade (some v) = Unit {0}

  -- A thread is inside the lock.
  abbrev pub Inside : Point A → Type 0
  Inside locked = Unit {0}
  Inside making = Unit {0}
  Inside (made v) = Unit {0}
  Inside stored = Unit {0}
  Inside _ = ⊥

  -- A thread i may be at this point.
  abbrev pub Fits : Owner → ℕ → Shared A → Point A → Type 0
  Fits o i sh begin = Unit {0}
  Fits o i sh seen = IsMade sh.value
  Fits o i sh waiting = Unit {0}
  Fits o i sh locked = o ≡ own i false
  Fits o i sh making = (o ≡ own i false) × (sh.value ≡ none)
  Fits o i sh (made v) = (o ≡ own i true) × (sh.value ≡ none)
  Fits o i sh stored = (o ≡ own i false) × IsMade sh.value
  Fits o i sh (returned result) = (result ≡ sh.value) × IsMade sh.value
  Fits o i sh (failed e) = Unit {0}

  pub record Owned (o : Owner) (t : Threads A) : Type 0 where
    pub held : t.shared.is_locked ≡ is_owned o
    pub counted : t.shared.constructed ≡ size t.shared.value + pending o
    pub fits : (i : ℕ) → Fits o i t.shared (t.points i)
    pub inside : (i : ℕ) (b : Bool) → o ≡ own i b → Inside (t.points i)

  -- What a step of the thread i is to the others.
  pub record Apart (i : ℕ) (o o' : Owner) (sh sh' : Shared A) : Type 0 where
    -- another thread that owns the lock goes on owning it, and owned it before
    pub kept : (j : ℕ) (b : Bool) → i ≢ j → o ≡ own j b → o' ≡ own j b
    pub owned : (j : ℕ) (b : Bool) → i ≢ j → o' ≡ own j b → o ≡ own j b
    pub value :
        (sh'.value ≡ sh.value) ⊎ ((sh.value ≡ none) × ((b : Bool) (j : ℕ) → i ≢ j → o ≢ own j b))

  pub value-made : (o : Option A) → IsMade o → o ≡ none → ⊥
  value-made none m e = m
  value-made (some v) m e = cc

  pub Fits-Apart :
      (i j : ℕ) (o o' : Owner) (sh sh' : Shared A) (p : Point A)
      → i ≢ j
      → Apart i o o' sh sh'
      → Fits o j sh p
      → Fits o' j sh' p
  Fits-Apart i j o o' sh sh' begin ne a f = tt
  Fits-Apart i j o o' sh sh' waiting ne a f = tt
  Fits-Apart i j o o' sh sh' (failed e) ne a f = tt
  Fits-Apart i j o o' sh sh' locked ne a f = a.kept j false ne f
  Fits-Apart i j o o' sh sh' seen ne a f = elim a.value [
    | inl e ↦ subst IsMade (sym e) f
    | inr (e, others) ↦ absurd (value-made sh.value f e)
  ]
  Fits-Apart i j o o' sh sh' making ne a (f, v) = elim a.value [
    | inl e ↦ (a.kept j false ne f, e ∙ v)
    | inr (e, others) ↦ absurd (others false j ne f)
  ]
  Fits-Apart i j o o' sh sh' (made x) ne a (f, v) = elim a.value [
    | inl e ↦ (a.kept j true ne f, e ∙ v)
    | inr (e, others) ↦ absurd (others true j ne f)
  ]
  Fits-Apart i j o o' sh sh' stored ne a (f, m) = elim a.value [
    | inl e ↦ (a.kept j false ne f, subst IsMade (sym e) m)
    | inr (e, others) ↦ absurd (others false j ne f)
  ]
  Fits-Apart i j o o' sh sh' (returned x) ne a (f, m) = elim a.value [
    | inl e ↦ (f ∙ sym e, subst IsMade (sym e) m)
    | inr (e, others) ↦ absurd (value-made sh.value m e)
  ]

  -- What a step of the thread i itself needs.
  pub record Moved (i : ℕ) (o : Owner) (sh : Shared A) (next : Point A × Shared A) : Type 0 where
    pub owner : Owner
    pub held : next.1.is_locked ≡ is_owned owner
    pub counted : next.1.constructed ≡ size next.1.value + pending owner
    pub fits : Fits owner i next.1 next.0
    pub inside : (b : Bool) → owner ≡ own i b → Inside next.0
    pub apart : Apart i o owner sh next.1

  pub same : (i : ℕ) (o : Owner) (sh sh' : Shared A) → sh'.value ≡ sh.value → Apart i o o sh sh'
  same i o sh sh' e = record { kept = λ j b ne q. q; owned = λ j b ne q. q; value = inl e }

  -- The lock goes from one owner to another, neither of whom is a third thread.
  pub handed :
      (i : ℕ) (o o' : Owner) (sh sh' : Shared A)
      → ((j : ℕ) (b : Bool) → i ≢ j → o ≢ own j b)
      → ((j : ℕ) (b : Bool) → i ≢ j → o' ≢ own j b)
      → (sh'.value ≡ sh.value) ⊎ (sh.value ≡ none)
      → Apart i o o' sh sh'
  handed i o o' sh sh' from to (inl e) = record {
    kept = λ j b ne q. absurd (from j b ne q);
    owned = λ j b ne q. absurd (to j b ne q);
    value = inl e;
  }
  handed i o o' sh sh' from to (inr e) = record {
    kept = λ j b ne q. absurd (from j b ne q);
    owned = λ j b ne q. absurd (to j b ne q);
    value = inr (e, λ b j ne. from j b ne);
  }
