-- ===== src/Once/Single.antt =====
-- One value is made for the process.
use wiseorder.Prelude.{
  ℕ, ◌+◌, ◌≡◌, ◌≢◌, refl, sym, ap, ◌∙◌, subst, inl, inr, Bool, true, false, Option, none, some,
  List, [], ◌∷◌, ◌==◌, ==_iff, Bool-cases,
}
use wiseorder.Exec.{Result}
use wiseorder.Once.{
  Point, begin, seen, waiting, locked, making, made, stored, returned, failed, Shared, Threads,
  advance, step, run, no_value,
}
use wiseorder.Once.Owner.{
  Owner, free, own, pending, size, IsMade, value-made, Inside, Fits, Owned, Fits-Apart, Moved,
}
use wiseorder.Once.Moves.{advance-Moved}

-- The thread is at an entry point of one of the functions.
abbrev pub Enters : {A : Type 0} → Point A → Type 0
Enters begin = Unit {0}
Enters waiting = Unit {0}
Enters _ = ⊥

different : (i j : ℕ) → (i == j) ≡ false → i ≢ j
different i j e q = cc (e, (==_iff i j).1 q)

module _ {A : Type 0} where
  -- The owner has no value to store where one is stored.
  stored-pending :
      (k : ℕ) (sh : Shared A) (p : Point A)
      → Inside p
      → Fits (own k true) k sh p
      → IsMade sh.value
      → ⊥
  stored-pending k sh locked n f m = cc
  stored-pending k sh making n (f, v) m = cc
  stored-pending k sh (made x) n (f, v) m = value-made sh.value m v
  stored-pending k sh stored n (f, v) m = cc
  stored-pending k sh begin n f m = n
  stored-pending k sh seen n f m = n
  stored-pending k sh waiting n f m = n
  stored-pending k sh (returned x) n f m = n
  stored-pending k sh (failed x) n f m = n

  made_one : (o : Option A) → IsMade o → (v : A) × (o ≡ some v)
  made_one none m = absurd m
  made_one (some v) m = (v, refl)

  made-pending : (o : Owner) (t : Threads A) → Owned o t → IsMade t.shared.value → pending o ≡ 0
  made-pending free t h m = refl
  made-pending (own k false) t h m = refl
  made-pending (own k true) t h m =
      absurd (stored-pending k t.shared (t.points k) (h.inside k true refl) (h.fits k) m)

module _ {A : Type 0} (make : ℕ → Result A) where
  abbrev Moves : ℕ → Owner → Threads A → Type 0
  Moves i o t = Moved i o t.shared (advance make (t.points i) t.shared)

  step-Fits :
      (i j : ℕ) (o : Owner) (t : Threads A) (h : Owned o t) (m : Moves i o t)
      → Fits m.owner j (step make i t).shared ((step make i t).points j)
  unfolding advance
  step-Fits i j o t h m = elim (Bool-cases (i == j)) [
    | inl e ↦ rw e (
        subst
          (λ n.
            Fits m.owner n (advance make (t.points i) t.shared).1
              (advance make (t.points i) t.shared).0)
          ((==_iff i j).0 e) m.fits)
    | inr e ↦ rw e (
        Fits-Apart i j o m.owner t.shared (advance make (t.points i) t.shared).1 (t.points j)
          (different i j e) m.apart (h.fits j))
  ]

  step-Inside :
      (i j : ℕ) (o : Owner) (t : Threads A) (h : Owned o t) (m : Moves i o t) (b : Bool)
      → m.owner ≡ own j b
      → Inside ((step make i t).points j)
  unfolding advance
  step-Inside i j o t h m b q = elim (Bool-cases (i == j)) [
    | inl e ↦ rw e (m.inside b (q ∙ ap (λ n. own n b) (sym ((==_iff i j).0 e))))
    | inr e ↦ rw e (h.inside j b (m.apart.owned j b (different i j e) q))
  ]

  step-Owned :
      (i : ℕ) (o : Owner) (t : Threads A) → Owned o t → (o' : Owner) × Owned o' (step make i t)
  unfolding advance
  step-Owned i o t h =
      let m : Moves i o t =
        advance-Moved make i o t.shared (t.points i) h.held h.counted (h.fits i) (h.inside i) in
      (
        m.owner,
        record {
          held = m.held;
          counted = m.counted;
          fits = λ j. step-Fits i j o t h m;
          inside = λ j b. step-Inside i j o t h m b;
        },
      )

  pub run-Owned :
      (schedule : List ℕ) (o : Owner) (t : Threads A)
      → Owned o t
      → (o' : Owner) × Owned o' (run make schedule t)
  unfolding run
  run-Owned [] o t h = (o, h)
  run-Owned (i ∷ schedule) o t h =
      let (o', h') = step-Owned i o t h in run-Owned schedule o' (step make i t) h'

  entry-Fits : (i : ℕ) (p : Point A) → Enters p → Fits free i (no_value A) p
  entry-Fits i begin e = tt
  entry-Fits i waiting e = tt
  entry-Fits i (returned x) e = absurd e
  entry-Fits i (failed x) e = absurd e
  entry-Fits i (made v) e = absurd e
  entry-Fits i seen e = absurd e
  entry-Fits i locked e = absurd e
  entry-Fits i making e = absurd e
  entry-Fits i stored e = absurd e

  pub start-Owned :
      (t : Threads A) → ((i : ℕ) → Enters (t.points i)) → t.shared ≡ no_value A → Owned free t
  start-Owned t entry e = record {
    held = ap (λ (s : Shared A). s.is_locked) e;
    counted = rw e;
    fits = λ i. rw e (entry-Fits i (t.points i) (entry i));
    inside = λ i b q. cc;
  }

  -- Threads begin at the entries of the function, where nothing has been made. Whatever the scheduler
  -- does and whichever constructions raise, any two threads that have returned were given the same
  -- value, and one construction alone has returned.
  pub run-one_value :
      (schedule : List ℕ) (t : Threads A) (i j : ℕ) (x y : Option A)
      → ((k : ℕ) → Enters (t.points k))
      → t.shared ≡ no_value A
      → (run make schedule t).points i ≡ returned x
      → (run make schedule t).points j ≡ returned y
      → (v : A) × (x ≡ some v) × (y ≡ some v) × ((run make schedule t).shared.constructed ≡ 1)
  run-one_value schedule t i j x y entry fresh pi pj =
      let (o, h) = run-Owned schedule free t (start-Owned t entry fresh) in
      let (ex, mx) = subst (Fits o i (run make schedule t).shared) pi (h.fits i) in
      let (ey, my) = subst (Fits o j (run make schedule t).shared) pj (h.fits j) in
      let (v, e) = made_one (run make schedule t).shared.value mx in
      (
        v,
        ex ∙ e,
        ey ∙ e,
        h.counted
            ∙ ap (λ n. size (run make schedule t).shared.value + n)
                (made-pending o (run make schedule t) h mx)
            ∙ ap (λ w. size w + 0) e,
      )
