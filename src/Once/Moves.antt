-- ===== src/Once/Moves.antt =====
-- What one step of a thread does to the owner of the lock.
use wiseorder.Prelude.{
  ℕ, ◌+◌, ◌≡◌, refl, sym, ap, ◌∙◌, inl, inr, Bool, true, false, Option, none, some, if◌then◌else◌,
  arith,
}
use wiseorder.Exec.{Result, ok, err}
use wiseorder.Once.{
  Point, begin, seen, waiting, locked, making, made, stored, returned, failed, Shared, advance,
  first_test, second_test, constructing,
}
use wiseorder.Once.Owner.{
  Owner, free, own, is_owned, pending, size, own-other, free-other, pending_free, Inside, Fits,
  Moved, same, handed,
}

module _ {A : Type 0} (make : ℕ → Result A) where
  pub advance-Moved :
      (i : ℕ) (o : Owner) (sh : Shared A) (p : Point A)
      → sh.is_locked ≡ is_owned o
      → sh.constructed ≡ size sh.value + pending o
      → Fits o i sh p
      → ((b : Bool) → o ≡ own i b → Inside p)
      → Moved i o sh (advance make p sh)
  unfolding advance
  advance-Moved i o sh begin held counted fits inside = record {
    owner = o;
    held = held;
    counted = counted;
    fits = tested sh.value refl;
    inside = λ b e. absurd (inside b e);
    apart = same i o sh sh refl;
  }
    where
      tested : (v : Option A) → sh.value ≡ v → Fits o i sh (first_test v)
      tested none e = tt
      tested (some v) e = rw e tt
  advance-Moved i o sh seen held counted fits inside = record {
    owner = o;
    held = held;
    counted = counted;
    fits = (refl, fits);
    inside = λ b e. absurd (inside b e);
    apart = same i o sh sh refl;
  }
  advance-Moved i o sh waiting held counted fits inside = tested sh.is_locked refl
    where
      tested :
          (b : Bool)
          → sh.is_locked ≡ b
          → Moved i o sh (if b then (waiting, sh) else (locked, record sh { is_locked = true }))
      tested true e = record {
        owner = o;
        held = held;
        counted = counted;
        fits = tt;
        inside = λ b q. absurd (inside b q);
        apart = same i o sh sh refl;
      }
      tested false e = record {
        owner = own i false;
        held = refl;
        counted = counted ∙ ap (λ n. size sh.value + n) (pending_free o (sym held ∙ e));
        fits = refl;
        inside = λ b q. tt;
        apart =
            handed i o (own i false) sh _ (λ j b ne. free-other o j b (sym held ∙ e))
              (λ j b ne. own-other i j false b (own i false) refl ne) (inl refl);
      }
  advance-Moved i o sh locked held counted fits inside = record {
    owner = o;
    held = held;
    counted = counted;
    fits = tested sh.value refl;
    inside = λ b q. tested_inside sh.value;
    apart = same i o sh sh refl;
  }
    where
      tested : (v : Option A) → sh.value ≡ v → Fits o i sh (second_test v)
      tested none e = (fits, e)
      tested (some v) e = (fits, rw e tt)

      tested_inside : (v : Option A) → Inside (second_test v)
      tested_inside none = tt
      tested_inside (some v) = tt
  advance-Moved i o sh making held counted (e, v) inside = constructed (make sh.attempts)
    where
      constructed : (r : Result A) → Moved i o sh (constructing r sh)
      constructed (ok x) = record {
        owner = own i true;
        held = held ∙ ap is_owned e;
        counted = omega (arith, counted ∙ ap (λ w. size sh.value + pending w) e);
        fits = (refl, v);
        inside = λ b q. tt;
        apart =
            handed i o (own i true) sh _ (λ j b ne. own-other i j false b o e ne)
              (λ j b ne. own-other i j true b (own i true) refl ne) (inl refl);
      }
      constructed (err x) = record {
        owner = free;
        held = refl;
        counted = counted ∙ ap (λ w. size sh.value + pending w) e;
        fits = tt;
        inside = λ b q. cc;
        apart =
            handed i o free sh _ (λ j b ne. own-other i j false b o e ne)
              (λ j b ne. free-other free j b refl) (inl refl);
      }
  advance-Moved i o sh (made x) held counted (e, v) inside = record {
    owner = own i false;
    held = held ∙ ap is_owned e;
    counted =
        omega (arith, counted ∙ ap (λ w. size sh.value + pending w) e ∙ ap (λ w. size w + 1) v);
    fits = (refl, tt);
    inside = λ b q. tt;
    apart =
        handed i o (own i false) sh _ (λ j b ne. own-other i j true b o e ne)
          (λ j b ne. own-other i j false b (own i false) refl ne) (inr v);
  }
  advance-Moved i o sh stored held counted (e, m) inside = record {
    owner = free;
    held = refl;
    counted = counted ∙ ap (λ w. size sh.value + pending w) e;
    fits = (refl, m);
    inside = λ b q. cc;
    apart =
        handed i o free sh _ (λ j b ne. own-other i j false b o e ne)
          (λ j b ne. free-other free j b refl) (inl refl);
  }
  advance-Moved i o sh (returned x) held counted fits inside = record {
    owner = o;
    held = held;
    counted = counted;
    fits = fits;
    inside = inside;
    apart = same i o sh sh refl;
  }
  advance-Moved i o sh (failed x) held counted fits inside = record {
    owner = o;
    held = held;
    counted = counted;
    fits = tt;
    inside = inside;
    apart = same i o sh sh refl;
  }
