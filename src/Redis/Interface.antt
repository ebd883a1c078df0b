-- ===== src/Redis/Interface.antt =====
-- What the runtime uses of a Redis server: its commands, and what they do to the lists and the slots
-- with a time to live.
use wiseorder.Prelude.{
  ℕ, zero, suc, ◌-◌, String, ◌≡◌, Bool, true, false, Option, none, some, List, [], ◌∷◌, ◌++◌, leb,
  take, length, if◌then◌else◌,
}
use wiseorder.Prelude.Text.{str_eq}
use wiseorder.Exec.{ok, Exec}

-- A string key: its value, and the seconds it has left if it was set with EX.
pub record Slot : Type 0 where
  pub value : String
  pub ttl : Option ℕ

-- What a client can see: the lists, and the string keys that have not expired.
pub record View : Type 0 where
  pub lists : String → List String
  pub slots : String → Option Slot

abbrev pub update {ℓ} : {A : Type ℓ} → (String → A) → String → A → String → A
update f k a j = if str_eq k j then a else f j

-- The value of a key, if it is live.
abbrev pub live : View → String → Option String
live v k = elim (v.slots k) [ none ↦ none | some slot ↦ some slot.value ]

abbrev is_free : Option Slot → Bool
is_free none = true
is_free (some _) = false

abbrev pub pushed : String → String → View → View
pushed k x v = record v { lists = update v.lists k (v.lists k ++ x ∷ []) }

abbrev pub written : String → String → ℕ → View → View
written k x ex v = record v {
  slots = update v.slots k (some (record { value = x; ttl = some ex }));
}

abbrev pub dropped : String → View → View
dropped k v = record v { slots = update v.slots k none }

abbrev pub free : String → View → Bool
free k v = is_free (v.slots k)

abbrev pub pop_one :
    String
    → List String
    → View
    → (Option (String × String) × View)
    → Option (String × String) × View
pop_one k [] v rest = rest
pop_one k (x ∷ xs) v rest = (some (k, x), record v { lists = update v.lists k xs })

-- BLPOP: the head of the first list that is not empty, in the order of the keys.
abbrev pub popped : List String → View → Option (String × String) × View
popped [] v = (none, v)
popped (k ∷ ks) v = pop_one k (v.lists k) v (popped ks v)

abbrev pub age_by : ℕ → Slot → Option ℕ → Option Slot
age_by d slot none = some slot
age_by d slot (some t) = if leb t d then none else some (record slot { ttl = some (t - d) })

-- A slot when d more seconds have passed: a key whose time is over is gone.
abbrev pub age : ℕ → Option Slot → Option Slot
age d none = none
age d (some slot) = age_by d slot slot.ttl

abbrev pub aged : ℕ → View → View
aged d v = record v { slots = λ k. age d (v.slots k) }

abbrev pub first_items : ℕ → List String → List String
first_items zero xs = xs
first_items (suc n) xs = take (suc n) xs

pub record Redis (S : Type 0) : Type 0 where
  pub view : S → View
  -- d seconds pass.
  pub elapse : ℕ → S → S
  pub rpush : String → String → Exec S (Unit {0})
  pub blpop : List String → Exec S (Option (String × String))
  pub llen : String → Exec S ℕ
  -- LRANGE k 0 (n - 1): for n = 0 the last index is -1, which is the end of the list
  pub lrange : String → ℕ → Exec S (List String)
  -- SET k x NX EX ex
  pub set_nx : String → String → ℕ → Exec S Bool
  -- SET k x EX ex
  pub set_ex : String → String → ℕ → Exec S (Unit {0})
  pub get : String → Exec S (Option String)
  pub delete : String → Exec S (Unit {0})
  pub ping : Exec S Bool
  pub view-elapse : (d : ℕ) (s : S) → view (elapse d s) ≡ aged d (view s)
  pub rpush_ok :
      (k x : String) (s s' : S) {u : Unit}
      → rpush k x s ≡ (ok u, s')
      → view s' ≡ pushed k x (view s)
  pub blpop_ok :
      (ks : List String) (s s' : S) {r : Option (String × String)}
      → blpop ks s ≡ (ok r, s')
      → (r, view s') ≡ popped ks (view s)
  pub llen_ok :
      (k : String) (s s' : S) {n : ℕ}
      → llen k s ≡ (ok n, s')
      → (n ≡ length ((view s).lists k)) × (view s' ≡ view s)
  pub lrange_ok :
      (k : String) (n : ℕ) (s s' : S) {xs : List String}
      → lrange k n s ≡ (ok xs, s')
      → (xs ≡ first_items n ((view s).lists k)) × (view s' ≡ view s)
  pub set_nx_ok :
      (k x : String) (ex : ℕ) (s s' : S) {won : Bool}
      → set_nx k x ex s ≡ (ok won, s')
      → (won ≡ free k (view s))
        × (view s' ≡ (if free k (view s) then written k x ex (view s) else view s))
  pub set_ex_ok :
      (k x : String) (ex : ℕ) (s s' : S) {u : Unit}
      → set_ex k x ex s ≡ (ok u, s')
      → view s' ≡ written k x ex (view s)
  pub get_ok :
      (k : String) (s s' : S) {r : Option String}
      → get k s ≡ (ok r, s')
      → (r ≡ live (view s) k) × (view s' ≡ view s)
  pub delete_ok :
      (k : String) (s s' : S) {u : Unit} → delete k s ≡ (ok u, s') → view s' ≡ dropped k (view s)
  -- A command on one key leaves the lists at the other keys alone, also where its answer is lost.
  pub set_nx_others :
      (k x : String) (ex : ℕ) (s : S) (j : String)
      → str_eq k j ≡ false
      → (view (set_nx k x ex s).1).lists j ≡ (view s).lists j
  pub set_ex_others :
      (k x : String) (ex : ℕ) (s : S) (j : String)
      → str_eq k j ≡ false
      → (view (set_ex k x ex s).1).lists j ≡ (view s).lists j
  pub get_others : (k : String) (s : S) (j : String) → (view (get k s).1).lists j ≡ (view s).lists j
