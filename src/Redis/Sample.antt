-- ===== src/Redis/Sample.antt =====
-- A server that answers every command: an instance of the interface, on which the development runs.
use wiseorder.Prelude.{◌≡◌, refl, none, [], true, false, Bool, ℕ, String, length, if◌then◌else◌}
use wiseorder.Exec.{Result, ok}
use wiseorder.Redis.Interface.{
  first_items, Redis, View, pushed, popped, written, dropped, live, free, aged,
}

abbrev pub empty_view : View
empty_view = record { lists = λ _. []; slots = λ _. none }

-- The answer and the state of a command that returned.
answer {ℓ κ} :
    {A : Type ℓ} {S : Type κ} (a : A) (s : S) {a' : A} {s' : S}
    → ◌≡◌ {A = Result A × S} (ok a, s) (ok a', s')
    → (a' ≡ a) × (s' ≡ s)
answer a s e = (cc, cc)

pub written_if-lists :
    (b : Bool) (k x : String) (ex : ℕ) (s : View) (j : String)
    → (if b then written k x ex s else s).lists j ≡ s.lists j
written_if-lists true k x ex s j = refl
written_if-lists false k x ex s j = refl

unfoldable pub sample_redis : Redis View
unfolding answer
sample_redis = record {
  view = λ v. v;
  elapse = aged;
  rpush = λ k x v. (ok tt, pushed k x v);
  blpop = λ ks v. (ok (popped ks v).0, (popped ks v).1);
  llen = λ k v. (ok (length (v.lists k)), v);
  lrange = λ k n v. (ok (first_items n (v.lists k)), v);
  set_nx = λ k x ex v. (ok (free k v), if free k v then written k x ex v else v);
  set_ex = λ k x ex v. (ok tt, written k x ex v);
  get = λ k v. (ok (live v k), v);
  delete = λ k v. (ok tt, dropped k v);
  ping = λ v. (ok true, v);
  view-elapse = λ d v. refl;
  rpush_ok = λ k x s s' e. (answer tt (pushed k x s) e).1;
  blpop_ok = λ ks s s' e. let q = answer (popped ks s).0 (popped ks s).1 e in λ i. (q.0 i, q.1 i);
  llen_ok = λ k s s' e. answer (length (s.lists k)) s e;
  lrange_ok = λ k n s s' e. answer (first_items n (s.lists k)) s e;
  set_nx_ok = λ k x ex s s' e. answer (free k s) (if free k s then written k x ex s else s) e;
  set_ex_ok = λ k x ex s s' e. (answer tt (written k x ex s) e).1;
  get_ok = λ k s s' e. answer (live s k) s e;
  delete_ok = λ k s s' e. (answer tt (dropped k s) e).1;
  set_nx_others = λ k x ex s j h. written_if-lists (free k s) k x ex s j;
  set_ex_others = λ k x ex s j h. refl;
  get_others = λ k s j. refl;
}
