-- ===== src/Watchers/Complete.antt =====
-- The workflows that the CI watcher has to call flaky.
use Prim.Native.String.{compare}
use Prim.Native.Nat.{Ordering}
use wiseorder.Prelude.{
  ◌↔◌, String, ◌≡◌, refl, Bool, true, false, ◌&&◌, ◌||◌, inl, inr, List, [], ◌∷◌, any, Bool-cases,
  both_true, eq_iff, sym, if◌then◌else◌,
}
use package.text.Mathlib.TextPositions.{eq_refl}
use text.Mathlib.TextEquality.{path_by_compare}
use wiseorder.Prelude.Text.{str_eq}
use wiseorder.Watchers.Ci.{
  WorkflowRun, Seen, concluded, add_conclusion, seen_in, add_sorted, is_flaky, flaky_names,
  has_key_of, detect_flaky_workflows,
}
use wiseorder.Watchers.Flaky.{
  detect_flaky_workflows-FailedAndPassed, FailedAndPassed, occurs, or-cases, is_run,
}

-- The first entry with this key has this conclusion.
found : String → String → String → List Seen → Bool
found c name sha [] = false
found c name sha (x ∷ xs) =
    let rest = found c name sha xs in
    if str_eq x.name name && str_eq x.sha sha then any (str_eq c) x.conclusions else rest

or_right : (a b : Bool) → b ≡ true → (a || b) ≡ true
or_right true b h = refl
or_right false b h = h

-- What was found is found after a further run.
found-add_conclusion :
    (c name sha : String) (r : WorkflowRun) (seen : List Seen)
    → found c name sha seen ≡ true
    → found c name sha (add_conclusion r seen) ≡ true
unfolding found add_conclusion
found-add_conclusion c name sha r [] h = cc
found-add_conclusion c name sha r (x ∷ xs) h = elim (Bool-cases (has_key_of r x)) [
  | inl p ↦ elim (Bool-cases (str_eq x.name name && str_eq x.sha sha)) [
    | inl q ↦
        rw (p, q)
          (or_right (str_eq c r.conclusion) (any (str_eq c) x.conclusions) (rw (found, q) at h))
    | inr q ↦ rw (p, q) (rw (found, q) at h)
  ]
  | inr p ↦ elim (Bool-cases (str_eq x.name name && str_eq x.sha sha)) [
    | inl q ↦ rw (p, q) (rw (found, q) at h)
    | inr q ↦ rw (p, q) (found-add_conclusion c name sha r xs (rw (found, q) at h))
  ]
]

-- The conclusion of a run is found once the run is added.
add_conclusion-found :
    (r : WorkflowRun) (seen : List Seen)
    → found r.conclusion r.name r.head_sha (add_conclusion r seen) ≡ true
unfolding found add_conclusion
add_conclusion-found r [] = rw (eq_refl r.name, eq_refl r.head_sha, eq_refl r.conclusion)
add_conclusion-found r (x ∷ xs) =
    elim (Bool-cases (str_eq x.name r.name && str_eq x.sha r.head_sha)) [
      | inl p ↦ rw (p, eq_refl r.conclusion) (rw p refl)
      | inr p ↦ rw p (rw p (add_conclusion-found r xs))
    ]

-- What was found is found after the further runs.
found-seen_in :
    (c name sha : String) (runs : List WorkflowRun) (seen : List Seen)
    → found c name sha seen ≡ true
    → found c name sha (seen_in runs seen) ≡ true
unfolding seen_in
found-seen_in c name sha [] seen h = h
found-seen_in c name sha (r ∷ rs) seen h = elim (Bool-cases (concluded r)) [
  | inl p ↦ rw p (
      found-seen_in c name sha rs (add_conclusion r seen)
        (found-add_conclusion c name sha r seen h))
  | inr p ↦ rw p (found-seen_in c name sha rs seen h)
]

-- A conclusion that occurs is found.
seen_in-found :
    (c name sha : String) (runs : List WorkflowRun) (seen : List Seen)
    → occurs c name sha runs ≡ true
    → found c name sha (seen_in runs seen) ≡ true
unfolding seen_in
seen_in-found c name sha [] seen h = cc
seen_in-found c name sha (r ∷ rs) seen h = elim (or-cases (is_run c name sha r) _ h) [
  | inl p ↦
      let (b, g) =
        both_true (concluded r && str_eq r.name name && str_eq r.head_sha sha)
          (str_eq c r.conclusion) p in
      let (e, f) = both_true (concluded r && str_eq r.name name) (str_eq r.head_sha sha) b in
      let (a, d) = both_true (concluded r) (str_eq r.name name) e in
      rw a (
        found-seen_in c name sha rs (add_conclusion r seen) (
          rw
            (
              (eq_iff c r.conclusion).0 g,
              sym ((eq_iff r.name name).0 d),
              sym ((eq_iff r.head_sha sha).0 f),
            )
            (add_conclusion-found r seen)))
  | inr p ↦ elim (Bool-cases (concluded r)) [
    | inl q ↦ rw q (seen_in-found c name sha rs (add_conclusion r seen) p)
    | inr q ↦ rw q (seen_in-found c name sha rs seen p)
  ]
]

-- A name is listed once it is added, and stays listed.
any-add_sorted : (n : String) (ms : List String) → any (str_eq n) (add_sorted n ms) ≡ true
unfolding add_sorted
any-add_sorted n [] = rw (eq_refl n)
any-add_sorted n (x ∷ xs) = inserted (compare n x) refl (any-add_sorted n xs)
  where
    inserted :
        (o : Ordering)
        → compare n x ≡ o
        → any (str_eq n) (add_sorted n xs) ≡ true
        → any (str_eq n) (elim o [
          | Ordering.lt ↦ n ∷ x ∷ xs
          | Ordering.eq ↦ x ∷ xs
          | Ordering.gt ↦ x ∷ add_sorted n xs
        ])
          ≡ true
    inserted Ordering.lt e again = rw (eq_refl n)
    inserted Ordering.eq e again = rw (path_by_compare n x e, eq_refl x)
    inserted Ordering.gt e again = or_right (str_eq n x) _ again

kept-add_sorted :
    (n m : String) (ms : List String)
    → any (str_eq n) ms ≡ true
    → any (str_eq n) (add_sorted m ms) ≡ true
unfolding add_sorted
kept-add_sorted n m [] h = cc
kept-add_sorted n m (x ∷ xs) h = inserted (compare m x) (kept-add_sorted n m xs)
  where
    inserted :
        (o : Ordering)
        → (any (str_eq n) xs ≡ true → any (str_eq n) (add_sorted m xs) ≡ true)
        → any (str_eq n) (elim o [
          | Ordering.lt ↦ m ∷ x ∷ xs
          | Ordering.eq ↦ x ∷ xs
          | Ordering.gt ↦ x ∷ add_sorted m xs
        ])
          ≡ true
    inserted Ordering.lt again = or_right (str_eq n m) _ h
    inserted Ordering.eq again = h
    inserted Ordering.gt again = elim (or-cases (str_eq n x) _ h) [
      | inl p ↦ rw p refl
      | inr p ↦ or_right (str_eq n x) _ (again p)
    ]

flaky_names-found :
    (name sha : String) (seen : List Seen)
    → found "failure" name sha seen ≡ true
    → found "success" name sha seen ≡ true
    → any (str_eq name) (flaky_names seen) ≡ true
unfolding found flaky_names
flaky_names-found name sha [] h k = cc
flaky_names-found name sha (x ∷ xs) h k =
    elim (Bool-cases (str_eq x.name name && str_eq x.sha sha)) [
      | inl p ↦
          let (a, b) = both_true (str_eq x.name name) (str_eq x.sha sha) p in
          rw (rw (found, p) at h, rw (found, p) at k, (eq_iff x.name name).0 a)
            (any-add_sorted name (flaky_names xs))
      | inr p ↦
          let again = flaky_names-found name sha xs (rw (found, p) at h) (rw (found, p) at k) in
          elim (Bool-cases (is_flaky x)) [
            | inl q ↦ rw q (kept-add_sorted name x.name (flaky_names xs) again)
            | inr q ↦ rw q again
          ]
    ]

-- A workflow that has completed with failure and with success on the same commit is called flaky.
pub detect_flaky_workflows_complete :
    (runs : List WorkflowRun) (name : String)
    → FailedAndPassed runs name
    → any (str_eq name) (detect_flaky_workflows runs) ≡ true
unfolding detect_flaky_workflows
detect_flaky_workflows_complete runs name (sha, (f, s)) =
    flaky_names-found name sha (seen_in runs []) (seen_in-found "failure" name sha runs [] f)
      (seen_in-found "success" name sha runs [] s)

-- The workflows that are called flaky are those that have completed with failure and with success on
-- one commit.
pub detect_flaky_workflows_lem :
    (runs : List WorkflowRun) (name : String)
    → (any (str_eq name) (detect_flaky_workflows runs) ≡ true) ↔ FailedAndPassed runs name
detect_flaky_workflows_lem runs name =
    (detect_flaky_workflows-FailedAndPassed runs name, detect_flaky_workflows_complete runs name)
