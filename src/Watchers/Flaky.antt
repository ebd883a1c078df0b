-- ===== src/Watchers/Flaky.antt =====
-- Which workflows the CI watcher calls flaky.
use Prim.Native.String.{compare}
use Prim.Native.Nat.{Ordering}
use wiseorder.Prelude.{
  String, ◌≡◌, refl, Bool, true, false, ◌&&◌, ◌||◌, ◌⊎◌, inl, inr, List, [], ◌∷◌, any, arith,
  Bool-cases, both_true, eq_iff,
}
use package.text.Mathlib.TextPositions.{eq_refl}
use wiseorder.Prelude.Text.{str_eq}
use wiseorder.Watchers.Ci.{
  WorkflowRun, Seen, has_key_of, concluded, add_conclusion, seen_in, add_sorted, is_flaky,
  flaky_names, detect_flaky_workflows,
}

-- A run of this workflow on this commit has this conclusion.
abbrev pub is_run : String → String → String → WorkflowRun → Bool
is_run c name sha r =
    concluded r && str_eq r.name name && str_eq r.head_sha sha && str_eq c r.conclusion

abbrev pub occurs : String → String → String → List WorkflowRun → Bool
occurs c name sha runs = any (is_run c name sha) runs

-- Every conclusion of an entry is that of some run.
Sound : List WorkflowRun → List Seen → Type 0
Sound all [] = Unit {0}
Sound all (e ∷ es) =
    ((c : String) → any (str_eq c) e.conclusions ≡ true → occurs c e.name e.sha all ≡ true)
    × Sound all es

pub or-cases : (a b : Bool) → (a || b) ≡ true → (a ≡ true) ⊎ (b ≡ true)
or-cases true b h = inl refl
or-cases false b h = inr h

add_conclusion-Sound :
    (all : List WorkflowRun) (r : WorkflowRun) (seen : List Seen)
    → occurs r.conclusion r.name r.head_sha all ≡ true
    → Sound all seen
    → Sound all (add_conclusion r seen)
unfolding add_conclusion Sound
add_conclusion-Sound all r [] h s = (
  λ c e. elim (or-cases (str_eq c r.conclusion) false e) [
    | inl p ↦ rw ((eq_iff c r.conclusion).0 p) h
    | inr p ↦ cc
  ],
  tt,
)
add_conclusion-Sound all r (x ∷ xs) h (s, ss) = elim (Bool-cases (has_key_of r x)) [
  | inr p ↦ rw p (s, add_conclusion-Sound all r xs h ss)
  | inl p ↦ rw p (
    λ c e. elim (or-cases (str_eq c r.conclusion) (any (str_eq c) x.conclusions) e) [
      | inr q ↦ s c q
      | inl q ↦
          let (a, b) = both_true (str_eq x.name r.name) (str_eq x.sha r.head_sha) p in
          rw
            ((eq_iff c r.conclusion).0 q, (eq_iff x.name r.name).0 a, (eq_iff x.sha r.head_sha).0 b)
            h
    ],
    ss,
  )
]

run-occurs : (r : WorkflowRun) → concluded r ≡ true → is_run r.conclusion r.name r.head_sha r ≡ true
run-occurs r h = rw (h, eq_refl r.name, eq_refl r.head_sha, eq_refl r.conclusion)

seen_in-Sound :
    (all runs : List WorkflowRun) (seen : List Seen)
    → ((c n s : String) → occurs c n s runs ≡ true → occurs c n s all ≡ true)
    → Sound all seen
    → Sound all (seen_in runs seen)
unfolding seen_in
seen_in-Sound all [] seen h s = s
seen_in-Sound all (r ∷ rs) seen h s = elim (Bool-cases (concluded r)) [
  | inl p ↦ rw p (
      seen_in-Sound all rs (add_conclusion r seen) later (
        add_conclusion-Sound all r seen
          (h r.conclusion r.name r.head_sha (rw (run-occurs r p) refl)) s))
  | inr p ↦ rw p (seen_in-Sound all rs seen later s)
]
  where
    later : (c n s : String) → occurs c n s rs ≡ true → occurs c n s all ≡ true
    later c n s e = h c n s (or_right (is_run c n s r) (occurs c n s rs) e)
      where
        or_right : (a b : Bool) → b ≡ true → (a || b) ≡ true
        or_right true b e' = refl
        or_right false b e' = e'

-- A name that is listed was there or was added.
add_sorted-any :
    (n m : String) (ms : List String)
    → any (str_eq n) (add_sorted m ms) ≡ true
    → (n ≡ m) ⊎ (any (str_eq n) ms ≡ true)
unfolding add_sorted
add_sorted-any n m [] h = elim (or-cases (str_eq n m) false h) [
  | inl p ↦ inl ((eq_iff n m).0 p)
  | inr p ↦ cc
]
add_sorted-any n m (x ∷ xs) h = inserted (compare m x) (add_sorted-any n m xs) h
  where
    inserted :
        (o : Ordering)
        → (any (str_eq n) (add_sorted m xs) ≡ true → (n ≡ m) ⊎ (any (str_eq n) xs ≡ true))
        → any (str_eq n) (elim o [
          | Ordering.lt ↦ m ∷ x ∷ xs
          | Ordering.eq ↦ x ∷ xs
          | Ordering.gt ↦ x ∷ add_sorted m xs
        ])
          ≡ true
        → (n ≡ m) ⊎ (any (str_eq n) (x ∷ xs) ≡ true)
    inserted Ordering.lt again e = elim (or-cases (str_eq n m) _ e) [
      | inl p ↦ inl ((eq_iff n m).0 p)
      | inr p ↦ inr p
    ]
    inserted Ordering.eq again e = inr e
    inserted Ordering.gt again e = elim (or-cases (str_eq n x) _ e) [
      | inl p ↦ inr (rw p)
      | inr p ↦ elim (again p) [ inl q ↦ inl q | inr q ↦ inr (ground (arith, q)) ]
    ]

-- Both conclusions occur on one commit.
abbrev pub FailedAndPassed : List WorkflowRun → String → Type 0
FailedAndPassed runs name =
    (sha : String) × ((occurs "failure" name sha runs ≡ true)
      × (occurs "success" name sha runs ≡ true))

flaky_names-Sound :
    (all : List WorkflowRun) (name : String) (seen : List Seen)
    → Sound all seen
    → any (str_eq name) (flaky_names seen) ≡ true
    → FailedAndPassed all name
unfolding flaky_names Sound
flaky_names-Sound all name [] s h = cc
flaky_names-Sound all name (x ∷ xs) (s, ss) h = elim (Bool-cases (is_flaky x)) [
  | inr p ↦ flaky_names-Sound all name xs ss (rw (p, flaky_names) at h)
  | inl p ↦ elim (add_sorted-any name x.name (flaky_names xs) (rw (p, flaky_names) at h)) [
    | inr q ↦ flaky_names-Sound all name xs ss q
    | inl q ↦
        let (a, b) =
          both_true (any (str_eq "failure") x.conclusions) (any (str_eq "success") x.conclusions)
            p in
        rw q (x.sha, (s "failure" a, s "success" b))
  ]
]

-- A workflow that is called flaky has completed with failure and with success on the same commit.
pub detect_flaky_workflows-FailedAndPassed :
    (runs : List WorkflowRun) (name : String)
    → any (str_eq name) (detect_flaky_workflows runs) ≡ true
    → FailedAndPassed runs name
unfolding detect_flaky_workflows Sound
detect_flaky_workflows-FailedAndPassed runs name h =
    flaky_names-Sound runs name (seen_in runs []) (seen_in-Sound runs runs [] (λ c n s e. e) tt) h
