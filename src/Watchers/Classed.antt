-- ===== src/Watchers/Classed.antt =====
-- How the CI watcher classes a list of runs.
use wiseorder.Prelude.{
  ℕ, ◌≤◌, String, ◌≡◌, ◌↔◌, ◌⊎◌, refl, ap, Bool, true, false, keep, length-take, List, [], ◌∷◌,
  length, take, zero, suc, arith, Bool-cases, inl, inr, eq_iff, both_true,
}
use mathlib.Core.List.{Memᴰ}
use mathlib.Core.List.Memᴰ.{head, tail, cases_cons, not-nil}
use wiseorder.Prelude.Text.{str_eq}
use wiseorder.Prelude.Sorting.{keep-Mem, take-Mem}
use wiseorder.Watchers.Ci.{
  CiCheck, WorkflowRun, is_failed, is_in_flight, is_nil, detect_flaky_workflows, classify,
  check_runs,
}
use wiseorder.Values.{Value, Fields}
use wiseorder.Exec.{Result}

-- A run that has completed with failure, and one that is queued or in progress.
abbrev pub HasFailed : WorkflowRun → Type 0
HasFailed r = (r.status ≡ "completed") × (r.conclusion ≡ "failure")

abbrev pub InFlight : WorkflowRun → Type 0
InFlight r = (r.status ≡ "queued") ⊎ (r.status ≡ "in_progress")

is_failed_iff : (r : WorkflowRun) → (is_failed r ≡ true) ↔ HasFailed r
is_failed_iff r = (
  λ h.
      let (p, q) = both_true (str_eq r.status "completed") (str_eq r.conclusion "failure") h in
      ((eq_iff r.status "completed").0 p, (eq_iff r.conclusion "failure").0 q),
  λ (p, q). rw ((eq_iff r.status "completed").1 p, (eq_iff r.conclusion "failure").1 q) refl,
)

is_in_flight_iff : (r : WorkflowRun) → (is_in_flight r ≡ true) ↔ InFlight r
is_in_flight_iff r = elim (Bool-cases (str_eq r.status "queued")) [
  | inl p ↦ rw p (λ h. inl ((eq_iff r.status "queued").0 p), λ x. refl)
  | inr p ↦ rw p (
    λ h. inr ((eq_iff r.status "in_progress").0 h),
    λ x. elim x [
      | inl q ↦ cc ((eq_iff r.status "queued").1 q, p)
      | inr q ↦ (eq_iff r.status "in_progress").1 q
    ],
  )
]

module _ {A : Type 0} where
  -- The elements with P, in a list of n at most; where one is left out, it is full.
  pub record FirstOf (P : A → Type 0) (n : ℕ) (xs listed : List A) : Type 0 where
    pub short : length listed ≤ n
    pub sound : (x : A) → Memᴰ x listed → Memᴰ x xs × P x
    pub left_out : (x : A) → Memᴰ x xs → P x → Memᴰ x listed ⊎ (length listed ≡ n)

  take-or_full :
      (n : ℕ) (x : A) (xs : List A) → Memᴰ x xs → Memᴰ x (take n xs) ⊎ (length (take n xs) ≡ n)
  take-or_full n x [] m = elim (not-nil m) [ ]
  take-or_full zero x (y ∷ ys) m = inr refl
  take-or_full (suc n) x (y ∷ ys) m = elim (cases_cons m) [
    | inl e ↦ inl (head e)
    | inr t ↦ elim (take-or_full n x ys t) [ inl k ↦ inl (tail k) | inr e ↦ inr (ap suc e) ]
  ]

  take-FirstOf :
      (p : A → Bool) (P : A → Type 0)
      → ((x : A) → (p x ≡ true) ↔ P x)
      → (n : ℕ) (xs : List A) → FirstOf P n xs (take n (keep p xs))
  take-FirstOf p P iff n xs = record {
    short = omega (arith, length-take n (keep p xs));
    sound =
        λ x m. let (k, h) = (keep-Mem p x xs).0 (take-Mem n x (keep p xs) m) in (k, (iff x).0 h);
    left_out = λ x m h. take-or_full n x (keep p xs) ((keep-Mem p x xs).1 (m, (iff x).1 h));
  }

  -- A list that is not empty has an element.
  nonempty-Mem : (xs : List A) → (is_nil xs ≡ false) ↔ ((x : A) × Memᴰ x xs)
  nonempty-Mem [] = (λ h. cc, λ (x, m). elim (not-nil m) [ ])
  nonempty-Mem (x ∷ xs) = (λ h. (x, head refl), λ y. refl)

-- The status of a list of runs and what is kept of them.
pub record Classed (runs : List WorkflowRun) (check : CiCheck) : Type 0 where
  pub warns : (check.status ≡ "WARN") ↔ (
      ((r : WorkflowRun) × Memᴰ r runs × HasFailed r)
      ⊎ ((n : String) × Memᴰ n check.flaky_workflows))
  pub passes : (check.status ≡ "WARN") ⊎ (check.status ≡ "OK")
  pub flaky : check.flaky_workflows ≡ detect_flaky_workflows runs
  pub failed : FirstOf HasFailed 5 runs check.failed_runs
  pub in_flight : FirstOf InFlight 5 runs check.in_flight_runs

-- A check is WARN just where there is a failed run or a flaky workflow.
classify_warns :
    (failed in_flight : List WorkflowRun) (flaky : List String)
    → ((classify failed in_flight flaky).0 ≡ "WARN")
      ↔ ((is_nil failed ≡ false) ⊎ (is_nil flaky ≡ false))
unfolding classify
classify_warns (f ∷ fs) in_flight flaky = (λ h. inl refl, λ h. refl)
classify_warns [] in_flight (n ∷ ns) = (λ h. inr refl, λ h. refl)
classify_warns [] (i ∷ is) [] = (λ h. cc, λ h. elim h [ inl e ↦ cc | inr e ↦ cc ])
classify_warns [] [] [] = (λ h. cc, λ h. elim h [ inl e ↦ cc | inr e ↦ cc ])

classify-cases :
    (failed in_flight : List WorkflowRun) (flaky : List String)
    → ((classify failed in_flight flaky).0 ≡ "WARN") ⊎ ((classify failed in_flight flaky).0 ≡ "OK")
unfolding classify
classify-cases (f ∷ fs) in_flight flaky = inl refl
classify-cases [] in_flight (n ∷ ns) = inl refl
classify-cases [] (i ∷ is) [] = inr refl
classify-cases [] [] [] = inr refl

-- A list of runs is classed WARN just where a run of it has completed with failure or a workflow is
-- flaky, and OK otherwise. The failed runs kept are runs of it that have completed with failure, five at
-- most, and where one is left out there are five; and so are those kept that are queued or in
-- progress.
pub check_runs-Classed :
    (loads : String → Result (List Fields)) (py_str : Value → String) (ts repo : String)
    (runs : List WorkflowRun)
    → Classed runs (check_runs loads py_str ts repo runs)
unfolding check_runs
check_runs-Classed loads py_str ts repo runs =
    let failed = keep is_failed runs in
    let flaky = detect_flaky_workflows runs in
    let w = classify_warns failed (keep is_in_flight runs) flaky in
    record {
      warns = (
        λ h. elim (w.0 h) [
          | inl p ↦
              let (r, m) = (nonempty-Mem failed).0 p in
              let (k, q) = (keep-Mem is_failed r runs).0 m in inl (r, k, (is_failed_iff r).0 q)
          | inr p ↦ inr ((nonempty-Mem flaky).0 p)
        ],
        λ h. w.1 (elim h [
          | inl (r, m, q) ↦ inl (
              (nonempty-Mem failed).1 (r, (keep-Mem is_failed r runs).1 (m, (is_failed_iff r).1 q)))
          | inr p ↦ inr ((nonempty-Mem flaky).1 p)
        ]),
      );
      passes = classify-cases failed (keep is_in_flight runs) flaky;
      flaky = refl;
      failed = take-FirstOf is_failed HasFailed is_failed_iff 5 runs;
      in_flight = take-FirstOf is_in_flight InFlight is_in_flight_iff 5 runs;
    }
