-- ===== src/Orchestrator/Awaited.antt =====
-- What the parts of the stop of the orchestrator have waited for.
use wiseorder.Prelude.{
  ◌≡◌, ◌≢◌, refl, sym, ◌∙◌, ◌⊎◌, inl, inr, Bool, true, false, List, [], ◌∷◌, ◌++◌, if◌then◌else◌,
  subst,
}
use wiseorder.Exec.{Exn, ok, err}
use wiseorder.Orchestrator.Stop.{
  Service, api_server, Action, cancel, wait, TaskEnd, ended, still_running, cancelled, has_raised,
  Done, ◌then◌, wait_api, wait_each,
}
use wiseorder.Orchestrator.Told.{
  Occurs, Occurs-left, Occurs-right, Breaks, NeverClosed, append-NeverClosed, only_if-NeverClosed,
}

module _ (ends : Service → TaskEnd) where
  -- The task was waited for, and the stop went on.
  abbrev pub Waited : Service → List Action → Type 0
  Waited s xs = Occurs (wait s) xs × ((e : Exn) → Breaks s (ends s) e → ⊥)

  -- These tasks were waited for and did not break off the stop, or one of them did.
  abbrev pub After : (Service → Type 0) → Done → Type 0
  After J (ok u, xs) = ((s : Service) → J s → Waited s xs) × NeverClosed xs
  After J (err e, xs) = ((s : Service) × J s × Breaks s (ends s) e) × NeverClosed xs

  pub then-After :
      (J K : Service → Type 0) (d n : Done)
      → After J d
      → After K n
      → After (λ s. J s ⊎ K s) (d then n)
  then-After J K (err e, xs) n ((s, j, b), c) k = ((s, inl j, b), c)
  then-After J K (ok u, xs) (err e, ys) (h, c) ((s, j, b), c') =
      ((s, inr j, b), append-NeverClosed xs ys c c')
  then-After J K (ok u, xs) (ok v, ys) (h, c) (k, c') = (either, append-NeverClosed xs ys c c')
    where
      either : (s : Service) → J s ⊎ K s → Waited s (xs ++ ys)
      either s (inl j) = (Occurs-left _ xs ys (h s j).0, (h s j).1)
      either s (inr j) = (Occurs-right _ xs ys (k s j).0, (k s j).1)

  wait_one : (s : Service) → NeverClosed (wait s ∷ [])
  wait_one s (inl e) = cc
  wait_one s (inr o) = o

  -- The API's task has ended or been cancelled on a timeout.
  api-Waited :
      (xs : List Action) (end : TaskEnd)
      → ends api_server ≡ end
      → ((e : Exn) → Breaks api_server end e → ⊥)
      → (s : Service) → s ≡ api_server
      → Waited s (wait api_server ∷ xs)
  api-Waited xs end p fine s j =
      subst (λ x. Waited x (wait api_server ∷ xs)) (sym j)
        (inl refl, λ e b. fine e (subst (λ t. Breaks api_server t e) p b))

  wait_api-After :
      (end : TaskEnd) → ends api_server ≡ end → After (λ s. s ≡ api_server) (wait_api end)
  unfolding wait_api
  wait_api-After ended p =
      (api-Waited [] ended p (λ e b. elim b [ inl q ↦ cc | inr q ↦ cc ]), wait_one api_server)
  wait_api-After still_running p = (
    api-Waited (cancel api_server ∷ []) still_running p (λ e b. elim b [ inl q ↦ cc | inr q ↦ cc ]),
    append-NeverClosed (wait api_server ∷ []) (cancel api_server ∷ []) (wait_one api_server)
        (only_if-NeverClosed true (cancel api_server) (λ e. cc)),
  )
  wait_api-After (cancelled e) p = ((api_server, refl, inr p), wait_one api_server)
  wait_api-After (has_raised e) p = ((api_server, refl, inl p), wait_one api_server)

  After-iff :
      (J K : Service → Type 0) (d : Done)
      → ((s : Service) → K s → J s)
      → ((s : Service) → J s → K s)
      → After J d
      → After K d
  After-iff J K (ok u, xs) back on (h, c) = ((λ s k. h s (back s k)), c)
  After-iff J K (err e, xs) back on ((s, j, b), c) = ((s, on s j, b), c)

  pub api-After :
      (there : Bool)
      → After
          (λ s. (s ≡ api_server) × (there ≡ true))
          (if there then wait_api (ends api_server) else (ok tt, []))
  api-After true =
      After-iff (λ s. s ≡ api_server) _ (wait_api (ends api_server)) (λ s j. j.0) (λ s j. (j, refl))
        (wait_api-After (ends api_server) refl)
  api-After false = ((λ s j. cc j.1), λ o. o)

  -- The tasks of a list that are there.
  abbrev pub Listed : Service → List (Bool × Service) → Type 0
  Listed s [] = ⊥
  Listed s ((there, t) ∷ rest) = ((s ≡ t) × (there ≡ true)) ⊎ Listed s rest

  -- The tasks that break the stop off only where they raised.
  abbrev pub InBackground : List (Bool × Service) → Type 0
  InBackground [] = Unit {0}
  InBackground ((there, t) ∷ rest) =
      (((end : TaskEnd) (e : Exn) → Breaks t end e → end ≡ has_raised e)
        × ((end : TaskEnd) (e : Exn) → end ≡ has_raised e → Breaks t end e))
      × InBackground rest

  pub wait_each-After :
      (ts : List (Bool × Service)) → InBackground ts → After (λ s. Listed s ts) (wait_each ends ts)
  unfolding wait_each
  wait_each-After [] b = ((λ s j. absurd j), λ o. o)
  wait_each-After ((false, t) ∷ rest) (b, bs) =
      After-iff (λ s. Listed s rest) (λ s. Listed s ((false, t) ∷ rest)) (wait_each ends rest)
        (λ s j. elim j [ inl x ↦ cc (x.1) | inr l ↦ l ]) (λ s j. inr j) (wait_each-After rest bs)
  wait_each-After ((true, t) ∷ rest) (b, bs) = by_end (ends t) refl (wait_each-After rest bs)
    where
      one :
          (end : TaskEnd)
          → ends t ≡ end
          → ((e : Exn) → end ≢ has_raised e)
          → After (λ s. (s ≡ t) × ◌≡◌ {A = Bool} true true) (ok tt, wait t ∷ [])
      one end p fine = (
        λ s j.
            subst (λ x. Waited x (wait t ∷ [])) (sym j.0)
              (inl refl, λ e x. fine e (sym p ∙ b.0 (ends t) e x)),
        wait_one t,
      )

      by_end :
          (end : TaskEnd)
          → ends t ≡ end
          → After (λ s. Listed s rest) (wait_each ends rest)
          → After
              (λ s. ((s ≡ t) × ◌≡◌ {A = Bool} true true) ⊎ Listed s rest)
              (elim end [
                | has_raised e ↦ (err e, wait t ∷ [])
                | _ ↦ (ok tt, wait t ∷ []) then wait_each ends rest
              ])
      by_end (has_raised e) p later = ((t, inl (refl, refl), b.1 (ends t) e p), wait_one t)
      by_end ended p later =
          then-After _ _ (ok tt, wait t ∷ []) (wait_each ends rest) (one ended p (λ e q. cc)) later
      by_end still_running p later =
          then-After _ _ (ok tt, wait t ∷ []) (wait_each ends rest)
            (one still_running p (λ e q. cc)) later
      by_end (cancelled x) p later =
          then-After _ _ (ok tt, wait t ∷ []) (wait_each ends rest)
            (one (cancelled x) p (λ e q. cc)) later
