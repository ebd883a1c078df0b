-- ===== src/Orchestrator/Stopped.antt =====
-- What the stop of the orchestrator has done when it ends.
use wiseorder.Prelude.{
  ℕ, ◌<◌, ◌≡◌, refl, sym, ap, ◌∙◌, ◌⊎◌, inl, inr, true, List, [], ◌∷◌, ◌++◌, if◌then◌else◌, subst,
}
use mathlib.Core.List.{append_assoc}
use wiseorder.Exec.{ok, err}
use wiseorder.Orchestrator.Stop.{
  Service, worker, api_server, integrity_watcher, ci_watcher, daily_summary, Action, close_queue,
  TaskEnd, Started, Done, ◌then◌, tell, wait_api, gather, wait_each, background_tasks, stop,
}
use wiseorder.Orchestrator.Told.{
  Occurs-left, Breaks, Runs, NeverClosed, tell-NeverClosed, gather-NeverClosed, gather-wait,
}
use wiseorder.Orchestrator.Awaited.{
  Waited, After, then-After, api-After, wait_each-After, Listed, InBackground,
}

module _ (ends : Service → TaskEnd) (o : Started) where
  -- Where the stop returned, it has waited for every task that was started, none of them broke it off, and
  -- at last it closed the queue, once. Where it raised, such a task broke it off with this
  -- exception, and the queue is not closed.
  abbrev pub Ended : Done → Type 0
  Ended (ok u, xs) =
      ((s : Service) → Runs o s → Waited ends s xs)
      × ((before : List Action) × (xs ≡ before ++ close_queue ∷ []) × NeverClosed before)
  Ended (err e, xs) = ((s : Service) × Runs o s × Breaks s (ends s) e) × NeverClosed xs

  abbrev IsWorker : Service → Type 0
  IsWorker s = (i : ℕ) × (s ≡ worker i) × (i < o.num_workers)

  abbrev Any : Service → Type 0
  Any s =
      ((⊥ ⊎ ((s ≡ api_server) × (o.api_task ≡ true))) ⊎ IsWorker s)
      ⊎ Listed ends s (background_tasks o)

  Runs-Any : (s : Service) → Runs o s → Any s
  Runs-Any (worker i) r = inl (inr (i, refl, r))
  Runs-Any api_server r = inl (inl (inr (refl, r)))
  Runs-Any integrity_watcher r = inr (inl (refl, r))
  Runs-Any ci_watcher r = inr (inr (inl (refl, r)))
  Runs-Any daily_summary r = inr (inr (inr (inl (refl, r))))

  Any-Runs : (s : Service) → Any s → Runs o s
  Any-Runs s (inl (inl (inl x))) = elim x [ ]
  Any-Runs s (inl (inl (inr (e, r)))) = subst (Runs o) (sym e) r
  Any-Runs s (inl (inr (i, e, r))) = subst (Runs o) (sym e) r
  Any-Runs s (inr (inl (e, r))) = subst (Runs o) (sym e) r
  Any-Runs s (inr (inr (inl (e, r)))) = subst (Runs o) (sym e) r
  Any-Runs s (inr (inr (inr (inl (e, r))))) = subst (Runs o) (sym e) r
  Any-Runs s (inr (inr (inr (inr x)))) = elim x [ ]

  closed-Ended : (d : Done) → After ends Any d → Ended (d then (ok tt, close_queue ∷ []))
  closed-Ended (ok u, xs) (h, c) =
      (λ s r. (Occurs-left _ xs _ (h s (Runs-Any s r)).0, (h s (Runs-Any s r)).1), (xs, refl, c))
  closed-Ended (err e, xs) ((s, j, b), c) = ((s, Any-Runs s j, b), c)

  gathered : After ends IsWorker (ok tt, gather o.num_workers)
  gathered = (
    λ s (i, e, lt).
        subst (λ t. Waited ends t (gather o.num_workers)) (sym e)
          (gather-wait o.num_workers i lt, λ x b. b),
    gather-NeverClosed o.num_workers,
  )

  background : InBackground ends (background_tasks o)
  background = (
    (λ end e b. b, λ end e b. b),
    ((λ end e b. b, λ end e b. b), ((λ end e b. b, λ end e b. b), tt)),
  )

  stop-Ended : Ended (stop ends o)
  unfolding stop
  stop-Ended = closed-Ended _ (
      then-After ends _ (λ s. Listed ends s (background_tasks o)) _
        (wait_each ends (background_tasks o))
        (then-After ends _ IsWorker _ (ok tt, gather o.num_workers)
          (then-After ends (λ s. ⊥) (λ s. (s ≡ api_server) × (o.api_task ≡ true)) (ok tt, tell o) _
            ((λ s x. elim x [ ]), tell-NeverClosed o) (api-After ends o.api_task))
          gathered)
        (wait_each-After ends (background_tasks o) background))

  -- What was done first stays first.
  Begins : List Action → Done → Type 0
  Begins xs d = (rest : List Action) × (d.1 ≡ xs ++ rest)

  then-Begins : (xs : List Action) (d n : Done) → Begins xs d → Begins xs (d then n)
  unfolding Begins
  then-Begins xs (err e, ys) n b = b
  then-Begins xs (ok u, ys) (r, zs) (rest, e) =
      (rest ++ zs, ap (λ us. us ++ zs) e ∙ append_assoc xs rest zs)

  -- The stop first tells everything to end. Where it returns, it has then waited for every task that was
  -- started, and at last closed the queue. It raises just where a task that it waits for ended with an
  -- exception that goes on: then the queue is left open.
  pub stop-lem : Ended (stop ends o) × ((rest : List Action) × ((stop ends o).1 ≡ tell o ++ rest))
  unfolding stop Begins
  stop-lem =
      let api : Done = if o.api_task then wait_api (ends api_server) else (ok tt, []) in
      let until_api : Done = (ok tt, tell o) then api in
      let until_workers : Done = until_api then (ok tt, gather o.num_workers) in
      let until_tasks : Done = until_workers then wait_each ends (background_tasks o) in
      let begun : Begins (tell o) until_api = (api.1, refl) in
      (
        stop-Ended,
        then-Begins (tell o) until_tasks (ok tt, close_queue ∷ [])
            (then-Begins (tell o) until_workers (wait_each ends (background_tasks o))
              (then-Begins (tell o) until_api (ok tt, gather o.num_workers) begun)),
      )
