-- ===== src/Events/Start.antt =====
-- The start of the watcher: no commit is lost between the making of the handlers and the observer.
use wiseorder.Prelude.{
  ◌⊎◌, refl, ◌∙◌, String, Bool, ◌≡◌, sym, ap, true, false, Option, none, some, List, [], ◌∷◌,
  Bool-cases, inl, inr, eq_iff, subst,
}
use wiseorder.Prelude.Text.{str_eq, is_empty}
use wiseorder.Events.{
  GitHeadHandler, Emission, takes, notice, moved_to, differs, handlers_of, reconcile_after_start,
  start_watching,
}

some-injective : {s t : String} → ◌≡◌ {A = Option String} (some s) (some t) → s ≡ t
some-injective e = cc

differs-false : (sha : String) (last : Option String) → differs sha last ≡ false → last ≡ some sha
differs-false sha none h = cc
differs-false sha (some s) h = elim (Bool-cases (str_eq sha s)) [
  | inl p ↦ ap some (sym ((eq_iff sha s).0 p))
  | inr p ↦ cc (rw (p, differs) at h)
]

-- Nothing is emitted where git gives no head after the start, or the one from before. Else this one
-- commit is, and the head is kept.
pub data Noticed (repo : String) (before after : Option String)
    : GitHeadHandler × List Emission → Type 0 where
  same :
      ((sha : String) → after ≡ some sha → (is_empty sha ≡ true) ⊎ (before ≡ some sha))
      → Noticed repo before after (record { repo_path = repo; last_sha = before }, [])
  emits :
      (sha : String)
      → after ≡ some sha
      → is_empty sha ≡ false
      → ¬ (before ≡ some sha)
      → Noticed repo before after (
        record { repo_path = repo; last_sha = some sha },
        record { prev_sha = before; new_sha = sha } ∷ [],
      )

differs-true : (sha : String) (last : Option String) → differs sha last ≡ true → ¬ (last ≡ some sha)
differs-true sha none h e = cc
differs-true sha (some s) h e = cc (h, (eq_iff sha s).1 (sym (some-injective e)))

-- A head is read while the loop takes every call.
notice-Noticed :
    (repo : String) (before after : Option String)
    → Noticed repo before after
        (notice (record { repo_path = repo; last_sha = before }) after takes)
unfolding notice
notice-Noticed repo before none = same (λ sha e. cc)
notice-Noticed repo before (some sha) = elim (Bool-cases (is_empty sha)) [
  | inl p ↦
      rw (notice, moved_to, p)
        (same λ s e. inl (subst (λ x. is_empty x ≡ true) (some-injective e) p))
  | inr p ↦ elim (Bool-cases (differs sha before)) [
    | inl d ↦ rw (notice, moved_to, p, d) (emits sha refl p (differs-true sha before d))
    | inr d ↦ rw (notice, moved_to, p, d) (same λ s e. inr (differs-false sha before d ∙ e))
  ]
]

-- The results of the start, for each repository that git keeps, in their order.
pub data AllWatched (is_git : String → Bool) (before after : String → Option String)
    : List String → List (GitHeadHandler × List Emission) → Type 0 where
  all_done : AllWatched is_git before after [] []
  passed_over :
      {repo : String} {repos : List String} {outs : List (GitHeadHandler × List Emission)}
      → is_git repo ≡ false
      → AllWatched is_git before after repos outs
      → AllWatched is_git before after (repo ∷ repos) outs
  watched :
      {repo : String} {repos : List String} {out : GitHeadHandler × List Emission}
      {outs : List (GitHeadHandler × List Emission)}
      → is_git repo ≡ true
      → Noticed repo (before repo) (after repo) out
      → AllWatched is_git before after repos outs
      → AllWatched is_git before after (repo ∷ repos) (out ∷ outs)

-- The start gives each path with a `.git` a handler, in their order, and no other path. Where the loop
-- takes every call: where git gives a head after the start that is not empty and not the one from
-- when the handler was made, this one commit is emitted, with the head before it, and the handler
-- keeps it; else nothing is emitted, and the handler keeps the head that it had.
pub start_watching-AllWatched :
    (is_git : String → Bool) (before after : String → Option String) (repos : List String)
    → AllWatched is_git before after repos (start_watching is_git before after (λ r. takes) repos)
unfolding start_watching handlers_of reconcile_after_start
start_watching-AllWatched is_git before after [] = all_done
start_watching-AllWatched is_git before after (repo ∷ repos) = elim (Bool-cases (is_git repo)) [
  | inl p ↦ rw p (
      watched p (notice-Noticed repo (before repo) (after repo))
        (start_watching-AllWatched is_git before after repos))
  | inr p ↦ rw p (passed_over p (start_watching-AllWatched is_git before after repos))
]
