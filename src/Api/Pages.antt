-- ===== src/Api/Pages.antt =====
-- What the endpoints that list rows answer with.
use wiseorder.Prelude.{
  ◌↔◌, none, some, Bool-cases, eq_iff, ℕ, ◌≤◌, ◌≡◌, refl, Bool, true, false, String, Option, List,
  map, ◌⊎◌, inl, inr, arith, length, length-take, keep, Option-cases,
}
use mathlib.Core.List.{Memᴰ}
use wiseorder.Prelude.Sorting.{
  sort_by, sort_by-Mem, sort_by-Ordered, Ordered, IsOrder, take-Mem, take-Ordered, take-full,
  keep-Mem,
}
use wiseorder.Values.{Fields}
use wiseorder.Exec.{Exn}
use wiseorder.Exec.Ends.{returns, raises, Run}
use wiseorder.Prelude.Text.{is_empty}
use wiseorder.Db.{Db, Status, Task, Workflow, Memory, Approval}
use wiseorder.Runtime.{World, Env, session_scope}
use wiseorder.Api.{ApiConfig, listing, list_tasks, list_workflows, list_approvals, memory_recent}
use wiseorder.Api.Rows.{
  status_text, newer, page, with_status, undecided, all_rows, task_dict, wf_dict, approval_dict,
  memory_dict,
}

-- No status is asked for, or an empty one, or the row has it.
pub HasStatus : Option String → Status → Type 0
HasStatus none st = Unit {0}
HasStatus (some s) st = (is_empty s ≡ true) ⊎ (status_text st ≡ s)

with_status-HasStatus :
    (o : Option String) (st : Status) → (with_status o st ≡ true) ↔ HasStatus o st
unfolding HasStatus
with_status-HasStatus none st = ((λ h. tt), λ h. refl)
with_status-HasStatus (some s) st = elim (Bool-cases (is_empty s)) [
  | inl p ↦ rw (with_status, p) ((λ h. inl refl), λ h. refl)
  | inr p ↦
      rw (with_status, p)
        (
          (λ h. inr ((eq_iff (status_text st) s).0 h)),
          λ h. elim h [ inl q ↦ cc | inr e ↦ (eq_iff (status_text st) s).1 e ],
        )
]

-- All approvals are asked for, or this one has no decision.
pub Undecided : Bool → Approval → Type 0
Undecided false a = Unit {0}
Undecided true a = a.decision ≡ none

undecided-Undecided : (b : Bool) (a : Approval) → (undecided b a ≡ true) ↔ Undecided b a
unfolding Undecided
undecided-Undecided false a = ((λ h. tt), λ h. refl)
undecided-Undecided true a = elim (Option-cases a.decision) [
  | inl p ↦ rw (undecided, p) ((λ h. refl), λ h. refl)
  | inr (d, p) ↦ rw (undecided, p) ((λ h. cc), λ h. cc)
]

module _ {A : Type 0} (id_of : A → ℕ) where
  newer-IsOrder : IsOrder (newer id_of)
  newer-IsOrder = record { asymmetric = λ x y h. ground arith; steps = λ x y z h k. ground arith }

  -- A page of the rows with P: the newest of them first, n at most, and none is left out but for
  -- a full page of rows that are no older.
  pub record Page (P : A → Type 0) (n : ℕ) (rows listed : List A) : Type 0 where
    pub newest_first : Ordered (newer id_of) listed
    pub short : length listed ≤ n
    pub sound : (r : A) → Memᴰ r listed → Memᴰ r rows × P r
    pub left_out :
        (r : A)
        → Memᴰ r rows
        → P r
        → Memᴰ r listed ⊎ ((length listed ≡ n) × ((q : A) → Memᴰ q listed → id_of r ≤ id_of q))

  page-Page :
      (p : A → Bool) (P : A → Type 0)
      → ((r : A) → (p r ≡ true) ↔ P r)
      → (n : ℕ) (rows : List A) → Page P n rows (page id_of p n rows)
  unfolding page
  page-Page p P iff n rows =
      let kept = keep p rows in
      let sorted = sort_by-Ordered (newer id_of) newer-IsOrder kept in
      record {
        newest_first = take-Ordered (newer id_of) n (sort_by (newer id_of) kept) sorted;
        short = omega (arith, length-take n (sort_by (newer id_of) kept));
        sound = λ r m.
            let (k, h) = (keep-Mem p r rows).0 (
              (sort_by-Mem (newer id_of) r kept).0 (take-Mem n r (sort_by (newer id_of) kept) m)) in
            (k, (iff r).0 h);
        left_out = λ r m h.
            elim (take-full (newer id_of) n r (sort_by (newer id_of) kept) sorted
              ((sort_by-Mem (newer id_of) r kept).1 ((keep-Mem p r rows).1 (m, (iff r).1 h)))) [
                | inl k ↦ inl k
                | inr (len, after) ↦ inr (len, λ q k. no_newer r q (after q k))
              ];
      }
    where
      no_newer : (r q : A) → newer id_of r q ≡ false → id_of r ≤ id_of q
      no_newer r q h = ground arith

module _ {R : Type 0} (env : Env R) (config : ApiConfig) (w : World R) where
  -- A request that lists the rows of a table answers with the dicts of a page; it changes no row,
  -- also where the session fails.
  pub record Listed {A : Type 0} (rows_of : Db → List A) (id_of : A → ℕ) (P : A → Type 0) (n : ℕ)
      (dict_of : A → Fields) (dicts : List Fields) (t : World R) : Type 0 where
    pub rows : List A
    pub answer : dicts ≡ map dict_of rows
    pub is_page : Page id_of P n (rows_of w.db) rows
    pub db : t.db ≡ w.db

  abbrev Unchanged : Exn → World R → Type 0
  Unchanged e t = t.db ≡ w.db

  listing-Listed :
      {A : Type 0} (rows_of : Db → List A) (id_of : A → ℕ) (p : A → Bool) (P : A → Type 0) (n : ℕ)
      (dict_of : A → Fields)
      → ((r : A) → (p r ≡ true) ↔ P r)
      → Run
          (Listed rows_of id_of P n dict_of)
          Unchanged
          (listing env config rows_of id_of p n dict_of)
          w
  unfolding session_scope
  listing-Listed rows_of id_of p P n dict_of iff =
      elim (Option-cases (env.postgres.refuses w.calls)) [
        | inr (e, q) ↦ rw q (raises refl)
        | inl q ↦ rw q (
            returns (record {
              rows = page id_of p n (rows_of w.db);
              answer = refl;
              is_page = page-Page id_of p P iff n (rows_of w.db);
              db = refl;
            }))
      ]

  -- Each of the four lists is a page: of the tasks and of the workflows whose status is the text that was
  -- asked for, or of all where none or an empty one was; of the approvals that have no decision where
  -- the pending ones were asked for, or of all; and of all the memory. Newest first, at most `limit`, nothing else and nothing newer left out.
  -- No row changes.
  pub lists-Listed :
      (status : Option String) (pending : Bool) (limit : ℕ)
      → Run
          (Listed
            (λ db. db.tasks)
            (λ (t : Task). t.id)
            (λ t. HasStatus status t.status)
            limit
            (task_dict env))
          Unchanged
          (list_tasks env config status limit)
          w
        × Run
            (Listed
              (λ db. db.workflows)
              (λ (x : Workflow). x.id)
              (λ x. HasStatus status x.status)
              limit
              (wf_dict env))
            Unchanged
            (list_workflows env config limit status)
            w
        × Run
            (Listed
              (λ db. db.approvals)
              (λ (a : Approval). a.id)
              (Undecided pending)
              limit
              (approval_dict env))
            Unchanged
            (list_approvals env config pending limit)
            w
        × Run
            (Listed
              (λ db. db.memory)
              (λ (m : Memory). m.id)
              (λ m. Unit {0})
              limit
              (memory_dict env))
            Unchanged
            (memory_recent env config limit)
            w
  unfolding list_tasks list_workflows list_approvals memory_recent
  lists-Listed status pending limit = (
    listing-Listed (λ db. db.tasks) (λ t. t.id) (λ t. with_status status t.status)
        (λ t. HasStatus status t.status) limit (task_dict env)
        (λ t. with_status-HasStatus status t.status),
    listing-Listed (λ db. db.workflows) (λ x. x.id) (λ x. with_status status x.status)
        (λ x. HasStatus status x.status) limit (wf_dict env)
        (λ x. with_status-HasStatus status x.status),
    listing-Listed (λ db. db.approvals) (λ a. a.id) (undecided pending) (Undecided pending) limit
        (approval_dict env) (undecided-Undecided pending),
    listing-Listed (λ db. db.memory) (λ m. m.id) all_rows (λ m. Unit {0}) limit (memory_dict env)
        (λ m. ((λ h. tt), λ h. refl)),
  )
