-- ===== src/Daily/Once.antt =====
-- One summary a day.
use wiseorder.Prelude.{
  ℕ, ◌-◌, ◌<◌, String, ◌≡◌, refl, sym, ap, ◌∙◌, subst, true, Option, none, some, List, [], ◌∷◌,
  arith, if◌then◌else◌, Option-cases, inl, inr, ==_refl,
}
use package.text.Mathlib.TextPositions.{eq_refl}
use wiseorder.Prelude.Text.{str_eq}
use wiseorder.Values.{text, Fields, lookup}
use wiseorder.Exec.{Result, ok, >>=-eq-ok, ok-injective}
use wiseorder.Exec.Ends.{returns, raises, Run, >>=-ok-Run}
use wiseorder.Db.{Memory, ids, has_id, add_row}
use wiseorder.Runtime.{World, Env, tick, session_scope}
use wiseorder.Daily.Format.{format_summary}
use wiseorder.Daily.{
  DailyStats, DailyResult, DailyConfig, already_ran, written, latest_daily, later, has_date,
  today_of, existing_today, gather_stats, summary_row, add_summary, append_summary, write_summary,
  answer, run_daily_summary,
}

-- The row with the highest id is the latest one.
latest_daily-add_row :
    (m : Memory) (ms : List Memory)
    → str_eq m.category "daily_summary" ≡ true
    → ((i : ℕ) → has_id i (ids (λ (x : Memory). x.id) ms) ≡ true → i < m.id)
    → latest_daily (add_row m ms) ≡ some m
unfolding latest_daily
latest_daily-add_row m [] c h = rw c
latest_daily-add_row m (q ∷ ms) c h =
    rw (latest_daily-add_row m ms c (λ i e. h i (ground (arith, e))))
      (kept (h q.id (rw (==_refl q.id) refl)))
  where
    kept :
        q.id < m.id
        → (if str_eq q.category "daily_summary" then later q (some m) else some m) ≡ some m
    kept lt = ground arith

abbrev id_of : DailyResult → ℕ
id_of (already_ran i d) = i
id_of (written i d s stats) = i

abbrev date_in : DailyResult → String
date_in (already_ran i d) = d
date_in (written i d s stats) = d

module _ {R : Type 0} (env : Env R) (config : DailyConfig) where
  -- The memory has gained one row, today's summary.
  record Added (id : ℕ) (date : String) (before after : List Memory) : Type 0 where
    row : Memory
    added : after ≡ add_row row before
    id_is : row.id ≡ id
    daily : str_eq row.category "daily_summary" ≡ true
    dated : has_date date (lookup "date" row.meta) ≡ true
    n : ℕ
    numbered : id ≡ env.postgres.serial n (ids (λ (x : Memory). x.id) before)

  add_summary-ok :
      (date summary : String) (stats : DailyStats) (id : ℕ) (w t : World R)
      → add_summary env config date summary stats w ≡ (ok id, t)
      → Added id date w.db.memory t.db.memory
  unfolding add_summary session_scope lookup
  add_summary-ok date summary stats id w t e = elim (Option-cases (env.postgres.refuses w.calls)) [
    | inr (x, q) ↦ cc (rw (q, add_summary, session_scope) at e)
    | inl q ↦
        let (a, b) = ok-injective (rw (q, add_summary, session_scope) at e) in
        record {
          row =
              summary_row env config w.calls
                (env.postgres.serial w.calls (ids (λ x. x.id) w.db.memory)) date summary stats;
          added = sym (ap (λ (s : World R). s.db.memory) b);
          id_is = a;
          daily = refl;
          dated = eq_refl date;
          n = w.calls;
          numbered = sym a;
        }
  ]

  append_summary-memory :
      (line : Fields) (w : World R) → (append_summary env config line w).1.db.memory ≡ w.db.memory
  unfolding append_summary
  append_summary-memory line w = ground arith

  Added-latest :
      (ascends : (n : ℕ) (used : List ℕ) (i : ℕ)
        → has_id i used ≡ true
        → i < env.postgres.serial n used)
      → (id : ℕ) (date : String) (before after : List Memory) → Added id date before after
      → today_of date (latest_daily after) ≡ some id
  Added-latest ascends id date before after a =
      let above = λ (i : ℕ) (h : has_id i (ids (λ (x : Memory). x.id) before) ≡ true).
        subst (λ k. i < k) (sym (a.id_is ∙ a.numbered))
          (ascends a.n (ids (λ (x : Memory). x.id) before) i h) in
      rw a.added
        (rw (latest_daily-add_row a.row before a.daily above) (rw a.dated (ap some a.id_is)))

  write_summary-Added :
      (now id : ℕ) (date date' summary : String) (stats : DailyStats) (w t : World R)
      → write_summary env config now date w ≡ (ok (written id date' summary stats), t)
      → (before : List Memory) × Added id date before t.db.memory × (date ≡ date')
  unfolding write_summary
  write_summary-Added now id date date' summary stats w t e =
      let (s, t₁, p₁, q₁) = >>=-eq-ok (gather_stats env config (now - 86400) now) _ w e in
      let (k, t₂, p₂, q₂) =
        >>=-eq-ok (add_summary env config date (format_summary config.date_of s now) s) _ t₁ q₁ in
      let (u, t₃, p₃, q₃) = >>=-eq-ok (append_summary env config _) _ t₂ q₂ in
      let (named, ends) = ok-injective q₃ in
      let kept = ap (λ (x : Result (Unit {0}) × World R). x.1.db.memory) p₃ in
      let same : t₂.db.memory ≡ t.db.memory =
        sym (append_summary-memory _ t₂) ∙ kept ∙ ap (λ (x : World R). x.db.memory) ends in
      let made = add_summary-ok date (format_summary config.date_of s now) s k t₁ t₂ p₂ in
      (
        t₁.db.memory,
        subst (λ ms. Added id date t₁.db.memory ms) same
            (subst (λ i. Added i date t₁.db.memory t₂.db.memory) (ap (λ r. id_of r) named) made),
        ap (λ r. date_in r) named,
      )

  run_daily_summary-Added :
      (id : ℕ) (date summary : String) (stats : DailyStats) (w t : World R)
      → run_daily_summary env config w ≡ (ok (written id date summary stats), t)
      → (before : List Memory) × Added id date before t.db.memory
  unfolding run_daily_summary answer
  run_daily_summary-Added id date summary stats w t e =
      let today = config.date_of (env.clock w.calls) in
      let (existing, t₁, p₁, q₁) = >>=-eq-ok (existing_today env config today) _ w e in
      fresh existing t₁ q₁
    where
      fresh :
          (existing : Option ℕ) (t₁ : World R)
          → answer env config (env.clock w.calls) (config.date_of (env.clock w.calls)) existing t₁
            ≡ (ok (written id date summary stats), t)
          → (before : List Memory) × Added id date before t.db.memory
      fresh (some i) t₁ q = let (a, b) = ok-injective q in cc
      fresh none t₁ q =
          let (before, made, same) =
            write_summary-Added (env.clock w.calls) id (config.date_of (env.clock w.calls)) date
              summary stats t₁ t q in
          (before, subst (λ d. Added id d before t.db.memory) same made)

  -- Where the ids of new rows are above those of all earlier ones: after a summary was written, a run on
  -- the same date, over the same memory rows, changes no row, and unless Postgres refuses it answers
  -- with the first summary's id.
  pub run_daily_summary-run_daily_summary :
      (ascends : (n : ℕ) (used : List ℕ) (i : ℕ)
        → has_id i used ≡ true
        → i < env.postgres.serial n used)
      → (id : ℕ) (date summary : String) (stats : DailyStats) (w t w₂ : World R)
      → run_daily_summary env config w ≡ (ok (written id date summary stats), t)
      → w₂.db.memory ≡ t.db.memory
      → config.date_of (env.clock w₂.calls) ≡ date
      → Run
          (λ r s. (r ≡ already_ran id date) × (s.db ≡ w₂.db))
          (λ e s. s.db ≡ w₂.db)
          (run_daily_summary env config)
          w₂
  unfolding run_daily_summary existing_today session_scope answer
  run_daily_summary-run_daily_summary ascends id date summary stats w t w₂ e same today =
      let (before, made) = run_daily_summary-Added id date summary stats w t e in
      let latest : today_of (config.date_of (env.clock w₂.calls)) (latest_daily w₂.db.memory)
          ≡ some id =
        rw (same, today) (Added-latest ascends id date before t.db.memory made) in
      elim (Option-cases (env.postgres.refuses w₂.calls)) [
        | inr (x, q) ↦ rw q (raises refl)
        | inl q ↦
            >>=-ok-Run (existing_today env config (config.date_of (env.clock w₂.calls)))
              (answer env config (env.clock w₂.calls) (config.date_of (env.clock w₂.calls))) w₂
              {a = some id} {t = tick w₂} (rw q (λ i. (ok (latest i), tick w₂)))
              (returns (ap (already_ran id) today, refl))
      ]
