-- ===== src/Api/Counts.antt =====
-- The log lines of /logs/recent.
use wiseorder.Prelude.{
  ap, ℕ, ◌-◌, ◌*◌, ◌≤◌, ◌≡◌, refl, inl, inr, List, [], ◌∷◌, map, keep, length, length-append,
  length-take, length-last_n, last_n, arith,
}
use mathlib.Core.List.{Memᴰ}
use mathlib.Core.List.Memᴰ.{head, tail, cases_cons, not-nil, append_cases}
use wiseorder.Prelude.Sorting.{sort_by, length-sort_by, sort_by-Mem, take-Mem, drop-Mem, keep-Mem}
use wiseorder.Db.{Workflow, LogEntry}
use wiseorder.Api.Rows.{log_lines, recent_lines, page, all_rows, newer, later_line}

length-map : {A B : Type 0} (f : A → B) (xs : List A) → length (map f xs) ≡ length xs
length-map f [] = refl
length-map f (x ∷ xs) = omega (arith, length-map f xs)

log_lines-le : (ws : List Workflow) → length (log_lines ws) ≤ 10 * length ws
unfolding log_lines
log_lines-le [] = omega arith
log_lines-le (w ∷ ws) = omega (
  arith,
  length-append (map (λ e. (w.id, e)) (last_n 10 w.logs)) (log_lines ws),
  length-map {B = ℕ × LogEntry} (λ (e : LogEntry). (w.id, e)) (last_n 10 w.logs),
  length-last_n 10 w.logs,
  log_lines-le ws,
)

-- The line is an entry of the log of one of these workflows, with its id.
pub record LineOf (ws : List Workflow) (line : ℕ × LogEntry) : Type 0 where
  pub workflow : Workflow
  pub listed : Memᴰ workflow ws
  pub same_id : line.0 ≡ workflow.id
  pub logged : Memᴰ line.1 workflow.logs

map-pair :
    (i : ℕ) (es : List LogEntry) (line : ℕ × LogEntry)
    → Memᴰ line (map (λ e. (i, e)) es)
    → (line.0 ≡ i) × Memᴰ line.1 es
map-pair i [] line m = absurd (not-nil m)
map-pair i (e ∷ es) line m = elim (cases_cons m) [
  | inl p ↦ (ap (λ (l : ℕ × LogEntry). l.0) p, head (ap (λ (l : ℕ × LogEntry). l.1) p))
  | inr t ↦ (let (q, k) = map-pair i es line t in (q, tail k))
]

log_lines-LineOf :
    (ws : List Workflow) (line : ℕ × LogEntry) → Memᴰ line (log_lines ws) → LineOf ws line
unfolding log_lines
log_lines-LineOf [] line m = absurd (not-nil m)
log_lines-LineOf (w ∷ ws) line m = elim (append_cases (map (λ e. (w.id, e)) (last_n 10 w.logs)) m) [
  | inl k ↦
      let (q, l) = map-pair w.id (last_n 10 w.logs) line k in
      record {
        workflow = w;
        listed = head refl;
        same_id = q;
        logged = drop-Mem (length w.logs - 10) line.1 w.logs l;
      }
  | inr k ↦
      let r = log_lines-LineOf ws line k in
      record {
        workflow = r.workflow;
        listed = tail r.listed;
        same_id = r.same_id;
        logged = r.logged;
      }
]

-- /logs/recent answers with at most `limit` lines, and with 200 at most; each is an entry of the log of a
-- workflow of the table, beside that workflow's id.
pub recent_lines-lem :
    (limit : ℕ) (ws : List Workflow)
    → (length (recent_lines limit ws) ≤ limit)
      × (length (recent_lines limit ws) ≤ 200)
      × ((line : ℕ × LogEntry) → Memᴰ line (recent_lines limit ws) → LineOf ws line)
unfolding recent_lines page
recent_lines-lem limit ws =
    let newest = page (λ w. w.id) all_rows 20 ws in
    let lines = log_lines newest in
    let len = length-take limit (sort_by later_line lines) in
    let whole = length-sort_by later_line lines in
    let cut = length-take 20 (sort_by (newer (λ (w : Workflow). w.id)) (keep all_rows ws)) in
    (
      omega (arith, len),
      omega (arith, len, whole, log_lines-le newest, cut),
      λ line m.
          let r = log_lines-LineOf newest line (
            (sort_by-Mem later_line line lines).0
              (take-Mem limit line (sort_by later_line lines) m)) in
          let kept =
            (sort_by-Mem (newer (λ (w : Workflow). w.id)) r.workflow (keep all_rows ws)).0
              (take-Mem 20 r.workflow _ r.listed) in
          record {
            workflow = r.workflow;
            listed = ((keep-Mem all_rows r.workflow ws).0 kept).0;
            same_id = r.same_id;
            logged = r.logged;
          },
    )
