-- ===== src/Api/Status.antt =====
-- api/server.py: the requests that tell of the watchers, the summary, the memory, the logs, the queues
-- and the health of the services.
use wiseorder.Prelude.{
  ℕ, String, true, false, ◌&&◌, Option, none, some, List, map, last_n, if◌then◌else◌,
}
use wiseorder.Values.{
  Value, nil, Fields, field, end, null, flag, text, num, arr, obj, texts, opt_text, lookup,
}
use wiseorder.Exec.{ok, err, Exec, pure, ◌>>=◌, try_except}
use wiseorder.Job.{Job}
use wiseorder.Queue
use wiseorder.Db.{Memory}
use wiseorder.Runtime.{World, Env, tick, on_redis, session_scope, db_ping}
use wiseorder.Daily.{latest_daily}
use wiseorder.Watchers.Integrity.{IntegrityWatcher}
use wiseorder.Watchers.Ci.{CiCheck}
use wiseorder.Vector.{Hit, query}
use wiseorder.Api.{ApiConfig}
use wiseorder.Api.Rows.{
  recent_lines, line_dict, counts_dict, status_text, objects, check_dict, per_repo,
}

module _ {R : Type 0} (env : Env R) (config : ApiConfig) where
  -- What /watchers tells of a watcher that the orchestrator has made.
  unfoldable pub integrity_status : Option (IntegrityWatcher × Value) → Fields
  integrity_status none = field "status" (text "not_running") (field "history" (arr nil) end)
  integrity_status (some (iw, interval_seconds)) = field "status" (text "running") (
      field "chain_dir" (text iw.chain_dir) (
        field "interval_seconds" interval_seconds (
          field "last_known_head" (opt_text iw.last_head)
            (field "history" (arr (objects (map check_dict (last_n 20 iw.history)))) end))))

  unfoldable pub ci_status : Option (List String × Value × List (String × List CiCheck)) → Fields
  ci_status none = field "status" (text "not_running") (field "history" (obj end) end)
  ci_status (some (repos, interval_seconds, history)) = field "status" (text "running") (
      field "repos" (arr (texts repos))
        (field "interval_seconds" interval_seconds (field "history" (obj (per_repo history)) end)))

  unfoldable pub watchers_status :
      Option (IntegrityWatcher × Value)
      → Option (List String × Value × List (String × List CiCheck))
      → Exec (World R) Fields
  unfolding integrity_status ci_status
  watchers_status iw ci = pure (
      field "integrity_watcher" (obj (integrity_status iw))
        (field "ci_watcher" (obj (ci_status ci)) end))

  -- `row.meta.get(k) if row.meta else None`
  abbrev meta_value : String → Fields → Value
  meta_value k meta = elim (lookup k meta) [ none ↦ null | some v ↦ v ]

  unfoldable pub summary_answer : Option Memory → Fields
  unfolding lookup
  summary_answer none = field "available" (flag false) (field "reason" (text "no_summary_yet") end)
  summary_answer (some row) = field "available" (flag true) (
      field "id" (num row.id) (
        field "date" (meta_value "date" row.meta) (
          field "summary" (text row.content) (
            field "stats" (meta_value "stats" row.meta)
              (field "created_at" (text (env.iso row.created_at)) end)))))

  unfoldable pub latest_daily_summary : Exec (World R) Fields
  unfolding session_scope summary_answer
  latest_daily_summary = session_scope env λ n db. pure (summary_answer (latest_daily db.memory)) db

  unfoldable pub memory_search : String → ℕ → Exec (World R) (List Hit)
  memory_search q n w = elim (config.vector_query w.calls q n) [
    | err e ↦ (err e, tick w)
    | ok res ↦ (ok (query res), tick w)
  ]

  unfoldable pub logs_recent : ℕ → Exec (World R) (List Fields)
  unfolding session_scope
  logs_recent limit =
      session_scope env λ n db. pure (map line_dict (recent_lines limit db.workflows)) db

  abbrev failed_dict : Job → Fields
  failed_dict j = field "id" (text j.id) (
      field "type" (text j.type) (
        field "attempt" (num j.attempt) (
          field "created_at" (text j.created_at)
            (field "notes" (arr (texts j.notes)) (field "payload" (obj j.payload) end)))))

  unfoldable pub queues_failed : ℕ → Exec (World R) (List Fields)
  queues_failed limit = do
    jobs ← on_redis (Queue.peek_failed env.redis env.json limit)
    pure (map failed_dict jobs)

  abbrev depths_dict : ℕ × ℕ × ℕ → Fields
  depths_dict (h, n, f) = field "high" (num h) (field "normal" (num n) (field "failed" (num f) end))

  -- _safe_vector_count()
  unfoldable pub safe_vector_count : Exec (World R) ℕ
  safe_vector_count = try_except (λ w. (config.vector_count w.calls, tick w)) (λ e. pure 0)

  unfoldable pub stats : Exec (World R) Fields
  unfolding session_scope safe_vector_count status_text
  stats = do
    db ← session_scope env (λ n db. pure db db)
    depths ← on_redis (Queue.all_depths env.redis env.json)
    vectors ← safe_vector_count
    pure (
        field "tasks"
          (obj (counts_dict (config.group_counts (map (λ t. status_text t.status) db.tasks))))
          (field "workflows"
            (obj (counts_dict (config.group_counts (map (λ w. status_text w.status) db.workflows))))
            (field "queues" (obj (depths_dict depths)) (field "vector_count" (num vectors) end))))

  unfoldable pub health : Exec (World R) Fields
  health = do
    redis_ok ← on_redis (Queue.ping env.redis env.json)
    depths ← on_redis (Queue.all_depths env.redis env.json)
    pure (field "redis" (flag redis_ok) (field "queue_depths" (obj (depths_dict depths)) end))

  -- The answer with its status code.
  unfoldable pub ready : Exec (World R) (ℕ × Fields)
  unfolding db_ping
  ready = do
    db_ok ← db_ping config.connect_fails
    redis_ok ← on_redis (Queue.ping env.redis env.json)
    let body = field "database" (flag db_ok) (field "redis" (flag redis_ok) end)
    pure (if db_ok && redis_ok then 200 else 503, body)
