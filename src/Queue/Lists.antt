-- ===== src/Queue/Lists.antt =====
-- What the queue operations do to the three lists of jobs.
use wiseorder.Prelude.{
  String, ◌≡◌, refl, sym, ap, ◌∙◌, Option, none, some, List, [], ◌∷◌, ◌++◌, map,
}
use wiseorder.Exec.{ok, ok-injective, >>=-eq-ok}
use wiseorder.Redis.{Redis, View, pushed, popped}
use wiseorder.Job.{Job, Json, to_json}
use wiseorder.Job.RoundTrip.{from_json-to_json}
use wiseorder.Queue.{
  QueueName, high, normal, failed, key, keys, mark_failed, enqueue, dequeue, decode, fail,
}

-- The three lists, as jobs: what the queue promises its clients.
pub record Queues : Type 0 where
  pub high_jobs : List Job
  pub normal_jobs : List Job
  pub failed_jobs : List Job

module _ {S : Type 0} (redis : Redis S) (json : Json) where
  -- The server holds just these jobs.
  pub record Holds (s : S) (q : Queues) : Type 0 where
    pub at_high : (redis.view s).lists (key high) ≡ map (to_json json) q.high_jobs
    pub at_normal : (redis.view s).lists (key normal) ≡ map (to_json json) q.normal_jobs
    pub at_failed : (redis.view s).lists (key failed) ≡ map (to_json json) q.failed_jobs

abbrev pub add : QueueName → Job → Queues → Queues
add high j q = record q { high_jobs = q.high_jobs ++ j ∷ [] }
add normal j q = record q { normal_jobs = q.normal_jobs ++ j ∷ [] }
add failed j q = record q { failed_jobs = q.failed_jobs ++ j ∷ [] }

abbrev pub queues : List Job → List Job → List Job → Queues
queues hs ns fs = record { high_jobs = hs; normal_jobs = ns; failed_jobs = fs }

-- The next job for a worker: the oldest high one, else the oldest normal one.
abbrev next_normal : List Job → Queues → Option Job × Queues
next_normal [] q = (none, q)
next_normal (j ∷ js) q = (some j, record q { normal_jobs = js })

abbrev next_high : List Job → Queues → Option Job × Queues
next_high [] q = next_normal q.normal_jobs q
next_high (j ∷ js) q = (some j, record q { high_jobs = js })

abbrev pub next : Queues → Option Job × Queues
next q = next_high q.high_jobs q

module _ {S : Type 0} (redis : Redis S) (json : Json) where
  map-push :
      (f : Job → String) (js : List Job) (j : Job) → map f js ++ f j ∷ [] ≡ map f (js ++ j ∷ [])
  map-push f [] j = refl
  map-push f (i ∷ js) j = ap (λ xs. f i ∷ xs) (map-push f js j)

  pushed-Holds :
      (name : QueueName) (job : Job) (s s' : S) (q : Queues)
      → redis.view s' ≡ pushed (key name) (to_json json job) (redis.view s)
      → Holds redis json s q
      → Holds redis json s' (add name job q)
  unfolding key
  pushed-Holds high job s s' q e h = record {
    at_high = rw e (rw h.at_high (map-push (to_json json) q.high_jobs job));
    at_normal = rw e h.at_normal;
    at_failed = rw e h.at_failed;
  }
  pushed-Holds normal job s s' q e h = record {
    at_high = rw e h.at_high;
    at_normal = rw e (rw h.at_normal (map-push (to_json json) q.normal_jobs job));
    at_failed = rw e h.at_failed;
  }
  pushed-Holds failed job s s' q e h = record {
    at_high = rw e h.at_high;
    at_normal = rw e h.at_normal;
    at_failed = rw e (rw h.at_failed (map-push (to_json json) q.failed_jobs job));
  }

  -- A job that was enqueued is the last of its list, and the other lists are as they were.
  pub enqueue-Holds :
      (name : QueueName) (job : Job) (s s' : S) (q : Queues)
      → enqueue redis json job name s ≡ (ok tt, s')
      → Holds redis json s q
      → Holds redis json s' (add name job q)
  unfolding enqueue
  enqueue-Holds name job s s' q e h = pushed-Holds name job s s' q (redis.rpush_ok _ _ s s' e) h

  -- A failed job is kept at the end of the failed list, marked with its attempt and error.
  pub fail-Holds :
      (now : String) (job : Job) (error : String) (s s' : S) (q : Queues)
      → fail redis json now job error s ≡ (ok tt, s')
      → Holds redis json s q
      → Holds redis json s' (add failed (mark_failed now job error) q)
  unfolding fail
  fail-Holds now job error s s' q e h =
      pushed-Holds failed (mark_failed now job error) s s' q (redis.rpush_ok _ _ s s' e) h

  decode-to_json :
      (k : String) (j : Job) (s : S)
      → decode redis json (some (k, to_json json j)) s ≡ (ok (some j), s)
  unfolding decode
  decode-to_json k j s = rw (from_json-to_json json j)

  decoded :
      (k : String) (j : Job) (s t : S) (r : Option Job) (res : Option (String × String))
      → res ≡ some (k, to_json json j)
      → decode redis json res t ≡ (ok r, s)
      → (some j ≡ r) × (t ≡ s)
  decoded k j s t r res p d =
      ok-injective (sym (decode-to_json k j t) ∙ ap (λ o. decode redis json o t) (sym p) ∙ d)

  decoded_none :
      (s t : S) (r : Option Job) (res : Option (String × String))
      → res ≡ none
      → decode redis json res t ≡ (ok r, s)
      → (none ≡ r) × (t ≡ s)
  unfolding decode
  decoded_none s t r res p d = ok-injective (ap (λ o. decode redis json o t) (sym p) ∙ d)

  -- What BLPOP does to lists that hold jobs.
  popped-next :
      (v : View) (hs ns fs : List Job)
      → v.lists (key high) ≡ map (to_json json) hs
      → v.lists (key normal) ≡ map (to_json json) ns
      → v.lists (key failed) ≡ map (to_json json) fs
      → (s t : S) (r : Option Job) (res : Option (String × String))
      → (res, redis.view t) ≡ popped (keys (high ∷ normal ∷ [])) v
      → decode redis json res t ≡ (ok r, s)
      → (r ≡ (next (queues hs ns fs)).0) × Holds redis json s (next (queues hs ns fs)).1
  unfolding key
  popped-next v (j ∷ hs) ns fs eh en ef s t r res p d =
      let p' = rw eh at p in
      let (er, es) = decoded (key high) j s t r res (ap (λ x. x.0) p') d in
      let ev = ap (λ x. redis.view x) (sym es) ∙ ap (λ x. x.1) p' in
      (sym er, record { at_high = rw ev; at_normal = rw ev en; at_failed = rw ev ef })
  popped-next v [] (j ∷ ns) fs eh en ef s t r res p d =
      let p' = rw (eh, en) at p in
      let (er, es) = decoded (key normal) j s t r res (ap (λ x. x.0) p') d in
      let ev = ap (λ x. redis.view x) (sym es) ∙ ap (λ x. x.1) p' in
      (sym er, record { at_high = rw ev eh; at_normal = rw ev; at_failed = rw ev ef })
  popped-next v [] [] fs eh en ef s t r res p d =
      let p' = rw (eh, en) at p in
      let (er, es) = decoded_none s t r res (ap (λ x. x.0) p') d in
      let ev = ap (λ x. redis.view x) (sym es) ∙ ap (λ x. x.1) p' in
      (sym er, record { at_high = rw ev eh; at_normal = rw ev en; at_failed = rw ev ef })

  -- A dequeue that returns takes the oldest high job, and the oldest normal one only where there is no
  -- high one; the other jobs stay in their order, and the failed ones as they are.
  pub dequeue-Holds :
      (s s' : S) (r : Option Job) (q : Queues)
      → dequeue redis json (high ∷ normal ∷ []) s ≡ (ok r, s')
      → Holds redis json s q
      → (r ≡ (next q).0) × Holds redis json s' (next q).1
  unfolding dequeue
  dequeue-Holds s s' r q e h =
      let (res, t, p, d) =
        >>=-eq-ok (redis.blpop (keys (high ∷ normal ∷ []))) (decode redis json) s e in
      popped-next (redis.view s) q.high_jobs q.normal_jobs q.failed_jobs h.at_high h.at_normal
        h.at_failed s' t r res (redis.blpop_ok _ s t p) d
