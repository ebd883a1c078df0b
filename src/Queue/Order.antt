-- ===== src/Queue/Order.antt =====
-- Sequences of operations on the job lists, by any number of clients: what was put in comes out in order.
use mathlib.Core.List.{append_assoc, append-nil}
use wiseorder.Prelude.{String, ◌≡◌, sym, ap, subst, ◌∙◌, Option, some, List, [], ◌∷◌, ◌++◌}
use wiseorder.Exec.{ok}
use wiseorder.Redis.{Redis}
use wiseorder.Job.{Job, Json}
use wiseorder.Queue.{QueueName, high, normal, failed, key, mark_failed, enqueue, dequeue, fail}
use wiseorder.Queue.Lists.{
  Queues, queues, Holds, add, next, enqueue-Holds, fail-Holds, dequeue-Holds,
}

-- An operation that returned.
pub data Event : Type 0 where
  enters : QueueName → Job → Event
  leaves : Option Job → Event
  fails : (now : String) → Job → (error : String) → Event

-- The jobs that these operations add to the end of a list.
abbrev pub entered : QueueName → List Event → List Job
entered name [] = []
entered high (enters high job ∷ es) = job ∷ entered high es
entered high (e ∷ es) = entered high es
entered normal (enters normal job ∷ es) = job ∷ entered normal es
entered normal (e ∷ es) = entered normal es
entered failed (enters failed job ∷ es) = job ∷ entered failed es
entered failed (fails now job error ∷ es) = mark_failed now job error ∷ entered failed es
entered failed (e ∷ es) = entered failed es

-- The jobs that the workers were given, in order.
abbrev pub given : List Event → List Job
given [] = []
given (leaves (some job) ∷ es) = job ∷ given es
given (e ∷ es) = given es

-- A list in which two others are shuffled, each in its order.
pub data Merge : List Job → List Job → List Job → Type 0 where
  nothing : Merge [] [] []
  from_first : {xs ys zs : List Job} (job : Job) → Merge xs ys zs → Merge (job ∷ xs) ys (job ∷ zs)
  from_second : {xs ys zs : List Job} (job : Job) → Merge xs ys zs → Merge xs (job ∷ ys) (job ∷ zs)

module _ {S : Type 0} (redis : Redis S) (json : Json) where
  -- The server is asked for these operations one after the other, and commands that leave the three
  -- lists alone come between them.
  pub data Served : S → List Event → S → Type 0 where
    served : {s : S} → Served s [] s
    enqueued :
        {s s' : S} {es : List Event} (t : S) (name : QueueName) (job : Job)
        → enqueue redis json job name s ≡ (ok tt, t)
        → Served t es s'
        → Served s (enters name job ∷ es) s'
    dequeued :
        {s s' : S} {es : List Event} (t : S) (r : Option Job)
        → dequeue redis json (high ∷ normal ∷ []) s ≡ (ok r, t)
        → Served t es s'
        → Served s (leaves r ∷ es) s'
    dead_lettered :
        {s s' : S} {es : List Event} (t : S) (now : String) (job : Job) (error : String)
        → fail redis json now job error s ≡ (ok tt, t)
        → Served t es s'
        → Served s (fails now job error ∷ es) s'
    elsewhere :
        {s s' : S} {es : List Event} (t : S)
        → ((name : QueueName) → (redis.view t).lists (key name) ≡ (redis.view s).lists (key name))
        → Served t es s'
        → Served s es s'

-- From the lists q, the operations es end with the lists q'.
pub record Accounts (q q' : Queues) (es : List Event) : Type 0 where
  pub high_given : List Job
  pub normal_given : List Job
  pub all_given : Merge high_given normal_given (given es)
  pub of_high : high_given ++ q'.high_jobs ≡ q.high_jobs ++ entered high es
  pub of_normal : normal_given ++ q'.normal_jobs ≡ q.normal_jobs ++ entered normal es
  pub of_failed : q'.failed_jobs ≡ q.failed_jobs ++ entered failed es

nothing_done : (q : Queues) → Accounts q q []
nothing_done q = record {
  high_given = [];
  normal_given = [];
  all_given = nothing;
  of_high = sym (append-nil q.high_jobs);
  of_normal = sym (append-nil q.normal_jobs);
  of_failed = sym (append-nil q.failed_jobs);
}

after_entry :
    (name : QueueName) (job : Job) (q q' : Queues) (es : List Event)
    → Accounts (add name job q) q' es
    → Accounts q q' (enters name job ∷ es)
after_entry high job q q' es a = record {
  high_given = a.high_given;
  normal_given = a.normal_given;
  all_given = a.all_given;
  of_high = a.of_high ∙ append_assoc q.high_jobs (job ∷ []) (entered high es);
  of_normal = a.of_normal;
  of_failed = a.of_failed;
}
after_entry normal job q q' es a = record {
  high_given = a.high_given;
  normal_given = a.normal_given;
  all_given = a.all_given;
  of_high = a.of_high;
  of_normal = a.of_normal ∙ append_assoc q.normal_jobs (job ∷ []) (entered normal es);
  of_failed = a.of_failed;
}
after_entry failed job q q' es a = record {
  high_given = a.high_given;
  normal_given = a.normal_given;
  all_given = a.all_given;
  of_high = a.of_high;
  of_normal = a.of_normal;
  of_failed = a.of_failed ∙ append_assoc q.failed_jobs (job ∷ []) (entered failed es);
}

after_failure :
    (now : String) (job : Job) (error : String) (q q' : Queues) (es : List Event)
    → Accounts (add failed (mark_failed now job error) q) q' es
    → Accounts q q' (fails now job error ∷ es)
after_failure now job error q q' es a = record {
  high_given = a.high_given;
  normal_given = a.normal_given;
  all_given = a.all_given;
  of_high = a.of_high;
  of_normal = a.of_normal;
  of_failed =
      a.of_failed ∙ append_assoc q.failed_jobs (mark_failed now job error ∷ []) (entered failed es);
}

after_next :
    (hs ns fs : List Job) (q' : Queues) (es : List Event)
    → Accounts (next (queues hs ns fs)).1 q' es
    → Accounts (queues hs ns fs) q' (leaves (next (queues hs ns fs)).0 ∷ es)
after_next (j ∷ hs) ns fs q' es a = record {
  high_given = j ∷ a.high_given;
  normal_given = a.normal_given;
  all_given = from_first j a.all_given;
  of_high = ap (λ js. j ∷ js) a.of_high;
  of_normal = a.of_normal;
  of_failed = a.of_failed;
}
after_next [] (j ∷ ns) fs q' es a = record {
  high_given = a.high_given;
  normal_given = j ∷ a.normal_given;
  all_given = from_second j a.all_given;
  of_high = a.of_high;
  of_normal = ap (λ js. j ∷ js) a.of_normal;
  of_failed = a.of_failed;
}
after_next [] [] fs q' es a = record {
  high_given = a.high_given;
  normal_given = a.normal_given;
  all_given = a.all_given;
  of_high = a.of_high;
  of_normal = a.of_normal;
  of_failed = a.of_failed;
}

module _ {S : Type 0} (redis : Redis S) (json : Json) where
  same-Holds :
      (s t : S) (q : Queues)
      → ((name : QueueName) → (redis.view t).lists (key name) ≡ (redis.view s).lists (key name))
      → Holds redis json s q
      → Holds redis json t q
  same-Holds s t q same h = record {
    at_high = same high ∙ h.at_high;
    at_normal = same normal ∙ h.at_normal;
    at_failed = same failed ∙ h.at_failed;
  }

  -- Over any sequence of operations that return, with commands of others in between: the jobs that the
  -- workers were given from a list, and after them those that are in it at the end, are those that were
  -- in it at the start and after them those that were put into it, in this order. So no job is lost,
  -- given twice or overtaken by another of its priority. The failed jobs only grow.
  pub Served-Accounts :
      (s s' : S) (q : Queues) (es : List Event)
      → Served redis json s es s'
      → Holds redis json s q
      → (q' : Queues) × Holds redis json s' q' × Accounts q q' es
  Served-Accounts s s' q [] served h = (q, h, nothing_done q)
  Served-Accounts s s' q (_ ∷ es) (enqueued t name job e rest) h =
      let (q', h', a) =
        Served-Accounts t s' (add name job q) es rest
          (enqueue-Holds redis json name job s t q e h) in
      (q', h', after_entry name job q q' es a)
  Served-Accounts s s' q (_ ∷ es) (dequeued t r e rest) h =
      let (given_next, held) = dequeue-Holds redis json s t r q e h in
      let (q', h', a) = Served-Accounts t s' (next q).1 es rest held in
      (
        q',
        h',
        subst (λ o. Accounts q q' (leaves o ∷ es)) (sym given_next)
            (after_next q.high_jobs q.normal_jobs q.failed_jobs q' es a),
      )
  Served-Accounts s s' q (_ ∷ es) (dead_lettered t now job error e rest) h =
      let (q', h', a) =
        Served-Accounts t s' (add failed (mark_failed now job error) q) es rest
          (fail-Holds redis json now job error s t q e h) in
      (q', h', after_failure now job error q q' es a)
  Served-Accounts s s' q es (elsewhere t same rest) h =
      Served-Accounts t s' q es rest (same-Holds s t q same h)
