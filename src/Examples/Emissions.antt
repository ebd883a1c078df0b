-- ===== src/Examples/Emissions.antt =====
-- Commits that are emitted: one that git prints as text, and one with an author in another encoding.
use wiseorder.Prelude.{◌≡◌, refl, some, []}
use wiseorder.Exec.{err, raised, value_error}
use wiseorder.Redis.Sample.{sample_redis}
use wiseorder.Queue.Lists.{Queues, Holds}
use wiseorder.Events.{
  Emission, GitOutput, prints, not_text, emit_commit, read_commit, notice, takes,
}
use wiseorder.Events.Emitted.{Emitted, emit_commit-Emitted}
use wiseorder.Examples.Sample.{sample_env, start}

abbrev pub emission : Emission
emission = record { prev_sha = some "c0"; new_sha = "c1" }

abbrev pub readable : GitOutput
readable = record { author = prints "Ann\n"; subject = prints " Add\n"; diff = some "+x" }

abbrev latin : GitOutput
latin = record readable { author = not_text (raised value_error "invalid start byte") }

abbrev pub no_jobs : Queues
no_jobs = record { high_jobs = []; normal_jobs = []; failed_jobs = [] }

pub no_jobs-Holds : Holds sample_redis sample_env.json start.redis no_jobs
unfolding sample_redis
no_jobs-Holds = record { at_high = refl; at_normal = refl; at_failed = refl }

emit_commit-Emitted_example :
    Emitted sample_env "u" "t" "r" emission readable start no_jobs (read_commit "r" "c1" readable)
emit_commit-Emitted_example =
    emit_commit-Emitted sample_env "u" "t" "r" emission readable start no_jobs no_jobs-Holds

unread :
    emit_commit sample_env "u" "t" "r" emission latin start
    ≡ (err (raised value_error "invalid start byte"), start)
unfolding emit_commit read_commit
unread = refl

-- The handler has kept the head of that commit, so it emits it at no later event.
not_again :
    notice (record { repo_path = "r"; last_sha = some "c1" }) (some "c1") takes
    ≡ (record { repo_path = "r"; last_sha = some "c1" }, [])
unfolding notice
not_again = refl
