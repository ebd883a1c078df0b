-- ===== src/Lib.antt =====
-- WiseOrder: a runtime that answers each commit of the watched repositories with a workflow of
-- agents, and hands the outcome to a person for approval.
--
-- The modules and the code:
--   Prelude, Values, Exec   numbers, texts and lists; JSON documents; statements with state and
--                           exceptions, and how they end (Exec.Ends)
--   Redis                   the commands of the Redis server that the runtime sends, as an interface
--                           with laws (Redis.Interface), and a server that obeys them (Redis.Sample)
--   Job, Queue              core/queues/redis_queue.py: Job, RedisQueue, and what becomes of the jobs of
--                           a list over any sequence of operations (Queue.Order)
--   Dedup                   core/queues/dedup.py: the claim on a commit, and runs whose commands reach
--                           Redis in any order (Dedup.Race)
--   Once                    the values that threads make once, under a lock: get_settings of
--                           configs/settings.py, get_vector_store of core/memory/vector.py, get_queue
--                           of core/queues/redis_queue.py
--   Db                      core/memory/models.py: the rows and tables
--   Llm                     agents/engineering/summarizer.py, agents/social/post_generator.py
--   Runtime                 the state (World), what is taken from outside (Env), and session_scope of
--                           core/memory/db.py
--   Steps                   the helpers that workflows/commit_pipeline.py and workflows/demo_forge.py
--                           share: _create_task, _complete_task, _fail_task, _fail_workflow
--   Gateway                 core/approvals/gateway.py: ApprovalGateway
--   Pipeline                workflows/commit_pipeline.py: run_commit_pipeline, with its records
--                           (Pipeline.Records), and what a run leaves of its claim
--                           (Pipeline.Held, Pipeline.Claimed, Pipeline.Failed)
--   Orchestrator            core/orchestrator/main.py: _run_job, _worker, reap_orphan_workflows,
--                           _validate_bind_safety, enqueue_manual, the start, the probe and the stop
--                           (Orchestrator.Stop); the two handlers that it registers
--                           (Orchestrator.Handlers); a commit from its emission to the end of its
--                           workflow (Orchestrator.Answered, Orchestrator.Arrived)
--   Watchers                core/watchers/integrity_watcher.py and ci_watcher.py, with their loops
--                           (Watchers.Polls)
--   Daily                   workflows/daily_summary.py: run_daily_summary, the text of the summary
--                           (Daily.Format) and its scheduler
--   Events                  core/events/watcher.py: the heads of the repositories, the commits emitted,
--                           the start (Events.Start) and the job of a commit (Events.Emitted)
--   Forge                   workflows/demo_forge.py: run_demo_forge_request, with its manifest
--                           (Forge.Artifacts)
--   Settings                configs/settings.py: the list of watched paths; the list of repositories of
--                           core/watchers/ci_watcher.py
--   Logging                 configs/logging.py: the handlers, the filter that adds the ids, and their
--                           binding
--   Schema                  alembic/versions/0001_initial_schema.py: its statements on a schema, with
--                           the columns that an index and a foreign key need
--   Vector                  core/memory/vector.py: the rows of a query
--   Api                     api/server.py: _require_token and the endpoints, with their dicts and pages
--                           (Api.Rows), and what they tell of the runtime (Api.Status)
--   Examples                a sample environment, and the theorems at concrete inputs
--
-- How they interact: a worker takes a job from the queue and calls its handler. The handler of a
-- commit claims the commit in Redis, adds a workflow row, and runs four steps, each of which adds a
-- task row, calls an agent or the approval gateway, and completes the task; a step that raises marks
-- its task and the workflow failed, and raises again. The handler of a demo request runs the targets of
-- a Makefile in the same way, without a guard around the steps. The API reads the tables, enqueues
-- jobs, decides approvals and runs the daily summary.
--
-- State. A statement is a function of the World to a result and a World, so what was written before
-- an exception stays written. `calls` counts the calls of the outside, and whatever is outside
-- (Postgres refusing a transaction, the replies of the LLM provider, the status of a POST, the clock)
-- is a function of that number: each call may be answered differently. One statement runs at a time;
-- other writers between two statements are modelled where the order matters: in Dedup.Race the steps
-- of runs on one commit, in Queue.Order the commands of others on the lists, in Once the threads. An
-- operator's release of a claim is no step of Dedup.Race. In a run of the commit
-- pipeline, Env.lasts gives the seconds that its steps take, and they pass in Redis too; the time
-- between two of its other calls does not. `elapse` lets time pass between two runs, and between two
-- steps of Dedup.Race.
--
-- Fuel. llm_loop has fuel max_retries + 1, one for each attempt, which llm_call-Bounded shows to be
-- enough. The printing of a number n has fuel n + 1, and so has its grouping by thousands.
--
-- Not modelled: the JSON formatter of a log line, the log calls, the settings that are plain
-- values, alembic/env.py, the page of the dashboard, the opening and closing of connections, and
-- the parts that are I/O alone. FastAPI is not modelled but for this: a handler is called where its
-- dependency returned. GROUP BY, the regular expressions and JSON are parameters.
-- Texts are read as Unicode characters; isdigit and int are read on ASCII digits, lower and upper on
-- ASCII letters.
pub mod Prelude
pub mod Values
pub mod Exec
pub mod Redis
pub mod Job
pub mod Queue
pub mod Dedup
pub mod Db
pub mod Once
pub mod Llm
pub mod Runtime
pub mod Steps
pub mod Gateway
pub mod Pipeline
pub mod Orchestrator
pub mod Watchers
pub mod Daily
pub mod Events
pub mod Forge
pub mod Settings
pub mod Logging
pub mod Schema
pub mod Vector
pub mod Api
pub mod Examples
