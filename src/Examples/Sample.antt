-- ===== src/Examples/Sample.antt =====
-- A sample environment, and the state before the first job.
use wiseorder.Prelude.{
  true, ℕ, suc, ◌+◌, ◌≤◌, ◌<◌, if◌then◌else◌, ◌≡◌, refl, false, none, List, [], ◌∷◌, arith, ◌==◌,
}
use wiseorder.Values.{Fields, field, text, end}
use wiseorder.Exec.{ok, raised, api_connection}
use wiseorder.Redis.{View}
use wiseorder.Redis.Sample.{empty_view, sample_redis}
use wiseorder.Dedup.{ClaimConfig}
use wiseorder.Db.{Db, has_id}
use wiseorder.Llm.{LlmConfig, Reply, content, transient}
use wiseorder.Runtime.{World, Env, Postgres, Delivery}
use wiseorder.Examples.Codec.{sample_json}

-- More than every number of the list.
abbrev pub above : List ℕ → ℕ
above [] = 1
above (j ∷ js) = suc (j + above js)

pub has_id-above : (i : ℕ) (js : List ℕ) → above js ≤ i → has_id i js ≡ false
has_id-above i [] h = refl
has_id-above i (j ∷ js) h = ground (arith, has_id-above i js (omega arith))

pub below-above : (js : List ℕ) (i : ℕ) → has_id i js ≡ true → i < above js
below-above [] i h = cc
below-above (j ∷ js) i h = ground (arith, below-above js i)

abbrev pub sample_postgres : Postgres
sample_postgres = record {
  refuses = λ n. none;
  serial = λ n js. above js;
  serial_fresh = λ n js. has_id-above (above js) js (omega arith);
}

abbrev pub sample_claims : ClaimConfig
sample_claims = record { sha256_hex = λ s. s; ttl = 86400 }

-- The first attempt of a call meets a connection error, the second is answered.
abbrev pub sample_replies : ℕ → Reply
sample_replies n = if n == 1 then transient (raised api_connection "reset") else content " fine "

abbrev pub sample_llm : LlmConfig
sample_llm = record {
  acompletion = λ n prompt. sample_replies;
  max_retries = 2;
  engineering_template = "{{subject}}";
  social_template = "{{summary}}";
  fenced = λ s. none;
  braced = λ s. none;
  loads = λ s. none;
  py_str = λ v. "";
}

-- Discord is set and answers 204, Telegram is not set.
abbrev pub sample_delivery : Delivery
sample_delivery = record {
  discord_url = "d";
  telegram_token = "";
  telegram_chat_id = "";
  append_fails = λ n. none;
  post = λ n url body. ok 204;
}

abbrev pub sample_env : Env View
sample_env = record {
  redis = sample_redis;
  json = sample_json;
  claims = sample_claims;
  postgres = sample_postgres;
  llm = sample_llm;
  delivery = sample_delivery;
  clock = λ n. n;
  iso = λ n. "t";
  lasts = λ wf. 20;
  upsert_fails = λ n. none;
}

abbrev pub empty_db : Db
empty_db = record { tasks = []; workflows = []; memory = []; approvals = [] }

abbrev pub start : World View
start = record {
  db = empty_db;
  redis = empty_view;
  calls = 0;
  approvals_log = [];
  summaries_log = [];
  current_workflow_id = none;
  current_job_id = none;
}

abbrev pub sample_payload : Fields
sample_payload =
    field "repo" (text "r") (field "sha" (text "abc") (field "subject" (text "Add") end))
