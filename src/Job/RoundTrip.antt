-- ===== src/Job/RoundTrip.antt =====
-- A job read back from its JSON form is the job that was written.
use wiseorder.Prelude.{ℕ, String, ◌≡◌, refl, Option, none, some, List, [], ◌∷◌}
use wiseorder.Values.{texts, opt_num, opt_text}
use wiseorder.Exec.{ok}
use wiseorder.Job.{
  Job, Json, as_dict, from_dict, to_json, from_json, texts_of, as_opt_num, as_opt_text,
}

texts_of-texts : (ss : List String) → texts_of (texts ss) ≡ ok ss
unfolding texts_of
texts_of-texts [] = refl
texts_of-texts (s ∷ ss) = rw (texts_of-texts ss)

as_opt_num-opt_num : (o : Option ℕ) → as_opt_num (some (opt_num o)) ≡ ok o
unfolding as_opt_num
as_opt_num-opt_num none = refl
as_opt_num-opt_num (some n) = refl

as_opt_text-opt_text : (o : Option String) → as_opt_text (some (opt_text o)) ≡ ok o
unfolding as_opt_text
as_opt_text-opt_text none = refl
as_opt_text-opt_text (some s) = refl

pub from_dict-as_dict : (j : Job) → from_dict (as_dict j) ≡ ok j
unfolding from_dict as_dict
from_dict-as_dict j =
    rw (as_opt_num-opt_num j.workflow_id)
      (rw (as_opt_text-opt_text j.parent_job_id) (rw (texts_of-texts j.notes)))

-- A job read back from its JSON form is the job, for any reader of JSON that reads back what its
-- writer wrote.
pub from_json-to_json : (json : Json) (j : Job) → from_json json (to_json json j) ≡ ok j
unfolding from_json to_json
from_json-to_json json j = rw (json.loads-dumps) (from_dict-as_dict j)
