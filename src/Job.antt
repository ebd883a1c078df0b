-- ===== src/Job.antt =====
-- core/queues/redis_queue.py, the dataclass Job and its JSON form. `json` is a parameter: what is
-- relied on is that it reads back what it wrote. `from_dict` is `cls(**d)`: a key that is no field
-- and a field with no default that is missing raise TypeError. The model also refuses a value of
-- another type than the field's annotation, which Python would store.
pub mod RoundTrip
use wiseorder.Prelude.{
  ℕ, String, ◌≡◌, Bool, true, false, ◌&&◌, ◌||◌, Option, none, some, List, [], ◌∷◌, any,
  if◌then◌else◌,
}
use wiseorder.Prelude.Text.{str_eq}
use wiseorder.Values.{
  Value, null, flag, num, text, arr, obj, Items, nil, item, Fields, end, field, lookup, texts,
  opt_num, opt_text,
}
use wiseorder.Exec.{Result, ok, err, Exn, raised, type_error}

pub record Job : Type 0 where
  pub id : String
  pub type : String
  pub payload : Fields
  pub created_at : String
  pub attempt : ℕ
  pub workflow_id : Option ℕ
  pub parent_job_id : Option String
  pub notes : List String

-- Job.new: the id (a fresh uuid4) and the time are given by the caller.
unfoldable pub new : String → String → String → Fields → Option ℕ → Option String → Job
new uuid now type payload workflow_id parent_job_id = record {
  id = uuid;
  type = type;
  payload = payload;
  created_at = now;
  attempt = 0;
  workflow_id = workflow_id;
  parent_job_id = parent_job_id;
  notes = [];
}

-- asdict(job)
unfoldable pub as_dict : Job → Fields
as_dict j = field "id" (text j.id) (
    field "type" (text j.type) (
      field "payload" (obj j.payload) (
        field "created_at" (text j.created_at) (
          field "attempt" (num j.attempt) (
            field "workflow_id" (opt_num j.workflow_id) (
              field "parent_job_id" (opt_text j.parent_job_id)
                (field "notes" (arr (texts j.notes)) end)))))))

infixl 5 ◌>>=◌ ◌>>◌
abbrev ◌>>=◌ : {A B : Type 0} → Result A → (A → Result B) → Result B
ok a >>= f = f a
err e >>= f = err e

abbrev ◌>>◌ : {B : Type 0} → Result (Unit {0}) → Result B → Result B
m >> k = m >>= λ _. k

bad : {A : Type 0} → Result A
bad = err (raised type_error "Job.__init__() got bad arguments")

abbrev field_names : List String
field_names =
    "id" ∷ "type" ∷ "payload" ∷ "created_at" ∷ "attempt" ∷ "workflow_id" ∷ "parent_job_id" ∷ "notes"
    ∷ []

known_keys : Fields → Bool
known_keys end = true
known_keys (field k v fs) = any (str_eq k) field_names && known_keys fs

as_text : Option Value → Result String
as_text (some (text s)) = ok s
as_text _ = bad

as_obj : Option Value → Result Fields
as_obj (some (obj fs)) = ok fs
as_obj _ = bad

-- attempt: int = 0
as_num : Option Value → Result ℕ
as_num none = ok 0
as_num (some (num n)) = ok n
as_num (some _) = bad

-- workflow_id: int | None = None
as_opt_num : Option Value → Result (Option ℕ)
as_opt_num none = ok none
as_opt_num (some null) = ok none
as_opt_num (some (num n)) = ok (some n)
as_opt_num (some _) = bad

-- parent_job_id: str | None = None
as_opt_text : Option Value → Result (Option String)
as_opt_text none = ok none
as_opt_text (some null) = ok none
as_opt_text (some (text s)) = ok (some s)
as_opt_text (some _) = bad

texts_of : Items → Result (List String)
texts_of nil = ok []
texts_of (item (text s) rest) = do ss ← texts_of rest; ok (s ∷ ss)
texts_of (item _ rest) = bad

-- notes: list[str] = []
as_texts : Option Value → Result (List String)
as_texts none = ok []
as_texts (some (arr xs)) = texts_of xs
as_texts (some _) = bad

-- cls(**d)
unfoldable pub from_dict : Fields → Result Job
unfolding known_keys as_text as_obj as_num as_opt_num as_opt_text as_texts texts_of lookup bad
from_dict d = do
  if known_keys d then ok tt else bad
  id ← as_text (lookup "id" d)
  type ← as_text (lookup "type" d)
  payload ← as_obj (lookup "payload" d)
  created_at ← as_text (lookup "created_at" d)
  attempt ← as_num (lookup "attempt" d)
  workflow_id ← as_opt_num (lookup "workflow_id" d)
  parent_job_id ← as_opt_text (lookup "parent_job_id" d)
  notes ← as_texts (lookup "notes" d)
  ok (record {
    id = id;
    type = type;
    payload = payload;
    created_at = created_at;
    attempt = attempt;
    workflow_id = workflow_id;
    parent_job_id = parent_job_id;
    notes = notes;
  })

-- json.dumps and json.loads of a dict.
pub record Json : Type 0 where
  pub dumps : Fields → String
  pub loads : String → Result Fields
  pub loads-dumps : (d : Fields) → loads (dumps d) ≡ ok d

module _ (json : Json) where
  unfoldable pub to_json : Job → String
  unfolding as_dict
  to_json j = json.dumps (as_dict j)

  unfoldable pub from_json : String → Result Job
  unfolding from_dict
  from_json blob = json.loads blob >>= from_dict
