-- ===== src/Values.antt =====
-- Values of the JSON documents that the runtime stores and sends (`dict[str, Any]`): the payload of
-- a job or task, the result of a task, the outputs of an approval, the metadata of a memory row.
use wiseorder.Prelude.{
  ℕ, String, Bool, true, false, Option, none, some, List, [], ◌∷◌, if◌then◌else◌,
}
use wiseorder.Prelude.Text.{str_eq}

mutual
  pub data Value : Type 0 where
    null : Value
    flag : Bool → Value
    num : ℕ → Value
    text : String → Value
    arr : Items → Value
    obj : Fields → Value

  pub data Items : Type 0 where
    nil : Items
    item : Value → Items → Items

  -- The entries of a dict, in insertion order.
  pub data Fields : Type 0 where
    end : Fields
    field : String → Value → Fields → Fields

-- d.get(k)
unfoldable pub lookup : String → Fields → Option Value
lookup k end = none
lookup k (field j v fs) = if str_eq j k then some v else lookup k fs

-- k in d
abbrev pub has_key : String → Fields → Bool
has_key k fs = elim (lookup k fs) [ none ↦ false | some _ ↦ true ]

abbrev pub texts : List String → Items
texts [] = nil
texts (s ∷ ss) = item (text s) (texts ss)

-- A value that may be None.
abbrev pub opt_text : Option String → Value
opt_text none = null
opt_text (some s) = text s

abbrev pub opt_num : Option ℕ → Value
opt_num none = null
opt_num (some n) = num n
