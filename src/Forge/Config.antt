-- ===== src/Forge/Config.antt =====
-- What a request takes from outside: the demo-forge directory, its `make`, and texts that Python prints.
use wiseorder.Prelude.{ℕ, zero, suc, String, Bool, true, false, not, Option, none, some, List}
use wiseorder.Prelude.Text.{is_empty}
use wiseorder.Values.{Value, null, flag, num, text, arr, obj, nil, item, end, field, Fields}
use wiseorder.Exec.{Result, Exn}

-- What a subprocess does: it ends, with its return code as it prints, it is cut off by `wait_for`, or
-- it cannot be started.
pub data Process : Type 0 where
  finished : (rc out error : String) → Process
  timed_out : Process
  not_started : Exn → Process

-- The triple that `_run` returns.
pub record CommandResult : Type 0 where
  pub rc : String
  pub out : String
  pub error : String

-- An entry of a directory; `body` is what reading its bytes does.
pub record Entry : Type 0 where
  pub name : String
  pub is_file : Bool
  pub body : Result (List ℕ)

pub record ForgeConfig : Type 0 where
  pub df_dir : String
  pub has_makefile : ℕ → Bool
  pub run : ℕ → List String → Process
  pub is_dir : ℕ → String → Bool
  pub listing : ℕ → String → Result (List Entry)
  -- `none` where the path is no file
  pub read_text : ℕ → String → Option (Result String)
  pub sha256 : List ℕ → String
  -- the SHA-256 of json.dumps(manifest, sort_keys=True)
  pub digest : Fields → String
  -- strftime("%Y-%m-%dT%H:%M:%SZ")
  pub stamp : ℕ → String
  pub repr : String → String
  -- str(v), for a value that is no text
  pub py_str : Value → String

-- bool(payload.get(k, False))
abbrev pub truthy : Option Value → Bool
truthy none = false
truthy (some null) = false
truthy (some (flag b)) = b
truthy (some (num zero)) = false
truthy (some (num (suc n))) = true
truthy (some (text s)) = not (is_empty s)
truthy (some (arr nil)) = false
truthy (some (arr (item v vs))) = true
truthy (some (obj end)) = false
truthy (some (obj (field k v fs))) = true
