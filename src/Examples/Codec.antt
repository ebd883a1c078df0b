-- ===== src/Examples/Codec.antt =====
-- A concrete pair of `dumps` and `loads`: a document is written as a program for a stack of pieces,
-- one letter for each constructor, and read by running it.
use Prim.Native.Char.{Char, code}
use wiseorder.Prelude.{
  ℕ, zero, suc, String, ◌≡◌, refl, ◌∙◌, Bool, true, false, Option, none, some, List, [], ◌∷◌, ◌==◌,
  if◌then◌else◌,
}
use wiseorder.Values.{Value, null, flag, num, text, arr, obj, Items, nil, item, Fields, end, field}
use wiseorder.Exec.{Result, ok, err, raised, value_error}
use wiseorder.Job.{Json}

data Piece : Type 0 where
  a_value : Value → Piece
  an_items : Items → Piece
  a_fields : Fields → Piece
  a_text : String → Piece
  a_number : ℕ → Piece

-- A program is the letters of a piece before those of the rest.
code_number : ℕ → String → String
code_number zero r = String.◌∷◌ "0" r
code_number (suc n) r = code_number n (String.◌∷◌ "+" r)

code_text : String → String → String
code_text String.[] r = String.◌∷◌ "\"" r
code_text (String.◌∷◌ c s) r = code_text s (String.◌∷◌ ":" (String.◌∷◌ c r))

mutual
  code_value : Value → String → String
  code_value null r = String.◌∷◌ "n" r
  code_value (flag true) r = String.◌∷◌ "t" r
  code_value (flag false) r = String.◌∷◌ "f" r
  code_value (num n) r = code_number n (String.◌∷◌ "#" r)
  code_value (text s) r = code_text s (String.◌∷◌ "$" r)
  code_value (arr vs) r = code_items vs (String.◌∷◌ "]" r)
  code_value (obj fs) r = code_fields fs (String.◌∷◌ "}" r)

  code_items : Items → String → String
  code_items nil r = String.◌∷◌ "[" r
  code_items (item v vs) r = code_items vs (code_value v (String.◌∷◌ "," r))

  code_fields : Fields → String → String
  code_fields end r = String.◌∷◌ "{" r
  code_fields (field k v fs) r = code_fields fs (code_value v (code_text k (String.◌∷◌ ";" r)))

abbrev Stack : Type 0
Stack = List Piece

increment : Stack → Option Stack
increment (a_number n ∷ s) = some (a_number (suc n) ∷ s)
increment _ = none

made_number : Stack → Option Stack
made_number (a_number n ∷ s) = some (a_value (num n) ∷ s)
made_number _ = none

made_text : Stack → Option Stack
made_text (a_text t ∷ s) = some (a_value (text t) ∷ s)
made_text _ = none

made_arr : Stack → Option Stack
made_arr (an_items vs ∷ s) = some (a_value (arr vs) ∷ s)
made_arr _ = none

made_obj : Stack → Option Stack
made_obj (a_fields fs ∷ s) = some (a_value (obj fs) ∷ s)
made_obj _ = none

made_item : Stack → Option Stack
made_item (a_value v ∷ an_items vs ∷ s) = some (an_items (item v vs) ∷ s)
made_item _ = none

made_field : Stack → Option Stack
made_field (a_text k ∷ a_value v ∷ a_fields fs ∷ s) = some (a_fields (field k v fs) ∷ s)
made_field _ = none

extend : Char → Stack → Option Stack
extend c (a_text t ∷ s) = some (a_text (String.◌∷◌ c t) ∷ s)
extend c _ = none

command : Char → Stack → Option Stack
unfolding increment made_number made_text made_arr made_obj made_item made_field
command c s =
    if code c == code "0"
    then some (a_number 0 ∷ s)
    else if code c == code "+"
    then increment s
    else if code c == code "\""
    then some (a_text String.[] ∷ s)
    else if code c == code "n"
    then some (a_value null ∷ s)
    else if code c == code "t"
    then some (a_value (flag true) ∷ s)
    else if code c == code "f"
    then some (a_value (flag false) ∷ s)
    else if code c == code "#"
    then made_number s
    else if code c == code "$"
    then made_text s
    else if code c == code "]"
    then made_arr s
    else if code c == code "}"
    then made_obj s
    else if code c == code "["
    then some (an_items nil ∷ s)
    else if code c == code ","
    then made_item s
    else if code c == code "{"
    then some (a_fields end ∷ s)
    else if code c == code ";"
    then made_field s
    else none

-- `quoted`: the letter before was a colon.
run : Bool → String → Option Stack → Option Stack
run quoted p none = none
run quoted String.[] (some s) = some s
run true (String.◌∷◌ c p) (some s) = run false p (extend c s)
run false (String.◌∷◌ c p) (some s) = elim (code c == code ":") [
  | true ↦ run true p (some s)
  | false ↦ run false p (command c s)
]

run-code_number :
    (n : ℕ) (r : String) (s : Stack)
    → run false (code_number n r) (some s) ≡ run false r (some (a_number n ∷ s))
unfolding run code_number command increment
run-code_number zero r s = refl
run-code_number (suc n) r s = run-code_number n (String.◌∷◌ "+" r) s

run-code_text :
    (t r : String) (s : Stack)
    → run false (code_text t r) (some s) ≡ run false r (some (a_text t ∷ s))
unfolding run code_text command extend
run-code_text String.[] r s = refl
run-code_text (String.◌∷◌ c t) r s = run-code_text t (String.◌∷◌ ":" (String.◌∷◌ c r)) s

mutual
  unfolding run code_value code_items code_fields command made_number made_text made_arr made_obj
      made_item made_field

  run-code_value :
      (v : Value) (r : String) (s : Stack)
      → run false (code_value v r) (some s) ≡ run false r (some (a_value v ∷ s))
  run-code_value null r s = refl
  run-code_value (flag true) r s = refl
  run-code_value (flag false) r s = refl
  run-code_value (num n) r s = run-code_number n (String.◌∷◌ "#" r) s
  run-code_value (text t) r s = run-code_text t (String.◌∷◌ "$" r) s
  run-code_value (arr vs) r s = run-code_items vs (String.◌∷◌ "]" r) s
  run-code_value (obj fs) r s = run-code_fields fs (String.◌∷◌ "}" r) s

  run-code_items :
      (vs : Items) (r : String) (s : Stack)
      → run false (code_items vs r) (some s) ≡ run false r (some (an_items vs ∷ s))
  run-code_items nil r s = refl
  run-code_items (item v vs) r s =
      run-code_items vs (code_value v (String.◌∷◌ "," r)) s
      ∙ run-code_value v (String.◌∷◌ "," r) (an_items vs ∷ s)

  run-code_fields :
      (fs : Fields) (r : String) (s : Stack)
      → run false (code_fields fs r) (some s) ≡ run false r (some (a_fields fs ∷ s))
  run-code_fields end r s = refl
  run-code_fields (field k v fs) r s =
      run-code_fields fs (code_value v (code_text k (String.◌∷◌ ";" r))) s
      ∙ run-code_value v (code_text k (String.◌∷◌ ";" r)) (a_fields fs ∷ s)
      ∙ run-code_text k (String.◌∷◌ ";" r) (a_value v ∷ a_fields fs ∷ s)

read : Option Stack → Result Fields
read (some (a_fields fs ∷ [])) = ok fs
read _ = err (raised value_error "unreadable")

pub sample_json : Json
unfolding run code_fields read
sample_json = record {
  dumps = λ d. code_fields d String.[];
  loads = λ s. read (run false s (some []));
  loads-dumps = λ d. rw (run-code_fields d String.[] []);
}
