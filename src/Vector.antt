-- ===== src/Vector.antt =====
-- core/memory/vector.py: the rows of a query. ChromaDB is a parameter.
use wiseorder.Prelude.{ℕ, zero, suc, Option, none, some, List, [], ◌∷◌, String}
use wiseorder.Values.{Value, Fields, end}

-- What the collection's `query` returns: each entry may be missing, and holds a list for each text.
pub record QueryResult : Type 0 where
  pub ids : Option (List (List String))
  pub documents : Option (List (List String))
  pub metadatas : Option (List (List Fields))
  pub distances : Option (List (List Value))

pub record Hit : Type 0 where
  pub id : Option String
  pub document : String
  pub metadata : Fields
  pub distance : Option Value

-- (res.get(k) or [[]])[0]
abbrev pub first_of : {A : Type 0} → Option (List (List A)) → List A
first_of none = []
first_of (some []) = []
first_of (some (xs ∷ xss)) = xs

-- xs[i] if i < len(xs) else None
unfoldable pub nth : {A : Type 0} → ℕ → List A → Option A
nth i [] = none
nth zero (x ∷ xs) = some x
nth (suc i) (x ∷ xs) = nth i xs

abbrev or_empty : Option Fields → Fields
or_empty none = end
or_empty (some fs) = fs

-- The loop over the documents from the index i.
unfoldable pub hits_from : QueryResult → ℕ → List String → List Hit
unfolding nth
hits_from res i [] = []
hits_from res i (doc ∷ docs) =
    record {
      id = nth i (first_of res.ids);
      document = doc;
      metadata = or_empty (nth i (first_of res.metadatas));
      distance = nth i (first_of res.distances);
    }
    ∷ hits_from res (suc i) docs

unfoldable pub query : QueryResult → List Hit
unfolding hits_from
query res = hits_from res 0 (first_of res.documents)
