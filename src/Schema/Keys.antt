-- ===== src/Schema/Keys.antt =====
-- The columns that the statements of the migration rely on.
use wiseorder.Prelude.{
  String, Bool, true, false, not, Bool-cases, both_true, if◌then◌else◌, ◌&&◌, ◌≡◌, refl, sym, List,
  [], ◌∷◌, ◌++◌, any, inl, inr, subst, eq_iff,
}
use mathlib.Core.List.{Memᴰ}
use mathlib.Core.List.Memᴰ.{head, tail, cases_cons, not-nil, append_cases}
use wiseorder.Prelude.Text.{str_eq}
use wiseorder.Schema.{
  Column, Table, Statement, create_table, create_index, drop_table, Schema, ColumnKey, has_column,
  has_referents,
}
use wiseorder.Schema.Grows.{Grows, Covers, creates}

-- These columns are there.
abbrev pub Known : List ColumnKey → Schema → Type 0
Known keys s = (k : ColumnKey) → Memᴰ k keys → has_column s k ≡ true

pub Known-Grows :
    (keys : List ColumnKey) (s s' : Schema) → Grows s s' → Known keys s → Known keys s'
Known-Grows keys s s' g k n m = g.columns n (k n m)

abbrev pub keys_of : String → List Column → List ColumnKey
keys_of n [] = []
keys_of n (c ∷ cs) = (n, c.unique, c.name) ∷ keys_of n cs

pub keys_of-Mem :
    (n : String) (cs : List Column) (k : ColumnKey)
    → Memᴰ k (keys_of n cs)
    → (c : Column) × Memᴰ c cs × (k ≡ (n, c.unique, c.name))
keys_of-Mem n [] k m = elim (not-nil m) [ ]
keys_of-Mem n (c ∷ cs) k m = elim (cases_cons m) [
  | inl e ↦ (c, head refl, e)
  | inr t ↦ let (d, q, e) = keys_of-Mem n cs k t in (d, tail q, e)
]

abbrev pub same_key : ColumnKey → ColumnKey → Bool
same_key (t, u, c) (t', u', c') = str_eq t t' && str_eq c c' && (if u then u' else not u')

pub same_key-eq : (m k : ColumnKey) → same_key m k ≡ true → m ≡ k
same_key-eq (t, u, c) (t', u', c') h =
    let (names, flags) = both_true (str_eq t t' && str_eq c c') (if u then u' else not u') h in
    let (p, q) = both_true (str_eq t t') (str_eq c c') names in
    λ i. ((eq_iff t t').0 p i, flags-eq u u' flags i, (eq_iff c c').0 q i)
  where
    flags-eq : (u u' : Bool) → (if u then u' else not u') ≡ true → u ≡ u'
    flags-eq true true e = refl
    flags-eq true false e = cc
    flags-eq false true e = cc
    flags-eq false false e = refl

abbrev pub knows : List ColumnKey → ColumnKey → Bool
knows keys k = any (λ m. same_key m k) keys

pub Known-knows :
    (keys : List ColumnKey) (s : Schema) (k : ColumnKey)
    → Known keys s
    → knows keys k ≡ true
    → has_column s k ≡ true
Known-knows [] s k known h = cc
Known-knows (m ∷ keys) s k known h = elim (Bool-cases (same_key m k)) [
  | inl p ↦ known k (head (sym (same_key-eq m k p)))
  | inr p ↦ Known-knows keys s k (λ j t. known j (tail t)) (rw p at h)
]

abbrev pub knows_all : List ColumnKey → List (String × String) → Bool
knows_all keys [] = true
knows_all keys ((t, c) ∷ rest) = knows keys (t, true, c) && knows_all keys rest

pub Known-knows_all :
    (keys : List ColumnKey) (s : Schema)
    → Known keys s
    → (rs : List (String × String)) → knows_all keys rs ≡ true
    → has_referents s rs ≡ true
Known-knows_all keys s known [] h = refl
Known-knows_all keys s known ((t, c) ∷ rs) h =
    let (p, q) = both_true (knows keys (t, true, c)) (knows_all keys rs) h in
    rw (Known-knows keys s (t, true, c) known p) (Known-knows_all keys s known rs q)

pub Known-add :
    (t : Table) (keys : List ColumnKey) (s : Schema)
    → Covers s t
    → Known keys s
    → Known (keys_of t.name t.columns ++ keys) s
Known-add t keys s covers known k m = elim (append_cases (keys_of t.name t.columns) m) [
  | inl a ↦
      let (c, q, e) = keys_of-Mem t.name t.columns k a in
      subst (λ x. has_column s x ≡ true) (sym e) (covers c q)
  | inr b ↦ known k b
]

-- Every statement creates, names only columns that are known or created before it, and no table is
-- created twice.
abbrev pub well_ordered : List ColumnKey → List Statement → Bool
well_ordered keys [] = true
well_ordered keys (create_table t ∷ sts) =
    (knows_all keys t.references && not (creates t.name sts))
    && well_ordered (keys_of t.name t.columns ++ keys) sts
well_ordered keys (create_index i ∷ sts) =
    knows keys (i.table, false, i.column) && well_ordered keys sts
well_ordered keys (drop_table n ∷ sts) = false
