-- ===== src/Schema/Grows.antt =====
-- What a statement of the migration leaves of a schema.
use wiseorder.Prelude.{
  String, Bool, true, false, Bool-cases, ◌&&◌, ◌||◌, ◌≡◌, refl, sym, ap, ◌∙◌, List, [], ◌∷◌, ◌++◌,
  any, inl, inr,
}
use mathlib.Core.List.{Memᴰ}
use mathlib.Core.List.Memᴰ.{cases_cons, not-nil}
use package.text.Mathlib.TextPositions.{eq_refl}
use wiseorder.Prelude.Text.{str_eq}
use wiseorder.Schema.{
  Column, Table, Index, Statement, create_table, create_index, drop_table, Schema, ColumnKey,
  is_column, has_table, has_index, has_column, add_table, add_index,
}

-- The later schema has what the earlier one has.
pub record Grows (s s' : Schema) : Type 0 where
  pub tables : (n : String) → has_table s n ≡ true → has_table s' n ≡ true
  pub columns : (k : ColumnKey) → has_column s k ≡ true → has_column s' k ≡ true
  pub indexes : (n : String) → has_index s n ≡ true → has_index s' n ≡ true

pub Grows-refl : (s : Schema) → Grows s s
Grows-refl s = record { tables = λ n h. h; columns = λ k h. h; indexes = λ n h. h }

pub Grows-trans : {s s' s'' : Schema} → Grows s s' → Grows s' s'' → Grows s s''
Grows-trans g h = record {
  tables = λ n p. h.tables n (g.tables n p);
  columns = λ k p. h.columns k (g.columns k p);
  indexes = λ n p. h.indexes n (g.indexes n p);
}

-- The table has all the columns that are declared of it.
abbrev pub Covers : Schema → Table → Type 0
Covers s t = (c : Column) → Memᴰ c t.columns → has_column s (t.name, c.unique, c.name) ≡ true

-- Where a table of this name is there already, it has these columns.
abbrev pub Fits : Schema → Table → Type 0
Fits s t = has_table s t.name ≡ true → Covers s t

-- What a statement creates is there, with its columns.
abbrev pub Present : Statement → Schema → Type 0
Present (create_table t) s = (has_table s t.name ≡ true) × Covers s t
Present (create_index i) s =
    (has_index s i.name ≡ true) × (has_column s (i.table, false, i.column) ≡ true)
Present (drop_table n) s = has_table s n ≡ false

pub any-last :
    {A : Type 0} (p : A → Bool) (xs : List A) (x : A) → p x ≡ true → any p (xs ++ x ∷ []) ≡ true
any-last p [] x h = rw h
any-last p (y ∷ ys) x h = elim (Bool-cases (p y)) [
  | inl q ↦ rw q
  | inr q ↦ rw q (any-last p ys x h)
]

pub any-earlier :
    {A : Type 0} (p : A → Bool) (xs : List A) (x : A)
    → any p xs ≡ true
    → any p (xs ++ x ∷ []) ≡ true
any-earlier p [] x h = cc
any-earlier p (y ∷ ys) x h = elim (Bool-cases (p y)) [
  | inl q ↦ rw q
  | inr q ↦ rw q (any-earlier p ys x (rw q at h))
]

pub any-earlier_only :
    {A : Type 0} (p : A → Bool) (xs : List A) (x : A)
    → p x ≡ false
    → any p (xs ++ x ∷ []) ≡ true
    → any p xs ≡ true
any-earlier_only p [] x h e = cc (rw h at e)
any-earlier_only p (y ∷ ys) x h e = elim (Bool-cases (p y)) [
  | inl q ↦ rw q
  | inr q ↦ rw q (any-earlier_only p ys x h (rw q at e))
]

pub any-Mem :
    {A : Type 0} (p : A → Bool) (x : A) (xs : List A) → Memᴰ x xs → p x ≡ true → any p xs ≡ true
any-Mem p x [] m h = elim (not-nil m) [ ]
any-Mem p x (y ∷ ys) m h = elim (cases_cons m) [
  | inl e ↦ rw (ap p (sym e) ∙ h)
  | inr t ↦ elim (Bool-cases (p y)) [ inl q ↦ rw q | inr q ↦ rw q (any-Mem p x ys t h) ]
]

pub is_column-own : (c : Column) → is_column c.unique c.name c ≡ true
is_column-own c = elim (Bool-cases c.unique) [
  | inl p ↦ rw (eq_refl c.name, p) refl
  | inr p ↦ rw (eq_refl c.name, p) refl
]

pub add_table-Grows : (t : Table) (s : Schema) → Grows s (add_table t s)
add_table-Grows t s = record {
  tables = λ n q. any-earlier (λ (x : Table). str_eq x.name n) s.tables t q;
  columns = λ k q.
      any-earlier (λ (x : Table). str_eq x.name k.0 && any (is_column k.1 k.2) x.columns) s.tables t
        q;
  indexes = λ n q. q;
}

pub add_table-Covers : (t : Table) (s : Schema) → Covers (add_table t s) t
add_table-Covers t s c m =
    any-last (λ (x : Table). str_eq x.name t.name && any (is_column c.unique c.name) x.columns)
      s.tables t
      (rw (eq_refl t.name) (any-Mem (is_column c.unique c.name) c t.columns m (is_column-own c)))

-- Each table that a statement creates fits.
abbrev pub AllFit : List Statement → Schema → Type 0
AllFit [] s = Unit {0}
AllFit (create_table t ∷ sts) s = Fits s t × AllFit sts s
AllFit (create_index i ∷ sts) s = AllFit sts s
AllFit (drop_table n ∷ sts) s = AllFit sts s

-- All that the statements create is there.
abbrev pub AllPresent : List Statement → Schema → Type 0
AllPresent [] s = Unit {0}
AllPresent (st ∷ sts) s = Present st s × AllPresent sts s

-- A statement of the list creates a table of this name.
abbrev pub creates : String → List Statement → Bool
creates n [] = false
creates n (create_table t ∷ sts) = str_eq n t.name || creates n sts
creates n (st ∷ sts) = creates n sts

-- A table of another name that is added changes nothing of what fits.
pub Fits-add_table :
    (t u : Table) (s : Schema) → str_eq u.name t.name ≡ false → Fits s t → Fits (add_table u s) t
Fits-add_table t u s h fits there c m =
    (add_table-Grows u s).columns (t.name, c.unique, c.name)
      (fits (any-earlier_only (λ (x : Table). str_eq x.name t.name) s.tables u h there) c m)

pub AllFit-add_table :
    (u : Table) (s : Schema) (sts : List Statement)
    → creates u.name sts ≡ false
    → AllFit sts s
    → AllFit sts (add_table u s)
AllFit-add_table u s [] h fit = tt
AllFit-add_table u s (create_table t ∷ sts) h fit = elim (Bool-cases (str_eq u.name t.name)) [
  | inl p ↦ cc (rw p at h)
  | inr p ↦ (Fits-add_table t u s p fit.0, AllFit-add_table u s sts (rw p at h) fit.1)
]
AllFit-add_table u s (create_index i ∷ sts) h fit = AllFit-add_table u s sts h fit
AllFit-add_table u s (drop_table n ∷ sts) h fit = AllFit-add_table u s sts h fit

pub AllFit-add_index :
    (i : Index) (s : Schema) (sts : List Statement) → AllFit sts s → AllFit sts (add_index i s)
AllFit-add_index i s [] fit = tt
AllFit-add_index i s (create_table t ∷ sts) fit = (fit.0, AllFit-add_index i s sts fit.1)
AllFit-add_index i s (create_index j ∷ sts) fit = AllFit-add_index i s sts fit
AllFit-add_index i s (drop_table n ∷ sts) fit = AllFit-add_index i s sts fit

pub Covers-Grows : (t : Table) (s s' : Schema) → Grows s s' → Covers s t → Covers s' t
Covers-Grows t s s' g h c m = g.columns (t.name, c.unique, c.name) (h c m)
