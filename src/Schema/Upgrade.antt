-- ===== src/Schema/Upgrade.antt =====
-- The migration runs where the tables that are there already have its columns, and can be run again.
use wiseorder.Prelude.{
  Bool, true, false, not, Bool-cases, both_true, ◌&&◌, ◌≡◌, refl, List, [], ◌∷◌, ◌++◌, inl, inr,
}
use mathlib.Core.List.Memᴰ.{not-nil}
use package.text.Mathlib.TextPositions.{eq_refl}
use wiseorder.Prelude.Text.{str_eq}
use wiseorder.Exec.{ok}
use wiseorder.Schema.{
  Table, Index, Statement, create_table, create_index, drop_table, Schema, ColumnKey, has_table,
  has_index, has_column, has_referents, add_table, add_index, execute, run_all, upgrade,
}
use wiseorder.Schema.Grows.{
  Grows, Grows-refl, Grows-trans, Fits, Present, any-last, any-earlier, add_table-Grows,
  add_table-Covers, AllFit, AllPresent, creates, AllFit-add_table, AllFit-add_index, Covers-Grows,
}
use wiseorder.Schema.Keys.{
  Known, Known-Grows, keys_of, knows, Known-knows, knows_all, Known-knows_all, Known-add,
  well_ordered,
}

-- A statement that has run, and what it has created.
record Created (st : Statement) (s : Schema) (Later : List Statement → Type 0) : Type 0 where
  result : Schema
  ran : execute st s ≡ ok result
  grows : Grows s result
  present : Present st result
  fits : (sts : List Statement) → Later sts → AllFit sts s → AllFit sts result

add_table-Created :
    (t : Table) (s : Schema)
    → Fits s t
    → has_referents s t.references ≡ true
    → Created (create_table t) s (λ sts. creates t.name sts ≡ false)
unfolding execute
add_table-Created t s fits h = elim (Bool-cases (has_table s t.name)) [
  | inl p ↦ record {
    result = s;
    ran = rw p;
    grows = Grows-refl s;
    present = (p, fits p);
    fits = λ sts l f. f;
  }
  | inr p ↦ record {
    result = add_table t s;
    ran = rw (p, h);
    grows = add_table-Grows t s;
    present = (
      any-last (λ (x : Table). str_eq x.name t.name) s.tables t (eq_refl t.name),
      add_table-Covers t s,
    );
    fits = AllFit-add_table t s;
  }
]

add_index-Created :
    (i : Index) (s : Schema)
    → has_column s (i.table, false, i.column) ≡ true
    → Created (create_index i) s (λ sts. Unit {0})
unfolding execute
add_index-Created i s h = elim (Bool-cases (has_index s i.name)) [
  | inl p ↦ record {
    result = s;
    ran = rw (h, p);
    grows = Grows-refl s;
    present = (p, h);
    fits = λ sts l f. f;
  }
  | inr p ↦ record {
    result = add_index i s;
    ran = rw (h, p);
    grows = record {
      tables = λ n q. q;
      columns = λ k q. q;
      indexes = λ n q. any-earlier (λ (x : Index). str_eq x.name n) s.indexes i q;
    };
    present = (any-last (λ (x : Index). str_eq x.name i.name) s.indexes i (eq_refl i.name), h);
    fits = λ sts l f. AllFit-add_index i s sts f;
  }
]

execute-Present : (st : Statement) (s : Schema) → Present st s → execute st s ≡ ok s
unfolding execute
execute-Present (create_table t) s h = rw h.0
execute-Present (create_index i) s h = rw (h.0, h.1)
execute-Present (drop_table n) s h = rw h

run_all-AllPresent : (sts : List Statement) (s : Schema) → AllPresent sts s → run_all sts s ≡ ok s
unfolding run_all
run_all-AllPresent [] s h = refl
run_all-AllPresent (st ∷ sts) s h = rw (execute-Present st s h.0) (run_all-AllPresent sts s h.1)

-- The statements have run, and what has come of them.
record Ran (sts : List Statement) (s : Schema) : Type 0 where
  result : Schema
  ran : run_all sts s ≡ ok result
  grows : Grows s result
  present : AllPresent sts result

run_all-Ran :
    (keys : List ColumnKey) (sts : List Statement) (s : Schema)
    → well_ordered keys sts ≡ true
    → Known keys s
    → AllFit sts s
    → Ran sts s
unfolding run_all
run_all-Ran keys [] s h k fit = record {
  result = s;
  ran = refl;
  grows = Grows-refl s;
  present = tt;
}
run_all-Ran keys (create_table t ∷ sts) s h k fit =
    let (checks, q) =
      both_true (knows_all keys t.references && not (creates t.name sts))
        (well_ordered (keys_of t.name t.columns ++ keys) sts) h in
    let (p, once) = both_true (knows_all keys t.references) (not (creates t.name sts)) checks in
    let c = add_table-Created t s fit.0 (Known-knows_all keys s k t.references p) in
    let rest =
      run_all-Ran (keys_of t.name t.columns ++ keys) sts c.result q
        (Known-add t keys c.result c.present.1 (Known-Grows keys s c.result c.grows k))
        (c.fits sts (not-true once) fit.1) in
    record {
      result = rest.result;
      ran = rw c.ran rest.ran;
      grows = Grows-trans c.grows rest.grows;
      present = (
        (
          rest.grows.tables t.name c.present.0,
          Covers-Grows t c.result rest.result rest.grows c.present.1,
        ),
        rest.present,
      );
    }
  where
    not-true : {b : Bool} → not b ≡ true → b ≡ false
    not-true {b = true} e = cc
    not-true {b = false} e = refl
run_all-Ran keys (create_index i ∷ sts) s h k fit =
    let (p, q) = both_true (knows keys (i.table, false, i.column)) (well_ordered keys sts) h in
    let c = add_index-Created i s (Known-knows keys s (i.table, false, i.column) k p) in
    let rest =
      run_all-Ran keys sts c.result q (Known-Grows keys s c.result c.grows k) (c.fits sts tt fit) in
    record {
      result = rest.result;
      ran = rw c.ran rest.ran;
      grows = Grows-trans c.grows rest.grows;
      present = (
        (
          rest.grows.indexes i.name c.present.0,
          rest.grows.columns (i.table, false, i.column) c.present.1,
        ),
        rest.present,
      );
    }
run_all-Ran keys (drop_table n ∷ sts) s h k fit = cc

-- Where each table of the migration that is there already has the columns that the migration declares,
-- the upgrade runs to its end, takes no table, no column and no index away, and has then created
-- what it names, each table with its columns; run again, it changes nothing.
pub upgrade-twice :
    (s : Schema)
    → AllFit upgrade s
    → (s' : Schema) × (run_all upgrade s ≡ ok s')
      × Grows s s'
      × AllPresent upgrade s'
      × (run_all upgrade s' ≡ ok s')
upgrade-twice s fit =
    let r = run_all-Ran [] upgrade s refl (λ k m. elim (not-nil m) [ ]) fit in
    (r.result, r.ran, r.grows, r.present, run_all-AllPresent upgrade r.result r.present)
