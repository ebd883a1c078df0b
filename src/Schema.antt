-- ===== src/Schema.antt =====
-- alembic/versions/0001_initial_schema.py: the migration as a list of statements, and what Postgres does
-- with them: IF NOT EXISTS and IF EXISTS pass over what is there or gone already, an index needs its
-- table and its column, a foreign key a column with a unique key, and a table that another one refers
-- to is not dropped.
pub mod Grows
pub mod Keys
pub mod Upgrade
use wiseorder.Prelude.{
  String, Bool, true, false, not, ◌&&◌, ◌||◌, List, [], ◌∷◌, ◌++◌, any, keep, if◌then◌else◌,
}
use wiseorder.Prelude.Text.{str_eq}
use wiseorder.Exec.{Result, ok, err, raised, other}

-- A column, with its type and what is declared of it, and whether it has a unique or primary key.
pub record Column : Type 0 where
  pub name : String
  pub unique : Bool
  pub declared : String

pub record Table : Type 0 where
  pub name : String
  pub columns : List Column
  -- the columns that its foreign keys name
  pub references : List (String × String)

pub record Index : Type 0 where
  pub name : String
  pub table : String
  pub column : String

pub data Statement : Type 0 where
  create_table : Table → Statement
  create_index : Index → Statement
  drop_table : String → Statement

pub record Schema : Type 0 where
  pub tables : List Table
  pub indexes : List Index

abbrev pub has_table : Schema → String → Bool
has_table s n = any (λ t. str_eq t.name n) s.tables

abbrev pub has_index : Schema → String → Bool
has_index s n = any (λ i. str_eq i.name n) s.indexes

-- A column of a table: the table's name, whether it must be unique, and its name.
abbrev pub ColumnKey : Type 0
ColumnKey = String × Bool × String

abbrev pub is_column : Bool → String → Column → Bool
is_column unique name c = str_eq c.name name && (not unique || c.unique)

abbrev pub has_column : Schema → ColumnKey → Bool
has_column s (table, unique, name) =
    any (λ t. str_eq t.name table && any (is_column unique name) t.columns) s.tables

abbrev pub has_referents : Schema → List (String × String) → Bool
has_referents s [] = true
has_referents s ((table, name) ∷ rest) = has_column s (table, true, name) && has_referents s rest

abbrev refers_to : String → Table → Bool
refers_to n t = not (str_eq t.name n) && any (λ r. str_eq r.0 n) t.references

abbrev pub add_table : Table → Schema → Schema
add_table t s = record s { tables = s.tables ++ t ∷ [] }

abbrev pub add_index : Index → Schema → Schema
add_index i s = record s { indexes = s.indexes ++ i ∷ [] }

abbrev removed : String → Schema → Schema
removed n s = record {
  tables = keep (λ t. not (str_eq t.name n)) s.tables;
  indexes = keep (λ i. not (str_eq i.table n)) s.indexes;
}

-- op.execute(..)
unfoldable pub execute : Statement → Schema → Result Schema
execute (create_table t) s =
    if has_table s t.name
    then ok s
    else if has_referents s t.references
    then ok (add_table t s)
    else err (raised other "there is no unique constraint matching given keys")
execute (create_index i) s =
    if has_column s (i.table, false, i.column)
    then if has_index s i.name then ok s else ok (add_index i s)
    else err (raised other "column does not exist")
execute (drop_table n) s =
    if not (has_table s n)
    then ok s
    else if any (refers_to n) s.tables
    then err (raised other "cannot drop table because other objects depend on it")
    else ok (removed n s)

abbrev pub then_run : Result Schema → (Schema → Result Schema) → Result Schema
then_run (ok s) f = f s
then_run (err e) f = err e

unfoldable pub run_all : List Statement → Schema → Result Schema
unfolding execute
run_all [] s = ok s
run_all (st ∷ sts) s = then_run (execute st s) (run_all sts)

abbrev column : String → String → Column
column name declared = record { name = name; unique = false; declared = declared }

abbrev id_column : Column
id_column = record { name = "id"; unique = true; declared = "BIGSERIAL PRIMARY KEY" }

abbrev created : Column
created = column "created_at" "TIMESTAMPTZ NOT NULL DEFAULT NOW()"

abbrev status_column : Column
status_column = column "status" "TEXT NOT NULL DEFAULT 'pending'"

abbrev pub tasks_table : Table
tasks_table = record {
  name = "tasks";
  columns =
      id_column
      ∷ column "type" "TEXT NOT NULL"
      ∷ status_column
      ∷ column "payload" "JSONB NOT NULL DEFAULT '{}'::jsonb"
      ∷ column "result" "JSONB"
      ∷ column "error" "TEXT"
      ∷ column "workflow_id" "BIGINT"
      ∷ created
      ∷ column "started_at" "TIMESTAMPTZ"
      ∷ column "completed_at" "TIMESTAMPTZ"
      ∷ [];
  references = [];
}

abbrev pub workflows_table : Table
workflows_table = record {
  name = "workflows";
  columns =
      id_column
      ∷ column "workflow_name" "TEXT NOT NULL"
      ∷ column "task_chain" "JSONB NOT NULL DEFAULT '[]'::jsonb"
      ∷ status_column
      ∷ column "logs" "JSONB NOT NULL DEFAULT '[]'::jsonb"
      ∷ created
      ∷ column "completed_at" "TIMESTAMPTZ"
      ∷ [];
  references = [];
}

abbrev pub memory_table : Table
memory_table = record {
  name = "memory";
  columns =
      id_column
      ∷ column "category" "TEXT NOT NULL"
      ∷ column "content" "TEXT NOT NULL"
      ∷ column "embedding_id" "TEXT"
      ∷ column "metadata" "JSONB NOT NULL DEFAULT '{}'::jsonb"
      ∷ created
      ∷ [];
  references = [];
}

abbrev pub approvals_table : Table
approvals_table = record {
  name = "approvals";
  columns =
      id_column
      ∷ column "workflow_id" "BIGINT REFERENCES workflows(id) ON DELETE CASCADE"
      ∷ column "task_id" "BIGINT REFERENCES tasks(id) ON DELETE SET NULL"
      ∷ column "summary" "TEXT NOT NULL"
      ∷ column "outputs" "JSONB NOT NULL DEFAULT '{}'::jsonb"
      ∷ column "affected" "JSONB NOT NULL DEFAULT '[]'::jsonb"
      ∷ column "risk_level" "TEXT NOT NULL DEFAULT 'low'"
      ∷ column "decision" "TEXT"
      ∷ column "delivered_via" "TEXT"
      ∷ created
      ∷ column "decided_at" "TIMESTAMPTZ"
      ∷ [];
  references = ("workflows", "id") ∷ ("tasks", "id") ∷ [];
}

abbrev index : String → String → String → Statement
index name table column = create_index (record { name = name; table = table; column = column })

abbrev pub upgrade : List Statement
upgrade =
    create_table tasks_table
    ∷ index "idx_tasks_status" "tasks" "status"
    ∷ index "idx_tasks_workflow" "tasks" "workflow_id"
    ∷ create_table workflows_table
    ∷ index "idx_workflows_status" "workflows" "status"
    ∷ create_table memory_table
    ∷ index "idx_memory_category" "memory" "category"
    ∷ create_table approvals_table
    ∷ index "idx_approvals_decision" "approvals" "decision"
    ∷ []

abbrev pub downgrade : List Statement
downgrade =
    drop_table "approvals" ∷ drop_table "memory" ∷ drop_table "workflows" ∷ drop_table "tasks" ∷ []
