-- ===== src/Db.antt =====
-- core/memory/models.py and core/memory/db.py: the four tables, and `session_scope`. The state of the
-- database is the list of the committed rows of each table, in the order of insertion.
mod Models
mod Tables
pub use Models.*
unfoldable pub use Tables.{find, ids, set_row, add_row}
pub use Tables.{has_id, IdKept, find-set_row, find-add_row, set_row-fresh, set_row-last, find-last}
