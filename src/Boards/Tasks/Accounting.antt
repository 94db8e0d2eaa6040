-- ===== src/Boards/Tasks/Accounting.antt =====
-- The counters of an account against its rows: account_storage_usage under the task operations of
-- server/internal/boards/store.go.
pub mod Updates
pub mod Rearranged
pub mod Moves
pub mod Orders
pub mod Cascade
pub mod Deleted
pub mod Removals
pub mod Additions
use slate_do.Prelude.{ℕ, String, ◌≡◌, List, ◌==◌, string_eq, count_where, sum_where}
use slate_do.Boards.Types.{Task, Entry}
use slate_do.Boards.Database.{Database, stored_bytes}
use slate_do.Boards.Quota.{usage_of}
use slate_do.Boards.Tasks.{owned}

-- The bytes of an account's tasks and of their entries.
abbrev pub bytes_of : List Entry → List Task → String → ℕ
bytes_of entries tasks user_id = sum_where (owned user_id) (stored_bytes entries) tasks

-- The counters of an account are the number of its tasks, and the bytes that they store.
pub record Accounted (db : Database) (user_id : String) : Type 0 where
  pub count : (usage_of db user_id).tasks ≡ count_where (owned user_id) db.tasks
  pub bytes : (usage_of db user_id).content_bytes ≡ bytes_of db.entries db.tasks user_id
