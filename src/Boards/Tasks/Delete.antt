-- ===== src/Boards/Tasks/Delete.antt =====
-- DeleteTask of server/internal/boards/store.go.
use slate_do.Prelude.{
  String, Bool, ◌||◌, ◌==◌, string_eq, count_where, sum_where, length, ok, ◌>>=◌,
}
use slate_do.Prelude.Int.{negate}
use slate_do.Boards.Types.{Task, Store}
use slate_do.Boards.Database.{Database, locked_task, stored_bytes}
use slate_do.Boards.Quota.{lock_storage_quota, apply}
use slate_do.Boards.Buckets.Change.{cascade, delete_tasks}
use slate_do.Boards.Tasks.Positions.{child_of}

-- The rows that the operation counts: the task and its subtasks.
abbrev pub with_children : String → Task → Bool
with_children id t = t.id == id || child_of id t

-- The rows that the foreign key's cascade deletes.
abbrev pub cascaded : Database → String → Task → Bool
cascaded db id = cascade (length db.tasks) db.tasks (λ t. t.id == id)

-- `DeleteTask`
unfoldable pub delete_task : Database → String → String → Store Database
delete_task db0 user_id id = do
  (quota, db) ← lock_storage_quota db0 user_id
  task ← locked_task db user_id id
  let tasks = count_where (with_children task.id) db.tasks
  let bytes = sum_where (with_children task.id) (stored_bytes db.entries) db.tasks
  counted ← apply quota db (negate tasks) (negate bytes)
  ok (delete_tasks counted (cascaded counted task.id))
