-- ===== src/Boards/Tasks/Reorder.antt =====
-- ReorderTasks and ReorderSubtasks of server/internal/boards/store.go.
pub mod Listed
pub mod Places
pub mod Repaired
pub mod Rows
pub mod Seats
pub mod Behind
use slate_do.Prelude.{
  ℕ, zero, suc, String, Bool, not, ◌&&◌, ◌||◌, Option, none, some, List, [], ◌∷◌, ◌++◌, map, ◌==◌,
  string_eq, nat_eq, keep, any, find, update_where, take, drop, length, if◌then◌else◌, Result, ok,
  err, or_fail, refuse_if, ◌>>=◌, ◌>>◌,
}
use slate_do.Prelude.Int.{pos}
use slate_do.Prelude.Sort.{sort_by}
use slate_do.Boards.Types.{Task, Store, Error, not_found, invalid_data}
use slate_do.Boards.Database.{Database, locked_bucket, locked_task}
use slate_do.Boards.Quota.{lock_storage_quota}
use slate_do.Boards.Buckets.Reorder.{has}
use slate_do.Boards.Tasks.Positions.{
  sorts_before, ordered_all_task_ids, remove_task_ids, insert_task_ids, write_task_order, child_of,
}
use slate_do.Boards.Tasks.Move.{index_from}

-- `WHERE t.owner_user_id = $2 AND t.bucket_id = $3 AND t.id = $4`
abbrev pub in_list : String → String → String → Task → Bool
in_list user_id bucket_id id t =
    t.owner_user_id == user_id && t.bucket_id == bucket_id && t.id == id

abbrev pub set_place : ℕ → ℕ → Task → Task
set_place now i t = record t { sort_order = pos i; updated_at = now }

-- The loop over the asked order, from a position on; a statement that changes no row ends it.
unfoldable pub place_tasks : String → String → ℕ → ℕ → List String → List Task → Store (List Task)
place_tasks user_id bucket_id now i [] tasks = ok tasks
place_tasks user_id bucket_id now i (id ∷ ids) tasks = do
  refuse_if (not (any (in_list user_id bucket_id id) tasks)) not_found
  place_tasks user_id bucket_id now (suc i) ids
      (update_where (in_list user_id bucket_id id) (set_place now i) tasks)

-- `ReorderTasks`; `getBucket` finds the rows that `lockedBucket` finds, and only whether there is
-- one is used.
unfoldable pub reorder_tasks : Database → String → String → List String → ℕ → Store Database
reorder_tasks db0 user_id bucket_id ids now = do
  bucket ← locked_bucket db0 user_id bucket_id
  (quota, db) ← lock_storage_quota db0 user_id
  tasks ← place_tasks user_id bucket_id now 0 ids db.tasks
  ok (record db { tasks = tasks })

-- The rows of a task's subtasks, in their order.
abbrev pub subtask_of : String → String → Task → Bool
subtask_of user_id parent_id t = child_of parent_id t && t.owner_user_id == user_id

unfoldable pub subtasks : List Task → String → String → List Task
subtasks tasks user_id parent_id = sort_by sorts_before (keep (subtask_of user_id parent_id) tasks)

-- The loop that takes each asked ID out of those that remain.
unfoldable pub check_subtasks : List String → List String → Store (List String)
check_subtasks remaining [] = ok remaining
check_subtasks remaining (id ∷ ids) = do
  refuse_if (not (has remaining id))
      (invalid_data "subtask order contains an unknown or duplicate task")
  check_subtasks (keep (λ other. not (other == id)) remaining) ids

-- The keys of `bucketOrders`: the parent's list, and each other list that a subtask stands in.
unfoldable pub add_lists : List String → List String → List String
add_lists lists [] = lists
add_lists lists (bucket_id ∷ bucket_ids) =
    let more = if has lists bucket_id then lists else bucket_id ∷ lists in add_lists more bucket_ids

-- What is written for a key of `bucketOrders`, read before any row changed.
unfoldable pub order_for : Database → String → List String → List String → String → List String
order_for db home repaired child_ids bucket_id =
    if bucket_id == home
    then repaired
    else remove_task_ids (ordered_all_task_ids db bucket_id) child_ids

unfoldable pub write_orders : (String → List String) → List String → List Task → List Task
write_orders order [] tasks = tasks
write_orders order (bucket_id ∷ bucket_ids) tasks =
    write_orders order bucket_ids (write_task_order 0 (order bucket_id) tasks)

-- `UPDATE tasks SET bucket_id = $1` for the subtasks that stand in another list
abbrev pub gathered : String → String → String → ℕ → List Task → List Task
gathered user_id parent_id home now =
    update_where (λ t. subtask_of user_id parent_id t && not (t.bucket_id == home))
      (λ t. record t { bucket_id = home; updated_at = now })

-- `ReorderSubtasks`. Go visits a map's keys in no fixed order: `ranged` is the order of this visit.
unfoldable pub reorder_subtasks :
    (List String → List String) → Database → String → String → List String → ℕ → Store Database
reorder_subtasks ranged db0 user_id parent_id ids now = do
  (quota, db) ← lock_storage_quota db0 user_id
  parent ← locked_task db user_id parent_id
  refuse_if (not (parent.parent_task_id == "")) (invalid_data "subtasks cannot contain subtasks")
  let children = subtasks db.tasks user_id parent.id
  let child_ids = map (λ t. t.id) children
  refuse_if (not (length ids == length child_ids))
      (invalid_data "subtask order must include every subtask")
  rest ← check_subtasks child_ids ids
  let others = remove_task_ids (ordered_all_task_ids db parent.bucket_id) child_ids
  before ← or_fail (index_from 0 others parent.id) not_found
  let repaired = insert_task_ids others ids (suc before)
  let lists = add_lists (parent.bucket_id ∷ []) (map (λ t. t.bucket_id) children)
  ok (record db {
    tasks =
        write_orders (order_for db parent.bucket_id repaired child_ids) (ranged lists)
          (gathered user_id parent.id parent.bucket_id now db.tasks);
  })
