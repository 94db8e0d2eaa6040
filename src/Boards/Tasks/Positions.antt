-- ===== src/Boards/Tasks/Positions.antt =====
-- The positions of tasks in a list: the ordered IDs, and the statements that write an order.
use slate_do.Prelude.{
  ℕ, suc, String, Bool, not, ◌&&◌, List, [], ◌∷◌, ◌++◌, map, ◌==◌, string_eq, nat_eq, keep, any,
  update_where, take, drop,
}
use slate_do.Prelude.Int.{pos}
use slate_do.Prelude.Sort.{sort_by}
use slate_do.Boards.Types.{Task}
use slate_do.Boards.Database.{Database}
use slate_do.Boards.Buckets.{in_order}

-- `ORDER BY sort_order, created_at, id`
abbrev pub sorts_before : Task → Task → Bool
sorts_before a b = in_order (a.sort_order, a.created_at, a.id) (b.sort_order, b.created_at, b.id)

unfoldable pub ids_where : Database → (Task → Bool) → List String
ids_where db p = map (λ t. t.id) (sort_by sorts_before (keep p db.tasks))

-- `orderedTaskIDs`
abbrev pub ordered_task_ids : Database → String → String → List String
ordered_task_ids db bucket_id except_id =
    ids_where db (λ t. t.bucket_id == bucket_id && not (t.id == except_id))

-- `orderedAllTaskIDs`
abbrev pub ordered_all_task_ids : Database → String → List String
ordered_all_task_ids db bucket_id = ids_where db (λ t. t.bucket_id == bucket_id)

-- `orderedChildTaskIDs`; a NULL parent is no task's ID.
abbrev pub child_of : String → Task → Bool
child_of parent_id t = not (t.parent_task_id == "") && t.parent_task_id == parent_id

abbrev pub ordered_child_task_ids : Database → String → List String
ordered_child_task_ids db parent_id = ids_where db (child_of parent_id)

-- `removeTaskIDs`
unfoldable pub remove_task_ids : List String → List String → List String
remove_task_ids ids removed = keep (λ id. not (any (λ r. r == id) removed)) ids

-- `insertTaskIDs`; the callers' positions are within the list.
unfoldable pub insert_task_ids : List String → List String → ℕ → List String
insert_task_ids ids inserted position = take position ids ++ inserted ++ drop position ids

-- `updateTaskLocation`. The trigger that sets the owner from the list is left out, here and below: the
-- callers put tasks into a list of the account that they have locked.
abbrev pub update_task_location : String → String → ℕ → ℕ → List Task → List Task
update_task_location task_id bucket_id position now =
    update_where (λ t. t.id == task_id)
      (λ t. record t { bucket_id = bucket_id; sort_order = pos position; updated_at = now })

-- `updateChildTaskLocations`
abbrev pub update_child_task_locations : String → String → ℕ → List Task → List Task
update_child_task_locations parent_id bucket_id now =
    update_where (child_of parent_id) (λ t. record t { bucket_id = bucket_id; updated_at = now })

-- `writeTaskOrder`, from a position on
unfoldable pub write_task_order : ℕ → List String → List Task → List Task
write_task_order position [] tasks = tasks
write_task_order position (id ∷ ids) tasks =
    write_task_order (suc position) ids
      (update_where (λ t. t.id == id) (λ t. record t { sort_order = pos position }) tasks)

-- `touchTask`
abbrev pub touch_task : String → ℕ → List Task → List Task
touch_task task_id now = update_where (λ t. t.id == task_id) (λ t. record t { updated_at = now })
