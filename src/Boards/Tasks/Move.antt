-- ===== src/Boards/Tasks/Move.antt =====
-- MoveTask of server/internal/boards/store.go.
pub mod Found
pub mod Outcome
pub mod Housed
use slate_do.Prelude.{
  ℕ, zero, suc, ◌+◌, String, Bool, true, false, not, ◌&&◌, ◌||◌, Option, none, some, List, [], ◌∷◌,
  ◌==◌, string_eq, find, update_where, length, min, leb, ltb, if◌then◌else◌, Result, ok, err,
  or_fail, refuse_if, ◌>>=◌, ◌>>◌,
}
use slate_do.Prelude.Int.{ℤ, pos, pos_part, is_negative}
use slate_do.Boards.Types.{
  Task, Status, fresh, queued, working, needs_review, done, status_eq, Store, Error,
  idempotency_gone, invalid_data,
}
use slate_do.Boards.Validation.{clean, valid_status, apply_task_status, is_action}
use slate_do.Boards.Database.{Database, locked_bucket, locked_task, active_agent_assignment}
use slate_do.Boards.Quota.{lock_storage_quota}
use slate_do.Boards.Tasks.Positions.{
  ordered_task_ids, ordered_all_task_ids, ordered_child_task_ids, remove_task_ids, insert_task_ids,
  update_task_location, update_child_task_locations, write_task_order, touch_task,
}

pub record MoveTaskInput : Type 0 where
  pub bucket_id : String
  pub position : Option ℤ
  pub reference_task_id : String
  pub placement : String
  pub preserve_position : Bool
  pub append : Bool
  pub status : String

abbrev pub trimmed : MoveTaskInput → MoveTaskInput
trimmed input = record input {
  bucket_id = clean input.bucket_id;
  reference_task_id = clean input.reference_task_id;
  placement = clean input.placement;
  status = clean input.status;
}

-- No position, or one below zero.
abbrev positionless : Option ℤ → Bool
positionless none = true
positionless (some p) = is_negative p

abbrev asked : Option ℤ → Bool
asked none = false
asked (some p) = true

abbrev named_status : String → Bool
named_status text = elim (valid_status text) [ none ↦ false | some s ↦ true ]

-- The tests on the input before the transaction.
unfoldable pub check_move : MoveTaskInput → Store (Unit {0})
check_move input = do
  refuse_if (input.bucket_id == "") (invalid_data "destination list is required")
  refuse_if
      (input.reference_task_id == ""
        && not input.preserve_position
        && not input.append
        && positionless input.position)
      (invalid_data "position must be zero or greater")
  refuse_if
      (not (input.reference_task_id == "")
        && not (input.placement == "before")
        && not (input.placement == "after"))
      (invalid_data "placement must be before or after")
  refuse_if
      (((input.preserve_position || input.append)
          && (not (input.reference_task_id == "") || asked input.position))
        || (input.preserve_position && input.append))
      (invalid_data "move must include one position")
  refuse_if (not (input.status == "") && not (named_status input.status))
      (invalid_data "invalid status")

-- The agent of a task that it may take up is not archived.
unfoldable pub mover_is_live : Database → String → Task → Store (Unit {0})
mover_is_live db user_id t =
    if not (t.assignee_agent_id == "") && (t.status == queued || t.status == working)
    then (elim (active_agent_assignment db user_id t.assignee_agent_id) [
      | ok id ↦ ok tt
      | err e ↦ err (
          invalid_data
            "clear or replace the archived agent before moving this item to New, Ready, or In Progress")
    ])
    else ok tt

-- The task with the status that the move asks for.
unfoldable pub moved_status : Database → String → Task → String → Store Task
moved_status db user_id t status =
    if status == ""
    then ok t
    else apply_task_status t status true >>= λ changed.
        let settled : Task = record changed {
          status =
              if not (changed.assignee_agent_id == "") && changed.status == fresh
              then queued
              else changed.status;
        } in
        mover_is_live db user_id settled >> ok settled

-- A subtask moves only back to its parent's list.
unfoldable pub parent_calls : Database → String → Task → String → Store (Unit {0})
parent_calls db user_id t bucket_id =
    if t.parent_task_id == ""
    then ok tt
    else locked_task db user_id t.parent_task_id >>= λ parent.
        refuse_if (t.bucket_id == parent.bucket_id || not (parent.bucket_id == bucket_id))
          (invalid_data "a subtask must stay in its parent list")

-- `slices.Index`, from a position on
unfoldable pub index_from : ℕ → List String → String → Option ℕ
index_from i [] id = none
index_from i (x ∷ xs) id = if x == id then some i else index_from (suc i) xs id

-- Behind the reference task come its children, where they stand behind it.
unfoldable pub behind_children : List String → List String → ℕ → ℕ
behind_children ids [] position = position
behind_children ids (child ∷ children) position =
    behind_children ids children (elim (index_from 0 ids child) [
      | none ↦ position
      | some i ↦ if leb position i then suc i else position
    ])

-- The position in the destination's order, the moved group left out of it. A task is in its own
-- list's order, so the preserved position is that of the order.
unfoldable pub position_of : Database → Task → MoveTaskInput → List String → List String → Store ℕ
position_of db t input destination_ids child_ids =
    if input.preserve_position
    then ok (
        min (length destination_ids)
          (elim (index_from 0 (remove_task_ids (ordered_all_task_ids db t.bucket_id) child_ids)
            t.id) [ none ↦ pos_part t.sort_order | some i ↦ i ]))
    else if input.append
    then ok (length destination_ids)
    else if not (input.reference_task_id == "")
    then (or_fail (index_from 0 destination_ids input.reference_task_id)
          (invalid_data "reference task is outside the destination list")
        >>= λ i. ok (
            if input.placement == "after"
            then behind_children destination_ids (ordered_child_task_ids db input.reference_task_id)
                (suc i)
            else i))
    else ok (elim input.position [ none ↦ 0 | some p ↦ pos_part p ])

-- What the move has found out before it writes.
pub record Plan : Type 0 where
  pub task : Task
  pub bucket_id : String
  pub position : ℕ
  pub source_ids : List String
  pub destination_ids : List String

-- `checkTaskCapacity` admits every move, so its two calls leave no trace.
unfoldable pub plan_move : Database → String → String → MoveTaskInput → Store Plan
plan_move db user_id id input = do
  original ← locked_task db user_id id
  current ← moved_status db user_id original input.status
  parent_calls db user_id current input.bucket_id
  destination ← locked_bucket db user_id input.bucket_id
  let child_ids = ordered_child_task_ids db current.id
  let others = remove_task_ids (ordered_task_ids db destination.id current.id) child_ids
  position ← position_of db current input others child_ids
  refuse_if (ltb (length others) position) (invalid_data "position is outside the destination list")
  ok (record {
    task = current;
    bucket_id = destination.id;
    position = position;
    source_ids = remove_task_ids (ordered_task_ids db current.bucket_id current.id) child_ids;
    destination_ids = insert_task_ids others (current.id ∷ child_ids) position;
  })

-- The SET clause of the status.
abbrev pub restated : Status → ℕ → Task → Task
restated status now t = record t {
  status = status;
  execution_run_id = if status == queued then "" else t.execution_run_id;
  review_reason =
      if status == needs_review && t.status == needs_review then t.review_reason else "";
  updated_at = now;
}

-- The statements that write the rows.
unfoldable pub relocated : Plan → ℕ → List Task → List Task
relocated plan now tasks =
    if plan.task.bucket_id == plan.bucket_id
    then touch_task plan.task.id now tasks
    else write_task_order 0 plan.source_ids (
        update_child_task_locations plan.task.id plan.bucket_id now
          (update_task_location plan.task.id plan.bucket_id plan.position now tasks))

unfoldable pub write_move : Plan → String → ℕ → List Task → List Task
write_move plan status now tasks =
    let ordered = write_task_order 0 plan.destination_ids (relocated plan now tasks) in
    if status == ""
    then ordered
    else update_where (λ t. t.id == plan.task.id) (restated plan.task.status now) ordered

-- `MoveTask`
unfoldable pub move_task : Database → String → String → MoveTaskInput → ℕ → Store (Task × Database)
move_task db0 user_id id given_input now = do
  let input = trimmed given_input
  check_move input
  (quota, db) ← lock_storage_quota db0 user_id
  plan ← plan_move db user_id id input
  let tasks = write_move plan input.status now db.tasks
  moved ← or_fail (find (λ t. t.id == plan.task.id) tasks) idempotency_gone
  ok (moved, record db { tasks = tasks })
