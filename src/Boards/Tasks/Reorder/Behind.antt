-- ===== src/Boards/Tasks/Reorder/Behind.antt =====
-- What ReorderSubtasks of server/internal/boards/store.go leaves behind.
use slate_do.Prelude.{
  ℕ, String, ◌≡◌, true, not, List, [], ◌∷◌, map, ◌==◌, string_eq, nat_eq, find-test, length, ok,
  or_fail, refuse_if, arith, text_iff, text_refl, sym, ap, subst, >>=-eq-ok, ok-injective,
  or_fail-eq-ok, nat_beq_iff,
}
use slate_do.Prelude.Keyed.{IsKeyed, find-keyed}
use slate_do.Boards.Types.{Task, not_found, invalid_data}
use slate_do.Boards.Database.{Database, locked_task}
use slate_do.Boards.Quota.{lock_storage_quota}
use slate_do.Boards.Quota.Check.{lock_storage_quota-Locked}
use slate_do.Boards.Buckets.Reorder.{has}
use slate_do.Boards.Buckets.Reorder.Order.{occurs, has-occurs}
use slate_do.Boards.Tasks.Positions.{ordered_all_task_ids, remove_task_ids}
use slate_do.Boards.Tasks.Update.Written.{addressed, locked_task_for_agent-found}
use slate_do.Boards.Tasks.Move.{index_from}
use slate_do.Boards.Tasks.Reorder.{subtasks, check_subtasks, add_lists, reorder_subtasks}
use slate_do.Boards.Tasks.Reorder.Places.{has_id}
use slate_do.Boards.Tasks.Reorder.Repaired.{has-of_occurs, add_lists-has}
use slate_do.Boards.Tasks.Reorder.Rows.{Gathered}
use slate_do.Boards.Tasks.Reorder.Seats.{seats_of_reorder}

-- A reordering of subtasks that succeeds, where task IDs are distinct and a visit of a map meets
-- each key as often as it is there: the asked IDs are exactly those of the task's subtasks; the
-- task is top-level, and keeps all but its position; the subtasks stand in its list, at the
-- positions behind its own, in the asked order, with the new time if they came from another list,
-- and otherwise as they were; every other row keeps all but its position.
pub reorder_subtasks-Gathered :
    (ranged : List String → List String) (db : Database) (user_id parent_id : String)
    (ids : List String) (now : ℕ) (after : Database)
    → ((xs : List String) (k : String) → occurs (ranged xs) k ≡ occurs xs k)
    → IsKeyed (λ t. t.id) db.tasks
    → reorder_subtasks ranged db user_id parent_id ids now ≡ ok after
    → Gathered user_id parent_id ids now db.tasks after.tasks
unfolding reorder_subtasks
reorder_subtasks-Gathered ranged db user_id parent_id ids now after visits keyed h =
    let ((quota, locked), e1, h1) = >>=-eq-ok (lock_storage_quota db user_id) _ h in
    let (parent, e2, h2) = >>=-eq-ok (locked_task locked user_id parent_id) _ h1 in
    let (unit, e3, h3) =
      >>=-eq-ok
        (refuse_if (not (parent.parent_task_id == ""))
          (invalid_data "subtasks cannot contain subtasks"))
        _ h2 in
    let child_ids = map (λ (t : Task). t.id) (subtasks locked.tasks user_id parent.id) in
    let (unit', e4, h4) =
      >>=-eq-ok
        (refuse_if (not (length ids == length child_ids))
          (invalid_data "subtask order must include every subtask"))
        _ h3 in
    let (rest, e5, h5) = >>=-eq-ok (check_subtasks child_ids ids) _ h4 in
    let others = remove_task_ids (ordered_all_task_ids locked parent.bucket_id) child_ids in
    let (before, e6, h6) = >>=-eq-ok (or_fail (index_from 0 others parent.id) not_found) _ h5 in
    let rows = (lock_storage_quota-Locked db user_id quota locked e1).rows in
    let keyed' = subst (λ ts. IsKeyed (λ (x : Task). x.id) ts) (sym rows.tasks) keyed in
    let found = locked_task_for_agent-found locked user_id "" parent_id parent e2 in
    let test = find-test (addressed user_id "" parent_id) locked.tasks parent found in
    let lists =
      add_lists (parent.bucket_id ∷ [])
        (map (λ (t : Task). t.bucket_id) (subtasks locked.tasks user_id parent.id)) in
    let visited : has (ranged lists) parent.bucket_id ≡ true =
      has-of_occurs (ranged lists) parent.bucket_id (
        omega (
          arith,
          visits lists parent.bucket_id,
          has-occurs lists parent.bucket_id (
              add_lists-has (parent.bucket_id ∷ []) _ parent.bucket_id
                (ground (arith, text_refl parent.bucket_id))),
        )) in
    let by_id =
      find-keyed (λ x. x.id) parent.id (addressed user_id "" parent_id) (has_id parent.id)
        locked.tasks parent (keyed' parent.id)
        (λ x p. ground (
          arith,
          p,
          test,
          text_iff x.id parent_id,
          text_iff parent.id parent_id,
          text_iff x.id parent.id,
        ))
        (λ x p. p) found (text_refl parent.id) in
    subst (λ ts. Gathered user_id parent_id ids now ts after.tasks) rows.tasks
      (subst (Gathered user_id parent_id ids now locked.tasks)
        (ap (λ (d : Database). d.tasks) (ok-injective h6))
        (seats_of_reorder locked user_id ids rest now before ranged parent keyed' visits by_id
          (ground (arith, e3, text_iff parent.parent_task_id "")) e5
          (ground (arith, e4, nat_beq_iff (length ids) (length child_ids)))
          (or_fail-eq-ok (index_from 0 others parent.id) not_found e6) (ranged lists) visited
          parent_id found))
