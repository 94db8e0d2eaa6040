-- ===== src/Boards/Tasks/Accounting/Orders.antt =====
-- The counters when ReorderTasks and ReorderSubtasks of server/internal/boards/store.go order
-- tasks.
use slate_do.Prelude.{
  ℕ, suc, String, ◌≡◌, refl, Bool, not, ◌&&◌, List, [], ◌∷◌, map, ◌==◌, string_eq, nat_eq, any,
  length, sum_where, sum_where-update_where, ok, or_fail, refuse_if, >>=-eq-ok, ok-injective, sym,
  ◌∙◌, ap,
}
use slate_do.Prelude.Int.{ℤ, pos}
use slate_do.Boards.Types.{Task, not_found, invalid_data}
use slate_do.Boards.Database.{Database, locked_bucket, locked_task}
use slate_do.Boards.Quota.{lock_storage_quota}
use slate_do.Boards.Tasks.Positions.{ordered_all_task_ids, remove_task_ids, insert_task_ids}
use slate_do.Boards.Tasks.Accounting.Rearranged.{Rearranged}
use slate_do.Boards.Tasks.Accounting.Updates.{ordered-sum}
use slate_do.Boards.Tasks.Move.{index_from}
use slate_do.Boards.Tasks.Reorder.{
  in_list, set_place, place_tasks, reorder_tasks, subtask_of, subtasks, check_subtasks, add_lists,
  order_for, write_orders, gathered, reorder_subtasks,
}

-- A measure of the rows that does not read their place.
module _ (w : Task → ℕ) (q : Task → Bool)
    (order : (t : Task) (z : ℤ)
      → (q (record t { sort_order = z }) ≡ q t) × (w (record t { sort_order = z }) ≡ w t))
    (place : (t : Task) (b : String) (now : ℕ)
      → (q (record t { bucket_id = b; updated_at = now }) ≡ q t)
        × (w (record t { bucket_id = b; updated_at = now }) ≡ w t)) where
  placed-sum :
      (user_id bucket_id : String) (now i : ℕ) (ids : List String) (tasks after : List Task)
      → place_tasks user_id bucket_id now i ids tasks ≡ ok after
      → sum_where q w after ≡ sum_where q w tasks
  unfolding place_tasks
  placed-sum user_id bucket_id now i [] tasks after h = ap (sum_where q w) (sym (ok-injective h))
  placed-sum user_id bucket_id now i (id ∷ ids) tasks after h =
      let (unit, e, h1) =
        >>=-eq-ok (refuse_if (not (any (in_list user_id bucket_id id) tasks)) not_found) _ h in
      placed-sum user_id bucket_id now (suc i) ids _ after h1
      ∙ sum_where-update_where q (in_list user_id bucket_id id) w (set_place now i) tasks (λ t p.
        let a = place t t.bucket_id now in
        let b = order (record t { updated_at = now }) (pos i) in (b.0 ∙ a.0, b.1 ∙ a.1))

  orders-sum :
      (orders : String → List String) (lists : List String) (tasks : List Task)
      → sum_where q w (write_orders orders lists tasks) ≡ sum_where q w tasks
  unfolding write_orders
  orders-sum orders [] tasks = refl
  orders-sum orders (b ∷ lists) tasks =
      orders-sum orders lists _ ∙ ordered-sum w q order place 0 (orders b) tasks

  gathered-sum :
      (orders : String → List String) (lists : List String) (user_id parent_id home : String)
      (now : ℕ) (tasks : List Task)
      → sum_where q w (write_orders orders lists (gathered user_id parent_id home now tasks))
        ≡ sum_where q w tasks
  gathered-sum orders lists user_id parent_id home now tasks =
      orders-sum orders lists _
      ∙ sum_where-update_where q (λ t. subtask_of user_id parent_id t && not (t.bucket_id == home))
          w (λ t. record t { bucket_id = home; updated_at = now }) tasks (λ t p. place t home now)

pub reorder_tasks-Rearranged :
    (db : Database) (user_id bucket_id : String) (ids : List String) (now : ℕ) (after : Database)
    → reorder_tasks db user_id bucket_id ids now ≡ ok after
    → Rearranged db user_id after
unfolding reorder_tasks
reorder_tasks-Rearranged db user_id bucket_id ids now after h =
    let (bucket, e1, h1) = >>=-eq-ok (locked_bucket db user_id bucket_id) _ h in
    let ((quota, locked), e2, h2) = >>=-eq-ok (lock_storage_quota db user_id) _ h1 in
    let (tasks, e3, h3) = >>=-eq-ok (place_tasks user_id bucket_id now 0 ids locked.tasks) _ h2 in
    record {
      quota = quota;
      locked = locked;
      locking = e2;
      tasks = tasks;
      result = ok-injective h3;
      sums = λ w q blind.
          placed-sum w q blind.0 blind.1 user_id bucket_id now 0 ids locked.tasks tasks e3;
    }

pub reorder_subtasks-Rearranged :
    (ranged : List String → List String) (db : Database) (user_id parent_id : String)
    (ids : List String) (now : ℕ) (after : Database)
    → reorder_subtasks ranged db user_id parent_id ids now ≡ ok after
    → Rearranged db user_id after
unfolding reorder_subtasks
reorder_subtasks-Rearranged ranged db user_id parent_id ids now after h =
    let ((quota, locked), e1, h1) = >>=-eq-ok (lock_storage_quota db user_id) _ h in
    let (parent, e2, h2) = >>=-eq-ok (locked_task locked user_id parent_id) _ h1 in
    let (unit, e3, h3) =
      >>=-eq-ok
        (refuse_if (not (parent.parent_task_id == ""))
          (invalid_data "subtasks cannot contain subtasks"))
        _ h2 in
    let children = subtasks locked.tasks user_id parent.id in
    let child_ids = map (λ (t : Task). t.id) children in
    let (unit', e4, h4) =
      >>=-eq-ok
        (refuse_if (not (length ids == length child_ids))
          (invalid_data "subtask order must include every subtask"))
        _ h3 in
    let (rest, e5, h5) = >>=-eq-ok (check_subtasks child_ids ids) _ h4 in
    let others = remove_task_ids (ordered_all_task_ids locked parent.bucket_id) child_ids in
    let (before, e6, h6) = >>=-eq-ok (or_fail (index_from 0 others parent.id) not_found) _ h5 in
    let orders =
      order_for locked parent.bucket_id (insert_task_ids others ids (suc before)) child_ids in
    let lists =
      ranged (add_lists (parent.bucket_id ∷ []) (map (λ (t : Task). t.bucket_id) children)) in
    record {
      quota = quota;
      locked = locked;
      locking = e1;
      tasks = _;
      result = ok-injective h6;
      sums = λ w q blind.
          gathered-sum w q blind.0 blind.1 orders lists user_id parent.id parent.bucket_id now
            locked.tasks;
    }
