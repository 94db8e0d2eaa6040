-- ===== src/Boards/Examples/Orders.antt =====
-- Runs of manual orders: the theorems' hypotheses hold there.
use slate_do.Prelude.{
  String, ◌≡◌, refl, List, [], ◌∷◌, map, string_eq, ok, err, if◌then◌else◌, ◌>>=◌, arith, text_iff,
  sym, ◌∙◌,
}
use slate_do.Prelude.Keyed.{IsKeyed}
use slate_do.Prelude.Int.{ℤ, pos}
use slate_do.Prelude.Sort.{sort_by}
use slate_do.Boards.Types.{working, not_found}
use slate_do.Boards.Database.{
  Database, account_limits_for_update, locked_bucket, locked_task_for_agent,
}
use slate_do.Boards.Quota.{lock_storage_quota}
use slate_do.Boards.Tasks.Positions.{ids_where, remove_task_ids, insert_task_ids, write_task_order}
use slate_do.Boards.Tasks.Move.{index_from}
use slate_do.Boards.Tasks.Reorder.{
  reorder_tasks, subtasks, check_subtasks, add_lists, order_for, write_orders, reorder_subtasks,
}
use slate_do.Boards.Tasks.Reorder.Listed.{listed, all_in, reorder_tasks-listed}
use slate_do.Boards.Tasks.Reorder.Rows.{Gathered}
use slate_do.Boards.Tasks.Reorder.Behind.{reorder_subtasks-Gathered}
use slate_do.Entitlements.{resolve}
use slate_do.Boards.Examples.{task_id, run_id, task_row, running, got}

-- A task with two subtasks, the second in another list.
abbrev household : Database
household = record running {
  tasks =
      task_row working run_id
      ∷ record (task_row working "") { id = "one"; parent_task_id = task_id }
      ∷ record (task_row working "") { id = "two"; parent_task_id = task_id; bucket_id = "later" }
      ∷ [];
}

apart :
    (k : String)
    → (task_id ≡ k → "one" ≡ k → ⊥) × (task_id ≡ k → "two" ≡ k → ⊥) × ("one" ≡ k → "two" ≡ k → ⊥)
apart k = (
  λ a b. cc ((text_iff task_id "one").1 (a ∙ sym b)),
  λ a b. cc ((text_iff task_id "two").1 (a ∙ sym b)),
  λ a b. cc ((text_iff "one" "two").1 (a ∙ sym b)),
)

household-IsKeyed : IsKeyed (λ t. t.id) household.tasks
household-IsKeyed k =
    let (a, b, c) = apart k in
    ground (arith, text_iff task_id k, text_iff "one" k, text_iff "two" k, a, b, c)

abbrev as_listed : List String → List String
as_listed xs = xs

abbrev swapped : List String
swapped = "two" ∷ "one" ∷ []

gathering : Database
unfolding reorder_subtasks lock_storage_quota account_limits_for_update resolve
    locked_task_for_agent subtasks check_subtasks ids_where remove_task_ids insert_task_ids
    index_from add_lists order_for write_orders write_task_order sort_by
gathering = got (reorder_subtasks as_listed household "ann" task_id swapped 9) running

gathering-ok : reorder_subtasks as_listed household "ann" task_id swapped 9 ≡ ok gathering
unfolding gathering reorder_subtasks lock_storage_quota account_limits_for_update resolve
    locked_task_for_agent subtasks check_subtasks ids_where remove_task_ids insert_task_ids
    index_from add_lists order_for write_orders write_task_order sort_by
gathering-ok = refl

gathering-places :
    map {B = String × String × ℤ} (λ t. (t.id, t.bucket_id, t.sort_order)) gathering.tasks
    ≡ (task_id, "inbox", pos 0) ∷ ("one", "inbox", pos 2) ∷ ("two", "inbox", pos 1) ∷ []
unfolding gathering reorder_subtasks lock_storage_quota account_limits_for_update resolve
    locked_task_for_agent subtasks check_subtasks ids_where remove_task_ids insert_task_ids
    index_from add_lists order_for write_orders write_task_order sort_by
gathering-places = refl

reorder_subtasks-Gathered_example : Gathered "ann" task_id swapped 9 household.tasks gathering.tasks
reorder_subtasks-Gathered_example =
    reorder_subtasks-Gathered as_listed household "ann" task_id swapped 9 gathering (λ xs k. refl)
      household-IsKeyed gathering-ok

reorder_tasks-listed_example :
    reorder_tasks household "ann" "inbox" ("one" ∷ task_id ∷ "one" ∷ []) 9 ≡ (
      locked_bucket household "ann" "inbox" >>= λ bucket.
      lock_storage_quota household "ann" >>= λ locked.
      if all_in "ann" "inbox" ("one" ∷ task_id ∷ "one" ∷ []) locked.1.tasks
      then ok (record locked.1 {
        tasks = map (listed "ann" "inbox" 9 0 ("one" ∷ task_id ∷ "one" ∷ [])) locked.1.tasks;
      })
      else err not_found)
reorder_tasks-listed_example =
    reorder_tasks-listed household "ann" "inbox" ("one" ∷ task_id ∷ "one" ∷ []) 9
