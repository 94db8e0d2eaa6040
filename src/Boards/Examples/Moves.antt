-- ===== src/Boards/Examples/Moves.antt =====
-- A run of a move: the theorems' hypotheses hold there.
use slate_do.Prelude.{
  map, sym, ◌∙◌, All, String, List, [], ◌∷◌, arith, text_iff, string_eq, ◌≡◌, refl, true, false,
  none, ok,
}
use slate_do.Prelude.Text.{trim_space}
use slate_do.Prelude.Sort.{sort_by}
use slate_do.Prelude.Keyed.{IsKeyed}
use slate_do.Boards.Types.{Task, working}
use slate_do.Boards.Validation.{valid_status, apply_task_status, valid_uuid}
use slate_do.Boards.Database.{
  Database, account_limits_for_update, locked_bucket, locked_task_for_agent,
  active_agent_assignment,
}
use slate_do.Boards.Quota.{lock_storage_quota}
use slate_do.Boards.Tasks.Positions.{ids_where, remove_task_ids, insert_task_ids, write_task_order}
use slate_do.Boards.Tasks.Accounting.{Accounted}
use slate_do.Boards.Tasks.Move.Housed.{is_housed, owner_from_list, is_housed-move_task}
use slate_do.Boards.Tasks.Move.{
  MoveTaskInput, check_move, moved_status, mover_is_live, parent_calls, position_of, plan_move,
  relocated, write_move, move_task,
}
use slate_do.Boards.Tasks.History.{
  TaskCall, relocate, order_list, follow_all, Balanced, follow_all-Balanced,
}
use slate_do.Entitlements.{resolve}
use slate_do.Boards.Examples.{task_id, task_row, running, running-IsKeyed, got, run_id}

-- The task goes to the end of the other list, and back to the queue.
abbrev to_later : MoveTaskInput
to_later = record {
  bucket_id = " later";
  position = none;
  reference_task_id = "";
  placement = "";
  preserve_position = false;
  append = true;
  status = "queued";
}

moved : Task × Database
unfolding move_task check_move lock_storage_quota account_limits_for_update resolve plan_move
    locked_task_for_agent moved_status apply_task_status valid_status mover_is_live
    active_agent_assignment valid_uuid parent_calls locked_bucket position_of ids_where
    remove_task_ids insert_task_ids write_task_order relocated write_move sort_by trim_space
moved = got (move_task running "ann" task_id to_later 9) (task_row working run_id, running)

moved-ok : move_task running "ann" task_id to_later 9 ≡ ok (moved.0, moved.1)
unfolding moved move_task check_move lock_storage_quota account_limits_for_update resolve plan_move
    locked_task_for_agent moved_status apply_task_status valid_status mover_is_live
    active_agent_assignment valid_uuid parent_calls locked_bucket position_of ids_where
    remove_task_ids insert_task_ids write_task_order relocated write_move sort_by trim_space
moved-ok = refl

running-Accounted : Accounted running "ann"
running-Accounted = record { count = refl; bytes = refl }

lists-IsKeyed : IsKeyed (λ b. b.id) running.buckets
lists-IsKeyed k = ground (arith, text_iff "inbox" k, text_iff "later" k, apart)
  where
    apart : "inbox" ≡ k → "later" ≡ k → ⊥
    apart a b = cc ((text_iff "inbox" "later").1 (a ∙ sym b))

is_housed-move_task_example :
    All (λ x. is_housed moved.1.buckets x ≡ true) moved.1.tasks
    × (map (owner_from_list moved.1.buckets) moved.1.tasks ≡ moved.1.tasks)
is_housed-move_task_example =
    is_housed-move_task running "ann" task_id to_later 9 moved.0 moved.1 running-IsKeyed
      lists-IsKeyed ((λ h. cc h), tt) (refl, tt) moved-ok

running-Balanced : Balanced running
running-Balanced = (running-IsKeyed, balanced)
  where
    balanced : (u : String) → Accounted running u
    balanced u = record {
      count = ground (arith, text_iff u "ann", text_iff "ann" u);
      bytes = ground (arith, text_iff u "ann", text_iff "ann" u);
    }

-- The move, an order of the list that the task then is in, and a move of a task that is not there.
abbrev moves : List TaskCall
moves =
    relocate "ann" task_id to_later 9
    ∷ order_list "ann" "later" (task_id ∷ []) 10
    ∷ relocate "ann" "gone" to_later 11
    ∷ []

follow_all-Balanced_example : Balanced (follow_all moves running)
follow_all-Balanced_example = follow_all-Balanced moves running running-Balanced
