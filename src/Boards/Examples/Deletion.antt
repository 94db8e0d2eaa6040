-- ===== src/Boards/Examples/Deletion.antt =====
-- A run of a deletion: the theorem's hypotheses hold there.
use slate_do.Prelude.{
  String, ◌≡◌, refl, none, some, [], ◌∷◌, ok, if◌then◌else◌, ◌==◌, string_eq, arith, text_iff, sym,
  ◌∙◌,
}
use slate_do.Prelude.Keyed.{IsKeyed}
use slate_do.Boards.Types.{working}
use slate_do.Boards.Database.{Database, account_limits_for_update, locked_task_for_agent}
use slate_do.Boards.Quota.{lock_storage_quota, apply}
use slate_do.Boards.Buckets.Change.{cascade, delete_tasks}
use slate_do.Boards.Tasks.Delete.{delete_task}
use slate_do.Boards.Tasks.Accounting.{Accounted}
use slate_do.Boards.Tasks.Accounting.Removals.{delete_task-Accounted}
use slate_do.Entitlements.{resolve}
use slate_do.Boards.Examples.{task_id, run_id, task_row, running, got}

-- A task with a subtask.
abbrev family : Database
family = record running {
  usage = λ u. if u == "ann" then some (record { tasks = 2; content_bytes = 10 }) else none;
  tasks =
      task_row working run_id
      ∷ record (task_row working "") { id = "part"; parent_task_id = task_id }
      ∷ [];
}

apart : (k : String) → task_id ≡ k → "part" ≡ k → ⊥
apart k a b = cc ((text_iff task_id "part").1 (a ∙ sym b))

family-IsKeyed : IsKeyed (λ t. t.id) family.tasks
family-IsKeyed k = ground (arith, text_iff task_id k, text_iff "part" k, apart k)

deleted : Database
unfolding delete_task lock_storage_quota account_limits_for_update resolve locked_task_for_agent
    apply delete_tasks cascade
deleted = got (delete_task family "ann" task_id) running

deleted-ok : delete_task family "ann" task_id ≡ ok deleted
unfolding deleted delete_task lock_storage_quota account_limits_for_update resolve
    locked_task_for_agent apply delete_tasks cascade
deleted-ok = refl

family-Accounted : Accounted family "ann"
family-Accounted = record { count = refl; bytes = refl }

delete_task-Accounted_example : Accounted deleted "ann"
delete_task-Accounted_example =
    delete_task-Accounted family "ann" task_id deleted "ann" family-IsKeyed refl
      (((λ h. refl, (λ h. refl, tt)), ((λ h. cc h, (λ h. refl, tt)), tt)))
      (λ h. refl, (λ h. refl, tt)) deleted-ok family-Accounted
