-- ===== src/Boards/Tasks/Claim.antt =====
-- ClaimTask, ClaimTaskForAgent and ClaimTaskForManagedRun of server/internal/boards/store.go.
pub mod Exclusive
use slate_do.Prelude.{
  ℕ, String, ◌≡◌, Bool, not, ◌&&◌, Option, none, some, ◌==◌, string_eq, find, update_where,
  if◌then◌else◌, ok, err, or_fail, refuse_if, ◌>>=◌, ◌>>◌,
}
use slate_do.Boards.Types.{
  Task, Status, queued, working, status_eq, Store, task_unavailable, invalid_data,
}
use slate_do.Boards.Validation.{valid_uuid, is_action}
use slate_do.Boards.Database.{Database, assigned_to}

-- The WHERE clause of the claim.
abbrev pub claimable : String → String → String → Task → Bool
claimable user_id agent_id id t =
    t.owner_user_id == user_id
    && t.id == id
    && is_action t.kind
    && t.status == queued
    && assigned_to agent_id t

-- The SET clause of the claim.
abbrev pub claimed_by : String → ℕ → Task → Task
claimed_by run_id now t = record t {
  status = working;
  review_reason = "";
  execution_run_id = run_id;
  updated_at = now;
}

-- `claimTask`: one UPDATE, which finds its row and writes it in one step. An ID is a primary key,
-- so at most one row matches.
unfoldable pub claim_task :
    Database → String → String → String → String → ℕ → Store (Task × Database)
claim_task db user_id agent_id id run_id now = do
  task ← or_fail (find (claimable user_id agent_id id) db.tasks) task_unavailable
  ok (
    claimed_by run_id now task,
    record db {
      tasks = update_where (claimable user_id agent_id id) (claimed_by run_id now) db.tasks;
    },
  )

-- `ClaimTaskForManagedRun`
unfoldable pub claim_task_for_managed_run :
    Database → String → String → String → String → ℕ → Store (Task × Database)
claim_task_for_managed_run db user_id agent_id id run_id now = do
  refuse_if (not (valid_uuid run_id)) (invalid_data "run ID must be a valid ID")
  claim_task db user_id agent_id id run_id now
