-- ===== src/Boards/Examples.antt =====
-- A small database for runs of the board store.
mod Tasks
mod Lists
mod Moves
mod Creation
mod Deletion
mod Orders
use slate_do.Prelude.{
  ℕ, ◌≤◌, String, ◌≡◌, ◌≢◌, refl, Bool, true, false, not, ◌&&◌, Option, none, some, List, [], ◌∷◌,
  ◌==◌, string_eq, find, keep, if◌then◌else◌, Result, ok, err, arith, text_iff,
}
use slate_do.Prelude.Int.{ℤ, pos}
use slate_do.Prelude.Keyed.{IsKeyed}
use slate_do.Boards.Types.{
  Bucket, Task, Entry, TaskEntry, Status, fresh, queued, working, needs_review, action, unset,
  Store, UpdateTaskInput, CreateTaskEntryInput, CreateBucketInput, Kind, Priority,
}
use slate_do.Boards.Database.{Database, Account, StorageUsage, Agent, locked_task_for_agent}
use slate_do.Boards.Validation.{clean, valid_uuid}
use slate_do.Boards.Tasks.Claim.{claim_task}
use slate_do.Boards.Tasks.Claim.Exclusive.{
  Claimer, claims, wins, claims-exclusive, claim_task-Claimed, Claimed,
}
use slate_do.Prelude.Text.{trim_space}
use slate_do.Prelude.Sort.{sort_by}
use slate_do.Boards.Validation.{
  valid_date, valid_status, valid_priority, valid_kind, apply_task_status,
}
use slate_do.Boards.Database.{account_limits_for_update, locked_bucket, active_agent_assignment}
use slate_do.Boards.Quota.{StorageQuota, lock_storage_quota, apply, usage_of}
use slate_do.Boards.Quota.Check.{Fits, Counted, SameRows, apply_exact}
use slate_do.Boards.Tasks.Update.{
  managed_run_fence, with_content, move_to, relisted, with_workflow, settled_status, agent_is_live,
  capacity_checked, rewritten, rearranged, revised, write_task, save_task, update_task,
  update_task_for_agent, parent_allows,
}
use slate_do.Boards.Tasks.Update.Fence.{AgentUpdate, update_task_for_agent-AgentUpdate}
use slate_do.Boards.Tasks.Update.Outcome.{Sound, update_task-Sound}
use slate_do.Boards.Tasks.Update.Written.{addressed}
use slate_do.Boards.Tasks.Entries.{
  Request, prepare_entry, replay, run_fence, author_name_of, send_to_review, add_entry,
  create_task_entry,
}
use slate_do.Boards.Tasks.Entries.Replay.{Again, create_task_entry-replayed}
use slate_do.Boards.Tasks.Accounting.{Accounted}
use slate_do.Boards.Tasks.Accounting.Updates.{update_task-Accounted}
use slate_do.Boards.Tasks.Accounting.Additions.{add_entry-Accounted}
use slate_do.Boards.Tasks.Positions.{ids_where, remove_task_ids, insert_task_ids, write_task_order}
use slate_do.Entitlements.{resolve}

abbrev pub list_row : String → Bool → ℕ → Bucket
list_row id is_inbox position = record {
  id = id;
  user_id = "ann";
  name = id;
  goal = "";
  color = "slate";
  is_inbox = is_inbox;
  limit_count = pos 5;
  sort_order = pos position;
  created_at = position;
  updated_at = position;
}

abbrev pub task_id : String
task_id = "0b9a8c7d-1234-4abc-8def-0123456789ab"

abbrev pub agent_id : String
agent_id = "1b9a8c7d-1234-4abc-8def-0123456789ab"

abbrev pub run_id : String
run_id = "2b9a8c7d-1234-4abc-8def-0123456789ab"

abbrev pub task_row : Status → String → Task
task_row status run = record {
  id = task_id;
  bucket_id = "inbox";
  owner_user_id = "ann";
  title = "Write";
  description = "";
  scheduled_date = "";
  kind = action;
  status = status;
  priority = unset;
  assignee_agent_id = agent_id;
  execution_run_id = run;
  review_reason = "";
  parent_task_id = "";
  sort_order = pos 0;
  created_at = 1;
  updated_at = 1;
}

-- An account with two lists, an agent and one task.
abbrev pub small : Task → Database
small t = record {
  users = λ u. some (record { role = "user"; plan = "pro"; source = "stripe"; disabled = false });
  usage = λ u. if u == "ann" then some (record { tasks = 1; content_bytes = 5 }) else none;
  agents = record { id = agent_id; owner_user_id = "ann"; name = "Bot"; archived = false } ∷ [];
  buckets = list_row "inbox" true 0 ∷ list_row "later" false 1 ∷ [];
  tasks = t ∷ [];
  entries = [];
  keys = [];
}

abbrev pub waiting : Database
waiting = small (task_row queued "")

abbrev pub running : Database
running = small (task_row working run_id)

pub waiting-IsKeyed : IsKeyed (λ t. t.id) waiting.tasks
waiting-IsKeyed k = ground arith

pub running-IsKeyed : IsKeyed (λ t. t.id) running.tasks
running-IsKeyed k = ground arith

-- The answer of a call that succeeds.
abbrev pub got {ℓ} : {A : Type ℓ} → Store A → A → A
got (ok a) other = a
got (err e) other = other
