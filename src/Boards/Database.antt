-- ===== src/Boards/Database.antt =====
-- The tables that the board store reads and writes, and the statements that several operations of
-- server/internal/boards/store.go share. A transaction that fails leaves the database as it was, so
-- an operation is a function from a database to an error, or to a new database and its answer.
-- Row locks order concurrent transactions; each operation runs here on what it has locked.
use slate_do.Prelude.{
  ℕ, ◌+◌, String, len, Bool, true, not, ◌&&◌, Option, none, some, List, ◌==◌, string_eq, find,
  sum_where, if◌then◌else◌, ok, err, or_fail, refuse_if, ◌>>=◌, ◌>>◌,
}
use slate_do.Entitlements.{Limits, resolve}
use slate_do.Boards.Types.{Bucket, Task, Entry, Store, not_found, invalid_data}
use slate_do.Boards.Validation.{clean, valid_uuid}

-- A row of `users` joined with its row of `entitlements`.
pub record Account : Type 0 where
  pub role : String
  pub plan : String
  pub source : String
  pub disabled : Bool

-- A row of `account_storage_usage`.
pub record StorageUsage : Type 0 where
  pub tasks : ℕ
  pub content_bytes : ℕ

pub record Agent : Type 0 where
  pub id : String
  pub owner_user_id : String
  pub name : String
  pub archived : Bool

-- A row of `task_idempotency_keys`.
pub record IdempotencyKey : Type 0 where
  pub user_id : String
  pub key : String
  pub request_hash : String
  pub task_id : String
  pub request_data_hash : String

pub record Database : Type 0 where
  pub users : String → Option Account
  pub usage : String → Option StorageUsage
  pub agents : List Agent
  pub buckets : List Bucket
  pub tasks : List Task
  pub entries : List Entry
  pub keys : List IdempotencyKey

-- `accountLimitsForUpdate`
unfoldable pub account_limits_for_update : Database → String → Store Limits
account_limits_for_update db user_id = elim (db.users user_id) [
  | none ↦ err not_found
  | some a ↦ if a.disabled then err not_found else ok (resolve a.role a.plan a.source).limits
]

-- `lockedBucket`
unfoldable pub locked_bucket : Database → String → String → Store Bucket
locked_bucket db user_id id =
    or_fail (find (λ b. b.user_id == user_id && b.id == id) db.buckets) not_found

-- The condition that is added for an agent's credential; without an agent there is none.
abbrev pub assigned_to : String → Task → Bool
assigned_to agent_id t = if agent_id == "" then true else t.assignee_agent_id == agent_id

-- `lockedTaskForAgent`: an empty agent ID asks for no agent.
unfoldable pub locked_task_for_agent : Database → String → String → String → Store Task
locked_task_for_agent db user_id agent_id id =
    or_fail
      (find (λ t. t.owner_user_id == user_id && t.id == id && assigned_to agent_id t) db.tasks)
      not_found

-- `lockedTask`
abbrev pub locked_task : Database → String → String → Store Task
locked_task db user_id id = locked_task_for_agent db user_id "" id

abbrev active : String → String → Agent → Bool
active user_id id a = a.owner_user_id == user_id && a.id == id && not a.archived

-- `activeAgentAssignment`
unfoldable pub active_agent_assignment : Database → String → String → Store String
active_agent_assignment db user_id agent_id = if clean agent_id == "" then ok "" else do
  refuse_if (not (valid_uuid (clean agent_id))) (invalid_data "agent assignee not found")
  agent ←
      or_fail (find (active user_id (clean agent_id)) db.agents)
        (invalid_data "agent assignee not found")
  ok agent.id

-- `taskContentBytes`, and the column `storage_bytes`
abbrev pub task_content_bytes : Task → ℕ
task_content_bytes t = len t.title + len t.description

-- The bytes of a task's entries, from a list of entries.
abbrev pub entry_bytes : List Entry → String → ℕ
entry_bytes entries task_id = sum_where (λ e. e.task_id == task_id) (λ e. len e.body) entries

-- What a task counts for in its account's quota: its text and its entries' bodies.
abbrev pub stored_bytes : List Entry → Task → ℕ
stored_bytes entries t = task_content_bytes t + entry_bytes entries t.id
