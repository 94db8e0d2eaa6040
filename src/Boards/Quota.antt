-- ===== src/Boards/Quota.antt =====
-- server/internal/boards/storage_quota.go: the counters of an account, and the check that a change
-- of them passes before it is written.
pub mod Check
use slate_do.Prelude.{
  ℕ, ◌+◌, ◌≤◌, ◌<◌, String, ◌≡◌, refl, Bool, true, not, ◌&&◌, ◌||◌, Option, none, some, List, [],
  ◌∷◌, ◌==◌, string_eq, if◌then◌else◌, Result, ok, err, ◌>>=◌, arith, ltb,
}
use slate_do.Prelude.Int.{
  is_positive, is_negative, is_zero, ℤ, pos, negsuc, ◌+ℤ◌, pos_part, neg_part, ltb_ℤ, sub_ℕ,
}
use slate_do.Entitlements.{Limits}
use slate_do.Boards.Types.{
  Error, Store, stored_task_limit, stored_content_limit, counters_negative, Task,
}
use slate_do.Boards.Database.{Database, StorageUsage, account_limits_for_update, stored_bytes}

pub record StorageQuota : Type 0 where
  pub user_id : String
  pub limits : Limits
  pub usage : StorageUsage

abbrev no_usage : StorageUsage
no_usage = record { tasks = 0; content_bytes = 0 }

-- The counters of an account; an account without a row has stored nothing.
abbrev pub usage_of : Database → String → StorageUsage
usage_of db user_id = elim (db.usage user_id) [ none ↦ no_usage | some u ↦ u ]

-- `UPDATE account_storage_usage`, and the INSERT of a row that is missing.
abbrev pub set_usage : Database → String → StorageUsage → Database
set_usage db user_id u = record db {
  usage = λ other. if user_id == other then some u else db.usage other;
}

-- `lockStorageQuota`: the row is inserted if it is missing, then read.
unfoldable pub lock_storage_quota : Database → String → Store (StorageQuota × Database)
lock_storage_quota db user_id = do
  limits ← account_limits_for_update db user_id
  let usage = usage_of db user_id
  ok (record { user_id = user_id; limits = limits; usage = usage }, set_usage db user_id usage)

-- `storageQuota.apply`
unfoldable pub apply : StorageQuota → Database → ℤ → ℤ → Store Database
apply q db task_delta content_delta =
    let tasks = pos q.usage.tasks +ℤ task_delta in
    let bytes = pos q.usage.content_bytes +ℤ content_delta in
    if is_zero task_delta && is_zero content_delta
    then ok db
    else if is_positive task_delta && ltb_ℤ (pos q.limits.stored_tasks) tasks
    then err (stored_task_limit q.usage.tasks q.limits.stored_tasks)
    else if is_positive content_delta && ltb_ℤ (pos q.limits.stored_content_bytes) bytes
    then err (stored_content_limit q.usage.content_bytes q.limits.stored_content_bytes)
    else if is_negative tasks || is_negative bytes
    then err (counters_negative q.user_id)
    else ok
        (set_usage db q.user_id (record { tasks = pos_part tasks; content_bytes = pos_part bytes }))
