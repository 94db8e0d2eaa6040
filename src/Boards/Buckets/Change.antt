-- ===== src/Boards/Buckets/Change.antt =====
-- UpdateBucket, DeleteBucket and SeedDefaultLists of server/internal/boards/store.go.
use slate_do.Prelude.{
  ℕ, zero, suc, String, Bool, true, false, not, ◌&&◌, ◌||◌, Option, none, some, List, [], ◌∷◌, ◌==◌,
  string_eq, nat_eq, keep, any, update_where, count_where, sum_where, length, if◌then◌else◌, ok,
  err, refuse_if, ◌>>=◌, ◌>>◌, ltb,
}
use slate_do.Prelude.Int.{pos, ltb_ℤ, negate}
use slate_do.Entitlements.{pro_limits}
use slate_do.Boards.Types.{
  Bucket, Task, Error, Store, invalid_data, CreateBucketInput, UpdateBucketInput,
}
use slate_do.Boards.Validation.{clean, valid_list_color}
use slate_do.Boards.Database.{Database, locked_bucket, stored_bytes}
use slate_do.Boards.Quota.{lock_storage_quota, apply}
use slate_do.Boards.Buckets.{owned, release_inbox_marker, ensure_inbox_survives, create_bucket}

abbrev pub or_else {ℓ} : {A : Type ℓ} → Option A → A → A
or_else none a = a
or_else (some b) a = b

abbrev pub cleaned : Option String → Option String
cleaned none = none
cleaned (some s) = some (clean s)

-- The row with the fields that the input gives.
abbrev pub merged : Bucket → UpdateBucketInput → Bucket
merged b input = record b {
  name = or_else (cleaned input.name) b.name;
  goal = or_else (cleaned input.goal) b.goal;
  color = or_else (cleaned input.color) b.color;
  limit_count = or_else input.limit_count b.limit_count;
  is_inbox = or_else input.is_inbox b.is_inbox;
  sort_order = or_else input.sort_order b.sort_order;
}

-- The two tests of `UpdateBucket` on the Inbox marker: it is not given up, and not held twice.
unfoldable pub marker_may_move : Database → String → Bucket → Bucket → Store (Unit {0})
marker_may_move db user_id was current =
    if was.is_inbox && not current.is_inbox
    then ensure_inbox_survives db user_id current.id
    else ok tt

unfoldable pub release_for : Database → String → Bucket → Bucket → ℕ → Database
release_for db user_id was current now =
    if not was.is_inbox && current.is_inbox
    then release_inbox_marker db user_id current.id now
    else db

abbrev pub named : String → String → Bucket → Bool
named user_id id b = b.user_id == user_id && b.id == id

-- The columns that `UpdateBucket` writes.
abbrev pub rewritten : Bucket → ℕ → Bucket → Bucket
rewritten current now b = record b {
  name = current.name;
  goal = current.goal;
  color = current.color;
  limit_count = current.limit_count;
  is_inbox = current.is_inbox;
  sort_order = current.sort_order;
  updated_at = now;
}

unfoldable pub write_bucket : Database → String → String → Bucket → ℕ → Database
write_bucket db user_id id current now = record db {
  buckets = update_where (named user_id id) (rewritten current now) db.buckets;
}

-- `UpdateBucket`
unfoldable pub update_bucket :
    Database → String → String → UpdateBucketInput → ℕ → Store (Bucket × Database)
update_bucket db0 user_id id input now = do
  (quota, db) ← lock_storage_quota db0 user_id
  was ← locked_bucket db user_id id
  let current = merged was input
  refuse_if (current.name == "") (invalid_data "bucket name is required")
  refuse_if (ltb_ℤ current.limit_count (pos 1)) (invalid_data "bucket limit must be positive")
  refuse_if (not (valid_list_color current.color)) (invalid_data "invalid list color")
  marker_may_move db user_id was current
  let released = release_for db user_id was current now
  ok (record current { updated_at = now }, write_bucket released user_id id current now)

-- The rows that a recursive query or a cascade reaches from a seed: the children of what it has.
unfoldable pub cascade : ℕ → List Task → (Task → Bool) → Task → Bool
cascade zero tasks seed t = seed t
cascade (suc n) tasks seed t =
    seed t || any (λ parent. parent.id == t.parent_task_id && cascade n tasks seed parent) tasks

-- `DELETE FROM tasks` with its cascade: the doomed tasks and their entries; an idempotency key
-- outlives its task.
unfoldable pub delete_tasks : Database → (Task → Bool) → Database
delete_tasks db doomed = record db {
  tasks = keep (λ t. not (doomed t)) db.tasks;
  entries = keep (λ e. not (any (λ t. doomed t && t.id == e.task_id) db.tasks)) db.entries;
  keys =
      update_where (λ k. any (λ t. doomed t && t.id == k.task_id) db.tasks)
        (λ k. record k { task_id = "" }) db.keys;
}

-- `lockedBucketTaskStorage`: a chain of parents is no longer than the table.
abbrev pub in_bucket : Database → String → Task → Bool
in_bucket db bucket_id = cascade (length db.tasks) db.tasks (λ t. t.bucket_id == bucket_id)

-- `DeleteBucket`
unfoldable pub delete_bucket : Database → String → String → Store Database
delete_bucket db0 user_id id = do
  (quota, db) ← lock_storage_quota db0 user_id
  bucket ← locked_bucket db user_id id
  if bucket.is_inbox then ensure_inbox_survives db user_id bucket.id else ok tt
  let doomed = in_bucket db bucket.id
  let tasks = count_where doomed db.tasks
  let bytes = sum_where doomed (stored_bytes db.entries) db.tasks
  counted ← apply quota db (negate tasks) (negate bytes)
  let emptied = delete_tasks counted doomed
  ok (record emptied { buckets = keep (λ b. not (b.id == bucket.id)) emptied.buckets })

default_bucket : String → String → Bool → CreateBucketInput
default_bucket name goal is_inbox = record {
  name = name;
  goal = goal;
  color = "";
  limit_count = pos pro_limits.active_items_per_list;
  is_inbox = is_inbox;
}

-- `defaultBuckets`
unfoldable pub default_buckets : List CreateBucketInput
unfolding default_bucket
default_buckets =
    default_bucket "Inbox" "Capture now, organise later" true
    ∷ default_bucket "Product" "Make the thing more useful" false
    ∷ default_bucket "Content" "Publish work that teaches or helps" false
    ∷ default_bucket "Growth" "Reach and serve more people" false
    ∷ default_bucket "Operations" "Keep everything running smoothly" false
    ∷ []

-- One transaction for each list, with the IDs that the database draws; a failed one ends the loop.
unfoldable pub create_all :
    List CreateBucketInput → Database → String → ℕ → (ℕ → String) → Option Error × Database
create_all [] db user_id now ids = (none, db)
create_all (input ∷ rest) db user_id now ids = elim (create_bucket db user_id input now (ids 0)) [
  | err e ↦ (some e, db)
  | ok made ↦ create_all rest made.1 user_id now (λ n. ids (suc n))
]

-- `SeedDefaultLists`
unfoldable pub seed_default_lists : Database → String → ℕ → (ℕ → String) → Option Error × Database
unfolding create_all
seed_default_lists db user_id now ids =
    if ltb 0 (count_where (owned user_id) db.buckets)
    then (none, db)
    else create_all default_buckets db user_id now ids
