-- ===== src/Boards/Buckets.antt =====
-- The list (bucket) operations of server/internal/boards/store.go: SeedDefaultLists,
-- EnsureInboxBucketID, CreateBucket, UpdateBucket, DeleteBucket and ReorderBuckets. The time of a
-- transaction and the ID that the database draws for a new row are arguments.
pub mod Change
pub mod Inbox
pub mod Marker
pub mod Removal
pub mod Repair
pub mod Reorder
pub mod History
use slate_do.Prelude.{
  ℕ, zero, suc, ◌+◌, String, ◌≡◌, Bool, true, false, not, ◌&&◌, ◌||◌, Option, none, some, List, [],
  ◌∷◌, ◌++◌, map, ◌==◌, string_eq, find, keep, any, update_where, count_where, sum_where, length,
  if◌then◌else◌, leb, Result, ok, err, or_fail, refuse_if, ◌>>=◌, ◌>>◌, nat_eq,
}
use slate_do.Prelude.Int.{ℤ, pos, ◌+ℤ◌, ltb_ℤ, is_zero, negate}
use slate_do.Prelude.Sort.{sort_by, text_ltb}
use slate_do.Prelude.{ltb}
use slate_do.Entitlements.{Limits, pro_limits}
use slate_do.Boards.Types.{
  Bucket, Task, Entry, Error, Store, not_found, list_limit, invalid_data, CreateBucketInput,
  UpdateBucketInput,
}
use slate_do.Boards.Validation.{clean, valid_list_color, list_color_slate}
use slate_do.Boards.Database.{Database, account_limits_for_update, locked_bucket, stored_bytes}
use slate_do.Boards.Quota.{StorageQuota, lock_storage_quota, apply}

abbrev pub owned : String → Bucket → Bool
owned user_id b = b.user_id == user_id

abbrev pub is_inbox_of : String → Bucket → Bool
is_inbox_of user_id b = b.user_id == user_id && b.is_inbox

-- `COALESCE(max(sort_order) + 1, 0)`
max_order : List ℤ → Option ℤ
max_order [] = none
max_order (x ∷ xs) = elim (max_order xs) [
  | none ↦ some x
  | some m ↦ some (if ltb_ℤ x m then m else x)
]

unfoldable pub next_sort_order : List ℤ → ℤ
unfolding max_order
next_sort_order xs = elim (max_order xs) [ none ↦ pos 0 | some m ↦ m +ℤ pos 1 ]

-- `ORDER BY sort_order, created_at, id`
abbrev pub in_order : (ℤ × ℕ × String) → (ℤ × ℕ × String) → Bool
in_order a b =
    ltb_ℤ a.0 b.0 || (not (ltb_ℤ b.0 a.0) && (ltb a.1 b.1 || (a.1 == b.1 && text_ltb a.2 b.2)))

abbrev pub sorts_before : Bucket → Bucket → Bool
sorts_before a b = in_order (a.sort_order, a.created_at, a.id) (b.sort_order, b.created_at, b.id)

unfoldable pub ordered_buckets : Database → String → List Bucket
ordered_buckets db user_id = sort_by sorts_before (keep (owned user_id) db.buckets)

-- An Inbox of the account, the excepted list aside.
abbrev pub other_inbox : String → String → Bucket → Bool
other_inbox user_id except b = is_inbox_of user_id b && (except == "" || not (b.id == except))

abbrev pub unmarked : ℕ → Bucket → Bucket
unmarked now b = record b { is_inbox = false; updated_at = now }

-- `releaseInboxMarker`
unfoldable pub release_inbox_marker : Database → String → String → ℕ → Database
release_inbox_marker db user_id except now = record db {
  buckets = update_where (other_inbox user_id except) (unmarked now) db.buckets;
}

-- `ensureInboxSurvives`
unfoldable pub ensure_inbox_survives : Database → String → String → Store (Unit {0})
ensure_inbox_survives db user_id excluded =
    refuse_if (not (any (other_inbox user_id excluded) db.buckets))
      (invalid_data "the account must keep an Inbox list")

unfoldable pub inbox_row : String → String → ℤ → ℕ → Bucket
inbox_row user_id id limit now = record {
  id = id;
  user_id = user_id;
  name = "Inbox";
  goal = "Capture now, organise later";
  color = list_color_slate;
  is_inbox = true;
  limit_count = limit;
  sort_order = pos 0;
  created_at = now;
  updated_at = now;
}

abbrev pub marked : ℕ → Bucket → Bucket
marked now b = record b { is_inbox = true; updated_at = now }

head : {A : Type 0} → List A → Option A
head [] = none
head (x ∷ xs) = some x

-- `ensureInboxBucketID`: the Inbox, or else the first list is marked, or else one is made.
unfoldable pub ensure_inbox_bucket_id : Database → String → ℕ → String → Store (String × Database)
unfolding head inbox_row
ensure_inbox_bucket_id db user_id now id = do
  limits ← account_limits_for_update db user_id
  elim (find (is_inbox_of user_id) db.buckets) [
    | some inbox ↦ ok (inbox.id, db)
    | none ↦ elim (head (ordered_buckets db user_id)) [
      | some first ↦ ok (
        first.id,
        record db {
          buckets =
              update_where (λ b. b.id == first.id)
                (λ b. record b { is_inbox = true; updated_at = now }) db.buckets;
        },
      )
      | none ↦ ok (
        id,
        record db {
          buckets =
              db.buckets ++ inbox_row user_id id (pos pro_limits.active_items_per_list) now ∷ [];
        },
      )
    ]
  ]

abbrev default_limit : ℤ → ℤ
default_limit limit = if is_zero limit then pos 5 else limit

abbrev default_color : String → String
default_color color = if color == "" then list_color_slate else color

-- `CreateBucket`
unfoldable pub create_bucket :
    Database → String → CreateBucketInput → ℕ → String → Store (Bucket × Database)
create_bucket db user_id input now id = do
  let name = clean input.name
  refuse_if (name == "") (invalid_data "bucket name is required")
  let limit = default_limit input.limit_count
  refuse_if (ltb_ℤ limit (pos 1)) (invalid_data "bucket limit must be positive")
  let color = default_color (clean input.color)
  refuse_if (not (valid_list_color color)) (invalid_data "invalid list color")
  limits ← account_limits_for_update db user_id
  refuse_if (leb limits.lists (count_where (owned user_id) db.buckets)) list_limit
  let released = if input.is_inbox then release_inbox_marker db user_id "" now else db
  let bucket : Bucket = record {
    id = id;
    user_id = user_id;
    name = name;
    goal = input.goal;
    color = color;
    is_inbox = input.is_inbox;
    limit_count = limit;
    sort_order = next_sort_order (map (λ b. b.sort_order) (keep (owned user_id) db.buckets));
    created_at = now;
    updated_at = now;
  }
  ok (bucket, record released { buckets = released.buckets ++ bucket ∷ [] })
