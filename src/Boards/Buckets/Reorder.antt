-- ===== src/Boards/Buckets/Reorder.antt =====
-- ReorderBuckets of server/internal/boards/store.go.
pub mod Order
pub mod Outcome
use slate_do.Prelude.{
  ℕ, zero, suc, ◌+◌, String, ◌≡◌, Bool, true, false, not, ◌&&◌, ◌||◌, Option, none, some, List, [],
  ◌∷◌, ◌++◌, map, ◌==◌, string_eq, keep, any, update_where, if◌then◌else◌, Result, ok, err,
  refuse_if, ◌>>=◌, ◌>>◌,
}
use slate_do.Prelude.Int.{ℤ, pos}
use slate_do.Boards.Types.{Bucket, Error, Store, invalid_data}
use slate_do.Boards.Database.{Database, account_limits_for_update}
use slate_do.Boards.Buckets.{ordered_buckets}
use slate_do.Boards.Buckets.Change.{named}

-- Membership in a set of IDs, which the source keeps as a map to true.
abbrev pub has : List String → String → Bool
has ids id = any (λ other. other == id) ids

-- The loop over the asked order: each ID is an existing list's, and is new to `seen`.
unfoldable pub check_order : List String → List String → List String → Store (List String)
check_order existing seen [] = ok seen
check_order existing seen (id ∷ ids) = do
  refuse_if (not (has existing id) || has seen id)
      (invalid_data "list order contains an unknown or duplicate list")
  check_order existing (id ∷ seen) ids

-- `UPDATE buckets SET sort_order = $1 WHERE user_id = $2 AND id = $3`, from a position on.
unfoldable pub write_order : String → ℕ → ℕ → List String → List Bucket → List Bucket
write_order user_id now i [] buckets = buckets
write_order user_id now i (id ∷ ids) buckets = write_order user_id now (suc i) ids (
    update_where (named user_id id) (λ b. record b { sort_order = pos i; updated_at = now })
      buckets)

-- `ReorderBuckets`: the asked lists first, then the others in the order that they had.
unfoldable pub reorder_buckets : Database → String → List String → ℕ → Store Database
reorder_buckets db user_id ids now = do
  limits ← account_limits_for_update db user_id
  let existing_order = map (λ b. b.id) (ordered_buckets db user_id)
  seen ← check_order existing_order [] ids
  let ordered = ids ++ keep (λ id. not (has seen id)) existing_order
  ok (record db { buckets = write_order user_id now 0 ordered db.buckets })
