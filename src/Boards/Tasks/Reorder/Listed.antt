-- ===== src/Boards/Tasks/Reorder/Listed.antt =====
-- What ReorderTasks of server/internal/boards/store.go makes of each row, against a description
-- that has no loop of updates.
use slate_do.Prelude.{
  ℕ, suc, String, ◌≡◌, refl, Bool, true, false, ◌&&◌, Option, none, some, List, [], ◌∷◌, map, ◌==◌,
  string_eq, any, update_where, if◌then◌else◌, ok, err, ◌>>=◌, arith, text_iff, Bool-cases, inl,
  inr, ◌∙◌, ap,
}
use slate_do.Boards.Types.{Bucket, Task, Store, not_found}
use slate_do.Boards.Database.{Database, locked_bucket}
use slate_do.Boards.Quota.{StorageQuota, lock_storage_quota}
use slate_do.Boards.Tasks.Reorder.{in_list, set_place, place_tasks, reorder_tasks}

-- The position of an ID's last mention, counted from a position on.
unfoldable pub last_position : ℕ → List String → String → Option ℕ
last_position i [] k = none
last_position i (id ∷ ids) k = elim (last_position (suc i) ids k) [
  | some j ↦ some j
  | none ↦ if id == k then some i else none
]

-- A row after the request: the list's own rows stand where they are mentioned last.
unfoldable pub listed : String → String → ℕ → ℕ → List String → Task → Task
listed user_id bucket_id now i ids t =
    if t.owner_user_id == user_id && t.bucket_id == bucket_id
    then (elim (last_position i ids t.id) [ none ↦ t | some j ↦ set_place now j t ])
    else t

-- Every mentioned ID is a task of the list.
unfoldable pub all_in : String → String → List String → List Task → Bool
all_in user_id bucket_id [] tasks = true
all_in user_id bucket_id (id ∷ ids) tasks =
    any (in_list user_id bucket_id id) tasks && all_in user_id bucket_id ids tasks

module _ (user_id bucket_id : String) (now : ℕ) where
  any-placed :
      (id other : String) (i : ℕ) (tasks : List Task)
      → any
          (in_list user_id bucket_id id)
          (update_where (in_list user_id bucket_id other) (set_place now i) tasks)
        ≡ any (in_list user_id bucket_id id) tasks
  any-placed id other i [] = refl
  any-placed id other i (t ∷ tasks) = elim (Bool-cases (in_list user_id bucket_id other t)) [
    | inl e ↦ rw (e, any-placed id other i tasks)
    | inr e ↦ rw (e, any-placed id other i tasks)
  ]

  all_in-placed :
      (other : String) (i : ℕ) (ids : List String) (tasks : List Task)
      → all_in user_id bucket_id ids
          (update_where (in_list user_id bucket_id other) (set_place now i) tasks)
        ≡ all_in user_id bucket_id ids tasks
  unfolding all_in
  all_in-placed other i [] tasks = refl
  all_in-placed other i (id ∷ ids) tasks =
      rw (any-placed id other i tasks, all_in-placed other i ids tasks)

  listed-step :
      (i : ℕ) (id : String) (ids : List String) (t : Task)
      → listed user_id bucket_id now
          (suc i)
          ids
          (if in_list user_id bucket_id id t then set_place now i t else t)
        ≡ listed user_id bucket_id now i (id ∷ ids) t
  unfolding listed last_position
  listed-step i id ids t = ground (arith, text_iff id t.id, text_iff t.id id)

  map-step :
      (i : ℕ) (id : String) (ids : List String) (tasks : List Task)
      → map
          (listed user_id bucket_id now (suc i) ids)
          (update_where (in_list user_id bucket_id id) (set_place now i) tasks)
        ≡ map (listed user_id bucket_id now i (id ∷ ids)) tasks
  map-step i id ids [] = refl
  map-step i id ids (t ∷ tasks) = rw (listed-step i id ids t, map-step i id ids tasks)

  map-listed_none :
      (i : ℕ) (tasks : List Task) → tasks ≡ map (listed user_id bucket_id now i []) tasks
  unfolding listed last_position
  map-listed_none i [] = refl
  map-listed_none i (t ∷ tasks) = ground (arith, map-listed_none i tasks)

  place_tasks-listed :
      (i : ℕ) (ids : List String) (tasks : List Task)
      → place_tasks user_id bucket_id now i ids tasks ≡ (
          if all_in user_id bucket_id ids tasks
          then ok (map (listed user_id bucket_id now i ids) tasks)
          else err not_found)
  unfolding place_tasks all_in
  place_tasks-listed i [] tasks = ap ok (map-listed_none i tasks)
  place_tasks-listed i (id ∷ ids) tasks =
      elim (Bool-cases (any (in_list user_id bucket_id id) tasks)) [
        | inl e ↦ rw e (
            place_tasks-listed (suc i) ids
              (update_where (in_list user_id bucket_id id) (set_place now i) tasks)
            ∙ rw (all_in-placed id i ids tasks, map-step i id ids tasks) refl)
        | inr e ↦ rw e refl
      ]

-- A reordering of a list's tasks is the one statement that its loop of updates amounts to: with
-- the account's list found and its quota locked, when each mentioned ID is a task of the list
-- every such task stands at the position of its last mention, at the new time, and all other rows
-- are as they were; a mention of any other ID refuses the whole request and leaves no trace.
pub reorder_tasks-listed :
    (db : Database) (user_id bucket_id : String) (ids : List String) (now : ℕ)
    → reorder_tasks db user_id bucket_id ids now ≡ (
        locked_bucket db user_id bucket_id >>= λ bucket. lock_storage_quota db user_id >>= λ locked.
        if all_in user_id bucket_id ids locked.1.tasks
        then ok
            (record locked.1 { tasks = map (listed user_id bucket_id now 0 ids) locked.1.tasks })
        else err not_found)
unfolding reorder_tasks
reorder_tasks-listed db user_id bucket_id ids now =
    each (locked_bucket db user_id bucket_id) (lock_storage_quota db user_id)
  where
    branch :
        (locked : Database) (b : Bool)
        → ((if b then ok (map (listed user_id bucket_id now 0 ids) locked.tasks) else err not_found)
            >>= λ tasks. ok (record locked { tasks = tasks }))
          ≡ (if b
              then ok
                  (record locked { tasks = map (listed user_id bucket_id now 0 ids) locked.tasks })
              else err not_found)
    branch locked true = refl
    branch locked false = refl

    each :
        (found : Store Bucket) (locking : Store (StorageQuota × Database))
        → (found >>= λ bucket. locking >>= λ locked.
            place_tasks user_id bucket_id now 0 ids locked.1.tasks >>= λ tasks.
            ok (record locked.1 { tasks = tasks }))
          ≡ (found >>= λ bucket. locking >>= λ locked.
              if all_in user_id bucket_id ids locked.1.tasks
              then ok (record locked.1 {
                tasks = map (listed user_id bucket_id now 0 ids) locked.1.tasks;
              })
              else err not_found)
    each (err e) locking = refl
    each (ok bucket) (err e) = refl
    each (ok bucket) (ok (quota, locked)) =
        ap (λ r. r >>= λ tasks. ok (record locked { tasks = tasks }))
          (place_tasks-listed user_id bucket_id now 0 ids locked.tasks)
        ∙ branch locked (all_in user_id bucket_id ids locked.tasks)
