-- ===== src/Boards/Tasks/Reorder/Rows.antt =====
-- Rows and orders, as ReorderSubtasks of server/internal/boards/store.go finds them: which IDs are
-- the subtasks', and which orders a row's ID is in.
use slate_do.Prelude.{
  ℕ, suc, if◌then◌else◌, ◌≤◌, String, ◌≡◌, refl, Bool, true, false, ◌&&◌, some, List, [], ◌∷◌, map,
  ◌==◌, string_eq, nat_eq, keep, find, find-test, count_where, arith, text_iff, Bool-cases, inl,
  inr, ◌∙◌, ap, All,
}
use slate_do.Prelude.Int.{ℤ, pos}
use slate_do.Prelude.Sort.{sort_by-count}
use slate_do.Prelude.Counting.{count-implies-le}
use slate_do.Prelude.Keyed.{
  IsKeyed, IsKeyed-find, find-keyed, find-of_count, count-keep-both, count-map,
}
use slate_do.Boards.Types.{Task}
use slate_do.Boards.Database.{Database}
use slate_do.Boards.Buckets.Reorder.Order.{occurs, position}
use slate_do.Boards.Tasks.Positions.{sorts_before, ids_where, ordered_all_task_ids, remove_task_ids}
use slate_do.Boards.Tasks.Update.Written.{addressed}
use slate_do.Boards.Tasks.Reorder.{subtask_of, subtasks}
use slate_do.Boards.Tasks.Reorder.Places.{has_id}
use slate_do.Boards.Tasks.Reorder.Repaired.{occurs-removed}

-- A subtask in its parent's list, at a position.
abbrev pub seat : String → ℕ → ℕ → Task → Task
seat home i now t = record t {
  bucket_id = home;
  sort_order = pos i;
  updated_at = if t.bucket_id == home then t.updated_at else now;
}

-- The rows after a request: the asked IDs are those of the parent's subtasks, and stand one after
-- the other behind the parent.
pub record Gathered (user_id parent_id : String) (ids : List String) (now : ℕ)
    (tasks after : List Task) : Type 0 where
  pub parent : Task
  pub found : find (addressed user_id "" parent_id) tasks ≡ some parent
  pub top_level : parent.parent_task_id ≡ ""
  pub every :
      (k : String) → occurs ids k ≡ occurs (map (λ t. t.id) (subtasks tasks user_id parent.id)) k
  pub place : ℕ
  pub parent_at : find (has_id parent.id) after ≡ some (record parent { sort_order = pos place })
  pub behind :
      (k : String) (i : ℕ)
      → position (suc place) ids k ≡ some i
      → (t : Task) × (find (has_id k) tasks ≡ some t)
        × (subtask_of user_id parent.id t ≡ true)
        × (find (has_id k) after ≡ some (seat parent.bucket_id i now t))
  pub others :
      (k : String) (t : Task)
      → find (has_id k) tasks ≡ some t
      → subtask_of user_id parent.id t ≡ false
      → (z : ℤ) × (find (has_id k) after ≡ some (record t { sort_order = z }))

pub child_ids-occurs :
    (tasks : List Task) (user_id parent_id k : String)
    → occurs (map (λ t. t.id) (subtasks tasks user_id parent_id)) k
      ≡ count_where (λ t. subtask_of user_id parent_id t && t.id == k) tasks
unfolding subtasks
child_ids-occurs tasks user_id parent_id k =
    count-map (λ (t : Task). t.id) (λ id. id == k) (subtasks tasks user_id parent_id)
    ∙ sort_by-count sorts_before (λ t. t.id == k) (keep (subtask_of user_id parent_id) tasks)
    ∙ count-keep-both (λ t. t.id == k) (subtask_of user_id parent_id) tasks

pub ids_where-occurs :
    (db : Database) (p : Task → Bool) (k : String)
    → occurs (ids_where db p) k ≡ count_where (λ t. p t && t.id == k) db.tasks
unfolding ids_where
ids_where-occurs db p k =
    count-map (λ (t : Task). t.id) (λ id. id == k) _
    ∙ sort_by-count sorts_before (λ t. t.id == k) (keep p db.tasks)
    ∙ count-keep-both (λ t. t.id == k) p db.tasks

pub among :
    (p : Task → Bool) (k : String) (tasks : List Task)
    → IsKeyed (λ t. t.id) tasks
    → count_where (λ t. p t && t.id == k) tasks ≤ 1
among p k tasks keyed = omega (
  arith,
  keyed k,
  count-implies-le (λ t. p t && t.id == k) (λ t. t.id == k) tasks (λ t h. ground (arith, h)),
)

-- An asked subtask is the row with its ID.
pub subtask-found :
    (tasks : List Task) (user_id parent_id k : String)
    → IsKeyed (λ t. t.id) tasks
    → 1 ≤ occurs (map (λ t. t.id) (subtasks tasks user_id parent_id)) k
    → (t : Task) × (find (has_id k) tasks ≡ some t) × (subtask_of user_id parent_id t ≡ true)
subtask-found tasks user_id parent_id k keyed one =
    let q : Task → Bool = λ t. subtask_of user_id parent_id t && t.id == k in
    let (t, found) =
      find-of_count q tasks (omega (arith, one, child_ids-occurs tasks user_id parent_id k)) in
    let test = find-test q tasks t found in
    (
      t,
      find-keyed (λ x. x.id) k q (has_id k) tasks t (keyed k) (λ x h. ground (arith, h)) (λ x h. h)
          found (ground (arith, test)),
      ground (arith, test),
    )

-- A row's ID is in no order but that of its own list.
pub elsewhere-none :
    (db : Database) (t : Task) (b : String) (removed : List String)
    → IsKeyed (λ x. x.id) db.tasks
    → find (has_id t.id) db.tasks ≡ some t
    → (b == t.bucket_id) ≡ false
    → occurs (remove_task_ids (ordered_all_task_ids db b) removed) t.id ≡ 0
elsewhere-none db t b removed keyed found away =
    let only =
      IsKeyed-find (λ x. x.id) t.id (has_id t.id) db.tasks t (keyed t.id) (λ x h. h) found in
    let none_there = zero_there db.tasks only in
    ground (
      arith,
      occurs-removed (ordered_all_task_ids db b) removed t.id,
      ids_where-occurs db (λ x. x.bucket_id == b) t.id,
      none_there,
    )
  where
    not_there :
        (x : Task) → ((x.id == t.id) ≡ true → x ≡ t) → (x.bucket_id == b && x.id == t.id) ≡ false
    not_there x same = elim (Bool-cases (x.id == t.id)) [
      | inl e ↦
          let home = ap (λ (y : Task). y.bucket_id) (same e) in
          ground (arith, away, home, text_iff x.bucket_id b, text_iff b t.bucket_id)
      | inr e ↦ ground (arith, e)
    ]

    zero_there :
        (xs : List Task)
        → All (λ x. (x.id == t.id) ≡ true → x ≡ t) xs
        → count_where (λ x. x.bucket_id == b && x.id == t.id) xs ≡ 0
    zero_there [] h = refl
    zero_there (x ∷ xs) h = ground (arith, not_there x h.0, zero_there xs h.1)
