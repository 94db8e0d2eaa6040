-- ===== src/Boards/Tasks/Move/Housed.antt =====
-- The lists that tasks stand in after MoveTask of server/internal/boards/store.go. The trigger
-- tasks_storage_usage of server/internal/migrations/046_lists_leave_boards.sql sets a task's owner
-- from its list whenever a statement names the list.
use slate_do.Prelude.{
  map, none, some, refl, ℕ, suc, String, ◌≡◌, Bool, true, ◌&&◌, List, [], ◌∷◌, ◌==◌, string_eq,
  find, find-test, any, ok, or_fail, arith, text_iff, Bool-cases, inl, inr, sym, ◌∙◌, ap, subst,
  All, All-update_where, >>=-eq-ok, ok-injective,
}
use slate_do.Prelude.Int.{pos}
use slate_do.Prelude.Counting.{All-imp, count-of_any}
use slate_do.Prelude.Keyed.{IsKeyed, IsKeyed-find, find-keyed, find-of_count}
use slate_do.Boards.Types.{Bucket, Task, idempotency_gone}
use slate_do.Boards.Validation.{clean}
use slate_do.Boards.Database.{Database}
use slate_do.Boards.Quota.{lock_storage_quota}
use slate_do.Boards.Quota.Check.{lock_storage_quota-Locked}
use slate_do.Boards.Tasks.{owned}
use slate_do.Boards.Tasks.Positions.{child_of, write_task_order}
use slate_do.Boards.Tasks.Update.Written.{addressed}
use slate_do.Boards.Tasks.Move.{
  MoveTaskInput, check_move, Plan, plan_move, restated, relocated, write_move, move_task, trimmed,
}
use slate_do.Boards.Tasks.Move.Outcome.{
  Planned, plan_move-Planned, locked_bucket-named, moved_status-kept,
}

-- A task stands in a list of the account that owns it.
abbrev pub is_housed : List Bucket → Task → Bool
is_housed buckets t = any (λ b. b.id == t.bucket_id && b.user_id == t.owner_user_id) buckets

-- What the trigger makes of a row, where the row's list is in the table.
abbrev pub owner_from_list : List Bucket → Task → Task
owner_from_list buckets t = elim (find (λ b. b.id == t.bucket_id) buckets) [
  | none ↦ t
  | some b ↦ record t { owner_user_id = b.user_id }
]

owner_from_list-housed :
    (buckets : List Bucket) (t : Task)
    → IsKeyed (λ b. b.id) buckets
    → is_housed buckets t ≡ true
    → owner_from_list buckets t ≡ t
owner_from_list-housed buckets t keyed housed =
    let q : Bucket → Bool = λ b. b.id == t.bucket_id && b.user_id == t.owner_user_id in
    let (b, hit) = find-of_count q buckets (count-of_any q buckets housed) in
    let test = find-test q buckets b hit in
    let found : find (λ x. x.id == t.bucket_id) buckets ≡ some b =
      find-keyed (λ x. x.id) t.bucket_id q (λ x. x.id == t.bucket_id) buckets b (keyed t.bucket_id)
        (λ x p. ground (arith, p)) (λ x p. p) hit (ground (arith, test)) in
    let own : b.user_id ≡ t.owner_user_id =
      (text_iff b.user_id t.owner_user_id).0 (ground (arith, test)) in
    rw (owner_from_list, found) (ap (λ u. record t { owner_user_id = u }) own)

owners-kept :
    (buckets : List Bucket) (tasks : List Task)
    → IsKeyed (λ b. b.id) buckets
    → All (λ t. is_housed buckets t ≡ true) tasks
    → map (owner_from_list buckets) tasks ≡ tasks
owners-kept buckets [] keyed h = refl
owners-kept buckets (t ∷ tasks) keyed h =
    ap (λ x. x ∷ map (owner_from_list buckets) tasks) (owner_from_list-housed buckets t keyed h.0)
    ∙ ap (λ ts. t ∷ ts) (owners-kept buckets tasks keyed h.1)

module _ (buckets : List Bucket) (user_id id : String) where
  -- What no statement of a move spoils.
  abbrev Sheltered : Task → Type 0
  Sheltered t =
      (is_housed buckets t ≡ true)
      × ((t.id == id) ≡ true → owned user_id t ≡ true)
      × (child_of id t ≡ true → owned user_id t ≡ true)

  ordered-Sheltered :
      (i : ℕ) (ids : List String) (tasks : List Task)
      → All Sheltered tasks
      → All Sheltered (write_task_order i ids tasks)
  unfolding write_task_order
  ordered-Sheltered i [] tasks h = h
  ordered-Sheltered i (k ∷ ids) tasks h = ordered-Sheltered (suc i) ids _ (
      All-update_where Sheltered (λ t. t.id == k) (λ t. record t { sort_order = pos i }) tasks
        (λ t p s. s) h)

  housed-at :
      (t : Task) (k : String)
      → any (λ b. b.id == k && b.user_id == user_id) buckets ≡ true
      → owned user_id t ≡ true
      → any (λ b. b.id == k && b.user_id == t.owner_user_id) buckets ≡ true
  housed-at t k there own =
      subst (λ u. any (λ b. b.id == k && b.user_id == u) buckets ≡ true)
        (sym ((text_iff t.owner_user_id user_id).0 own)) there

  written-Sheltered :
      (plan : Plan) (status : String) (now : ℕ) (tasks : List Task)
      → plan.task.id ≡ id
      → any (λ b. b.id == plan.bucket_id && b.user_id == user_id) buckets ≡ true
      → All Sheltered tasks
      → All Sheltered (write_move plan status now tasks)
  unfolding write_move relocated
  written-Sheltered plan status now tasks same there h =
      let placed : All Sheltered (relocated plan now tasks) =
        elim (Bool-cases (plan.task.bucket_id == plan.bucket_id)) [
          | inl e ↦ rw e (
              All-update_where Sheltered (λ t. t.id == plan.task.id)
                (λ t. record t { updated_at = now }) tasks (λ t p s. s) h)
          | inr e ↦ rw e (
              ordered-Sheltered 0 plan.source_ids _ (
                All-update_where Sheltered (child_of plan.task.id)
                  (λ t. record t { bucket_id = plan.bucket_id; updated_at = now }) _
                  (λ t p s. (
                    housed-at t plan.bucket_id there
                        (s.2 (subst (λ k. child_of k t ≡ true) same p)),
                    s.1,
                    s.2,
                  ))
                  (All-update_where Sheltered (λ t. t.id == plan.task.id)
                    (λ t. record t {
                      bucket_id = plan.bucket_id;
                      sort_order = pos plan.position;
                      updated_at = now;
                    })
                    tasks
                    (λ t p s. (
                      housed-at t plan.bucket_id there
                          (s.1 (subst (λ k. (t.id == k) ≡ true) same p)),
                      s.1,
                      s.2,
                    ))
                    h)))
        ] in
      let ordered = ordered-Sheltered 0 plan.destination_ids (relocated plan now tasks) placed in
      elim (Bool-cases (status == "")) [
        | inl e ↦ rw e ordered
        | inr e ↦ rw e (
            All-update_where Sheltered (λ t. t.id == plan.task.id) (restated plan.task.status now) _
              (λ t p s. s) ordered)
      ]

-- A move keeps every task in a list of the account that owns it, and what the trigger would make of
-- its rows is what they are: the owner that the database reads from a row's list is the owner that
-- the row has. This is so where the IDs of tasks and those of lists are distinct, every task was in
-- such a list before, and the moved task's children are the account's.
pub is_housed-move_task :
    (db : Database) (user_id id : String) (input : MoveTaskInput) (now : ℕ) (t : Task)
    (after : Database)
    → IsKeyed (λ x. x.id) db.tasks
    → IsKeyed (λ b. b.id) db.buckets
    → All (λ x. child_of id x ≡ true → owned user_id x ≡ true) db.tasks
    → All (λ x. is_housed db.buckets x ≡ true) db.tasks
    → move_task db user_id id input now ≡ ok (t, after)
    → All (λ x. is_housed after.buckets x ≡ true) after.tasks
      × (map (owner_from_list after.buckets) after.tasks ≡ after.tasks)
unfolding move_task
is_housed-move_task db user_id id input now t after keyed lists family housed h =
    let (unit, e1, h1) = >>=-eq-ok (check_move (trimmed input)) _ h in
    let ((quota, locked), e2, h2) = >>=-eq-ok (lock_storage_quota db user_id) _ h1 in
    let (plan, e3, h3) = >>=-eq-ok (plan_move locked user_id id (trimmed input)) _ h2 in
    let tasks = write_move plan (clean input.status) now locked.tasks in
    let (moved, e4, h4) =
      >>=-eq-ok (or_fail (find (λ x. x.id == plan.task.id) tasks) idempotency_gone) _ h3 in
    let rows = (lock_storage_quota-Locked db user_id quota locked e2).rows in
    let p : Planned locked user_id id (trimmed input) plan =
      plan_move-Planned locked user_id id (trimmed input) plan e3 in
    let found = ap (find (addressed user_id "" id)) (sym rows.tasks) ∙ p.found in
    let test = find-test (addressed user_id "" id) db.tasks p.original found in
    let same : plan.task.id ≡ id =
      (moved_status-kept locked user_id p.original (clean input.status) plan.task p.changed).0
      ∙ (text_iff p.original.id id).0 (ground (arith, test)) in
    let only =
      IsKeyed-find (λ x. x.id) id (addressed user_id "" id) db.tasks p.original (keyed id)
        (λ x q. ground (arith, q)) found in
    let sheltered : All (Sheltered db.buckets user_id id) db.tasks =
      together db.tasks housed
        (All-imp _ _ db.tasks
          (λ x one named.
            subst (λ y. owned user_id y ≡ true) (sym (one named)) (ground (arith, test)))
          only)
        family in
    let there =
      subst (λ k. any (λ b. b.id == k && b.user_id == user_id) db.buckets ≡ true) (sym p.list)
        (subst (λ bs. any (λ b. b.id == p.destination.id && b.user_id == user_id) bs ≡ true)
          rows.buckets (locked_bucket-named locked user_id (clean input.bucket_id) p.row).1) in
    let written =
      written-Sheltered db.buckets user_id id plan (clean input.status) now db.tasks same there
        sheltered in
    let kept : All (λ x. is_housed db.buckets x ≡ true) tasks =
      subst
        (λ ts.
          All (λ x. is_housed db.buckets x ≡ true) (write_move plan (clean input.status) now ts))
        (sym rows.tasks) (All-imp _ _ _ (λ x s. s.0) written) in
    subst
      (λ (d : Database).
        All (λ x. is_housed d.buckets x ≡ true) d.tasks
        × (map (owner_from_list d.buckets) d.tasks ≡ d.tasks))
      (ap (λ x. x.1) (ok-injective h4))
      (subst
        (λ bs. All (λ x. is_housed bs x ≡ true) tasks × (map (owner_from_list bs) tasks ≡ tasks))
        (sym rows.buckets) (kept, owners-kept db.buckets tasks lists kept))
  where
    together :
        (ts : List Task)
        → All (λ x. is_housed db.buckets x ≡ true) ts
        → All (λ x. (x.id == id) ≡ true → owned user_id x ≡ true) ts
        → All (λ x. child_of id x ≡ true → owned user_id x ≡ true) ts
        → All (Sheltered db.buckets user_id id) ts
    together [] a b c = tt
    together (x ∷ ts) a b c = ((a.0, b.0, c.0), together ts a.1 b.1 c.1)
