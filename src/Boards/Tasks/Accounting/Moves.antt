-- ===== src/Boards/Tasks/Accounting/Moves.antt =====
-- The counters when MoveTask of server/internal/boards/store.go moves a task.
use slate_do.Prelude.{
  ℕ, String, ◌≡◌, Bool, List, ◌==◌, string_eq, find, sum_where, sum_where-update_where, ok, or_fail,
  >>=-eq-ok, ok-injective, Bool-cases, inl, inr, ◌∙◌, ap,
}
use slate_do.Prelude.Int.{ℤ, pos}
use slate_do.Boards.Types.{Task, Status, idempotency_gone}
use slate_do.Boards.Validation.{clean}
use slate_do.Boards.Database.{Database}
use slate_do.Boards.Quota.{lock_storage_quota}
use slate_do.Boards.Tasks.Positions.{child_of}
use slate_do.Boards.Tasks.Accounting.Rearranged.{Rearranged}
use slate_do.Boards.Tasks.Accounting.Updates.{ordered-sum}
use slate_do.Boards.Tasks.Move.{
  MoveTaskInput, check_move, Plan, plan_move, restated, relocated, write_move, move_task, trimmed,
}

-- A measure of the rows that reads neither their place nor their workflow.
module _ (w : Task → ℕ) (q : Task → Bool)
    (order : (t : Task) (z : ℤ)
      → (q (record t { sort_order = z }) ≡ q t) × (w (record t { sort_order = z }) ≡ w t))
    (place : (t : Task) (b : String) (now : ℕ)
      → (q (record t { bucket_id = b; updated_at = now }) ≡ q t)
        × (w (record t { bucket_id = b; updated_at = now }) ≡ w t))
    (flow : (t : Task) (s : Status) (now : ℕ)
      → (q (restated s now t) ≡ q t) × (w (restated s now t) ≡ w t)) where
  relocated-sum :
      (plan : Plan) (now : ℕ) (tasks : List Task)
      → sum_where q w (relocated plan now tasks) ≡ sum_where q w tasks
  unfolding relocated
  relocated-sum plan now tasks = elim (Bool-cases (plan.task.bucket_id == plan.bucket_id)) [
    | inl e ↦ rw e (
        sum_where-update_where q (λ t. t.id == plan.task.id) w (λ t. record t { updated_at = now })
          tasks (λ t p. place t t.bucket_id now))
    | inr e ↦ rw e (
        ordered-sum w q order place 0 plan.source_ids _
        ∙ sum_where-update_where q (child_of plan.task.id) w
            (λ t. record t { bucket_id = plan.bucket_id; updated_at = now }) _
            (λ t p. place t plan.bucket_id now)
        ∙ sum_where-update_where q (λ t. t.id == plan.task.id) w
            (λ t. record t {
              bucket_id = plan.bucket_id;
              sort_order = pos plan.position;
              updated_at = now;
            })
            tasks
            (λ t p.
              let a = place t plan.bucket_id now in
              let b =
                order (record t { bucket_id = plan.bucket_id; updated_at = now })
                  (pos plan.position) in
              (b.0 ∙ a.0, b.1 ∙ a.1)))
  ]

  moved-sum :
      (plan : Plan) (status : String) (now : ℕ) (tasks : List Task)
      → sum_where q w (write_move plan status now tasks) ≡ sum_where q w tasks
  unfolding write_move
  moved-sum plan status now tasks =
      let ordered =
        ordered-sum w q order place 0 plan.destination_ids (relocated plan now tasks)
        ∙ relocated-sum plan now tasks in
      elim (Bool-cases (status == "")) [
        | inl e ↦ rw e ordered
        | inr e ↦ rw e (
            sum_where-update_where q (λ t. t.id == plan.task.id) w (restated plan.task.status now) _
              (λ t p. flow t plan.task.status now)
            ∙ ordered)
      ]

pub move_task-Rearranged :
    (db : Database) (user_id id : String) (input : MoveTaskInput) (now : ℕ) (t : Task)
    (after : Database)
    → move_task db user_id id input now ≡ ok (t, after)
    → Rearranged db user_id after
unfolding move_task
move_task-Rearranged db user_id id input now t after h =
    let (unit, e1, h1) = >>=-eq-ok (check_move (trimmed input)) _ h in
    let ((quota, locked), e2, h2) = >>=-eq-ok (lock_storage_quota db user_id) _ h1 in
    let (plan, e3, h3) = >>=-eq-ok (plan_move locked user_id id (trimmed input)) _ h2 in
    let tasks = write_move plan (clean input.status) now locked.tasks in
    let (moved, e4, h4) =
      >>=-eq-ok (or_fail (find (λ x. x.id == plan.task.id) tasks) idempotency_gone) _ h3 in
    record {
      quota = quota;
      locked = locked;
      locking = e2;
      tasks = tasks;
      result = ap (λ p. p.1) (ok-injective h4);
      sums = λ w q blind.
          moved-sum w q blind.0 blind.1 blind.2 plan (clean input.status) now locked.tasks;
    }
