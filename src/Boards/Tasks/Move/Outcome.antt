-- ===== src/Boards/Tasks/Move/Outcome.antt =====
-- What MoveTask of server/internal/boards/store.go has made of the task that it moves.
use slate_do.Prelude.{
  Bool, List, [], ◌∷◌, any, true, String, ◌≡◌, ◌≢◌, false, ◌&&◌, some, List, ◌==◌, string_eq, find,
  find-test, length, ok, refuse_if, ltb, arith, text_iff, >>=-eq-ok, ok-injective, or_fail-eq-ok,
  sym, ◌∙◌, ap, subst,
}
use slate_do.Boards.Types.{
  Bucket, not_found, Task, fresh, queued, needs_review, status_eq, invalid_data,
}
use slate_do.Boards.Validation.{clean, apply_task_status}
use slate_do.Boards.Database.{Database, locked_bucket, locked_task}
use slate_do.Boards.Tasks.Positions.{ordered_child_task_ids, remove_task_ids, ordered_task_ids}
use slate_do.Boards.Tasks.Update.Written.{addressed, locked_task_for_agent-found}
use slate_do.Boards.Tasks.Move.{
  MoveTaskInput, moved_status, parent_calls, position_of, Plan, plan_move,
}

-- What a plan takes from the row that it was made for.
pub record Planned (db : Database) (user_id id : String) (input : MoveTaskInput) (plan : Plan)
    : Type 0 where
  pub original : Task
  pub found : find (addressed user_id "" id) db.tasks ≡ some original
  pub changed : moved_status db user_id original input.status ≡ ok plan.task
  pub destination : Bucket
  pub row : locked_bucket db user_id input.bucket_id ≡ ok destination
  pub list : plan.bucket_id ≡ destination.id

pub locked_bucket-named :
    (db : Database) (user_id id : String) {b : Bucket}
    → locked_bucket db user_id id ≡ ok b
    → (b.id ≡ id) × (any (λ x. x.id == b.id && x.user_id == user_id) db.buckets ≡ true)
unfolding locked_bucket
locked_bucket-named db user_id id {b} h =
    let q : Bucket → Bool = λ x. x.user_id == user_id && x.id == id in
    let hit = or_fail-eq-ok (find q db.buckets) not_found h in
    let named : b.id ≡ id = ground (arith, find-test q db.buckets b hit, text_iff b.id id) in
    (
      named,
      subst (λ k. any (λ x. x.id == k && x.user_id == user_id) db.buckets ≡ true) (sym named)
          (there db.buckets hit),
    )
  where
    there :
        (rows : List Bucket)
        → find (λ x. x.user_id == user_id && x.id == id) rows ≡ some b
        → any (λ x. x.id == id && x.user_id == user_id) rows ≡ true
    there [] h = cc h
    there (x ∷ rows) h = ground (arith, there rows, h)

pub plan_move-Planned :
    (db : Database) (user_id id : String) (input : MoveTaskInput) (plan : Plan)
    → plan_move db user_id id input ≡ ok plan
    → Planned db user_id id input plan
unfolding plan_move
plan_move-Planned db user_id id input plan h =
    let (original, e1, h1) = >>=-eq-ok (locked_task db user_id id) _ h in
    let (current, e2, h2) = >>=-eq-ok (moved_status db user_id original input.status) _ h1 in
    let (unit, e3, h3) = >>=-eq-ok (parent_calls db user_id current input.bucket_id) _ h2 in
    let (destination, e4, h4) = >>=-eq-ok (locked_bucket db user_id input.bucket_id) _ h3 in
    let child_ids = ordered_child_task_ids db current.id in
    let others = remove_task_ids (ordered_task_ids db destination.id current.id) child_ids in
    let (place, e5, h5) = >>=-eq-ok (position_of db current input others child_ids) _ h4 in
    let (unit', e6, h6) =
      >>=-eq-ok
        (refuse_if (ltb (length others) place)
          (invalid_data "position is outside the destination list"))
        _ h5 in
    let same = ok-injective h6 in
    record {
      original = original;
      found = locked_task_for_agent-found db user_id "" id original e1;
      changed = e2 ∙ ap (λ (p : Plan). ok p.task) same;
      destination = destination;
      row = e4;
      list = sym (ap (λ (p : Plan). p.bucket_id) same);
    }

pub moved_status-kept :
    (db : Database) (user_id : String) (t : Task) (status : String) (u : Task)
    → moved_status db user_id t status ≡ ok u
    → (u.id ≡ t.id)
      × (u.bucket_id ≡ t.bucket_id)
      × (u.assignee_agent_id ≡ t.assignee_agent_id)
      × ((status == "") ≡ false → u.assignee_agent_id ≢ "" → u.status ≢ fresh)
unfolding moved_status apply_task_status
moved_status-kept db user_id t status u h = (
  ground (arith, h),
  ground (arith, h),
  ground (arith, h),
  λ named assigned f. ground (arith, h, named, assigned, f, text_iff t.assignee_agent_id ""),
)

-- What a move may make of the row that it moves.
pub record Landed (input : MoveTaskInput) (original t : Task) : Type 0 where
  pub list : t.bucket_id ≡ clean input.bucket_id
  pub same_task :
      (t.id ≡ original.id)
      × (t.owner_user_id ≡ original.owner_user_id)
      × (t.title ≡ original.title)
      × (t.description ≡ original.description)
      × (t.assignee_agent_id ≡ original.assignee_agent_id)
      × (t.parent_task_id ≡ original.parent_task_id)
  pub quiet :
      clean input.status ≡ ""
      → (t.status ≡ original.status)
        × (t.execution_run_id ≡ original.execution_run_id)
        × (t.review_reason ≡ original.review_reason)
  pub queued_has_no_run : clean input.status ≢ "" → t.status ≡ queued → t.execution_run_id ≡ ""
  pub run_stays : t.execution_run_id ≢ "" → t.execution_run_id ≡ original.execution_run_id
  pub reason_stays :
      clean input.status ≢ ""
      → t.review_reason ≢ ""
      → (t.status ≡ needs_review) × (t.review_reason ≡ original.review_reason)
  pub assigned_is_queued : clean input.status ≢ "" → t.assignee_agent_id ≢ "" → t.status ≢ fresh
