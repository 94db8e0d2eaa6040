-- ===== src/Boards/Tasks/Update.antt =====
-- UpdateTask, UpdateTaskForHuman, UpdateTaskForAgent and updateTask of
-- server/internal/boards/store.go.
pub mod Workflow
pub mod Written
pub mod Parts
pub mod Outcome
pub mod Fence
use slate_do.Prelude.{
  ℕ, zero, suc, ◌+◌, String, Bool, true, false, not, ◌&&◌, ◌||◌, Option, none, some, List, [], ◌∷◌,
  ◌==◌, ◌!=◌, string_eq, nat_eq, find, update_where, if◌then◌else◌, Result, ok, err, or_fail,
  refuse_if, ◌>>=◌, ◌>>◌,
}
use slate_do.Prelude.Int.{ℤ, pos, ◌+ℤ◌, negate}
use slate_do.Boards.Types.{
  Task, Status, fresh, queued, working, needs_review, done, status_eq, Store, Error, Bucket,
  UpdateTaskInput, not_found, invalid_data, agent_task_scope, managed_run_mismatch,
  managed_run_status_locked,
}
use slate_do.Boards.Validation.{
  clean, valid_date, valid_kind, valid_priority, apply_task_status, change_status, is_action,
}
use slate_do.Boards.Database.{
  Database, locked_bucket, locked_task, locked_task_for_agent, active_agent_assignment,
  task_content_bytes,
}
use slate_do.Boards.Quota.{StorageQuota, lock_storage_quota, apply}
use slate_do.Boards.Buckets.Change.{or_else, cleaned}
use slate_do.Boards.Tasks.{named}
use slate_do.Boards.Tasks.Positions.{
  ordered_task_ids, ordered_child_task_ids, remove_task_ids, insert_task_ids,
  update_child_task_locations, write_task_order,
}

abbrev pub given {ℓ} : {A : Type ℓ} → Option A → Bool
given none = false
given (some a) = true

-- What an agent's credential may do to a task under a managed run.
unfoldable pub managed_run_fence : Task → UpdateTaskInput → Store (Unit {0})
managed_run_fence current input = do
  let requested_run_id = clean input.run_id
  refuse_if
      (not (current.execution_run_id == "") && not (requested_run_id == current.execution_run_id))
      managed_run_mismatch
  refuse_if (current.execution_run_id == "" && not (requested_run_id == "")) managed_run_mismatch
  refuse_if (not (current.execution_run_id == "") && (given input.status || given input.done))
      managed_run_status_locked

abbrev dated : Option String → Task → Store Task
dated none t = ok t
dated (some text) t = valid_date text >>= λ date. ok (record t { scheduled_date = date })

abbrev of_kind : Option String → Task → Store Task
of_kind none t = ok t
of_kind (some text) t =
    or_fail (valid_kind (clean text)) (invalid_data "invalid item kind") >>= λ kind.
    ok (record t { kind = kind })

-- The title, the description, the date and the kind that the input gives.
unfoldable pub with_content : Task → UpdateTaskInput → Store Task
with_content t input =
    dated input.scheduled_date (record t {
      title = or_else (cleaned input.title) t.title;
      description = or_else input.description t.description;
    })
    >>= of_kind input.kind

-- A change of list: the moved task, whether its children follow, and the two orders to write.
pub record Move : Type 0 where
  pub task : Task
  pub move_children : Bool
  pub source_order : List String
  pub destination_order : List String

abbrev pub stay : Task → Move
stay t = record { task = t; move_children = false; source_order = []; destination_order = [] }

-- The parent's list is the only one that a subtask may move to.
unfoldable pub parent_allows : Database → String → Task → String → Store (Unit {0})
parent_allows db user_id t bucket_id =
    if t.parent_task_id == ""
    then ok tt
    else locked_task db user_id t.parent_task_id >>= λ parent.
        refuse_if (not (parent.bucket_id == bucket_id))
          (invalid_data "a subtask must stay in its parent list")

unfoldable pub move_to : Database → String → Task → String → Bool → Store Move
move_to db user_id t bucket_id sorted = do
  refuse_if sorted
      (invalid_data "use the move endpoint to change a task list and position together")
  parent_allows db user_id t bucket_id
  bucket ← locked_bucket db user_id bucket_id
  let child_ids = ordered_child_task_ids db t.id
  ok (record {
    task = record t { bucket_id = bucket.id; sort_order = pos 0 };
    move_children = t.parent_task_id == "";
    source_order = remove_task_ids (ordered_task_ids db t.bucket_id t.id) child_ids;
    destination_order =
        insert_task_ids (remove_task_ids (ordered_task_ids db bucket.id t.id) child_ids)
          (t.id ∷ child_ids) 0;
  })

unfoldable pub relisted : Database → String → Task → UpdateTaskInput → Store Move
relisted db user_id t input = elim input.bucket_id [
  | none ↦ ok (stay t)
  | some bucket_id ↦
      if bucket_id == t.bucket_id
      then ok (stay t)
      else move_to db user_id t bucket_id (given input.sort_order)
]

-- The status that the completion flag of released clients asks for.
abbrev legacy_status : Task → Bool → Status
legacy_status t true = done
legacy_status t false =
    if t.status == done then (if t.assignee_agent_id == "" then fresh else queued) else t.status

abbrev restated : Option String → Bool → Task → Store Task
restated none allow_working t = ok t
restated (some text) allow_working t = apply_task_status t text allow_working

abbrev completed : Option Bool → Bool → Task → Store Task
completed none allow_working t = ok t
completed (some flag) allow_working t =
    if legacy_status t flag == t.status
    then ok t
    else change_status t (legacy_status t flag) allow_working

abbrev prioritised : Option String → Task → Store Task
prioritised none t = ok t
prioritised (some text) t =
    or_fail (valid_priority (clean text)) (invalid_data "invalid priority") >>= λ priority.
    ok (record t { priority = priority })

abbrev reassigned : Database → String → Option String → Task → Store Task
reassigned db user_id none t = ok t
reassigned db user_id (some agent_id) t =
    active_agent_assignment db user_id agent_id >>= λ id. ok (record t { assignee_agent_id = id })

unfoldable pub with_workflow : Database → String → Task → UpdateTaskInput → Bool → Store Task
with_workflow db user_id t input allow_working =
    restated input.status allow_working t
    >>= completed input.done allow_working
    >>= prioritised input.priority
    >>= λ p.
        reassigned db user_id input.assignee_agent_id
          (record p { sort_order = or_else input.sort_order p.sort_order })

-- The status that the assignment leaves, by the three tests after the assignment is known.
unfoldable pub settled_status : String → Task → Status
settled_status assigned_before t =
    let changed = not (t.assignee_agent_id == assigned_before) in
    let released =
      if changed
        && not (t.assignee_agent_id == "")
        && (t.status == working || t.status == needs_review)
      then queued
      else t.status in
    let unassigned =
      if changed && t.assignee_agent_id == "" && released == queued then fresh else released in
    if not (t.assignee_agent_id == "") && unassigned == fresh then queued else unassigned

-- A task that its agent may take up has an agent that is not archived.
unfoldable pub agent_is_live : Database → String → Task → Store (Unit {0})
agent_is_live db user_id t =
    if not (t.assignee_agent_id == "")
      && (t.status == fresh || t.status == queued || t.status == working)
    then (elim (active_agent_assignment db user_id t.assignee_agent_id) [
      | ok id ↦ ok tt
      | err e ↦ err (
          invalid_data
            "clear or replace the archived agent before moving this item to New, Ready, or In Progress")
    ])
    else ok tt

-- `checkTaskCapacity`
abbrev check_task_capacity : Bucket → Store (Unit {0})
check_task_capacity bucket = ok tt

abbrev is_active : Task → Bool
is_active t = is_action t.kind && not (t.status == done)

unfoldable pub capacity_checked : Database → String → Task → Task → Store (Unit {0})
capacity_checked db user_id original current =
    if is_active current
      && (not (is_active original) || not (original.bucket_id == current.bucket_id))
    then locked_bucket db user_id current.bucket_id >>= check_task_capacity
    else ok tt

abbrev pub counted : Option StorageQuota → Database → ℤ → Store Database
counted none db delta = ok db
counted (some quota) db delta = apply quota db (pos 0) delta

-- The SET clause of the update.
unfoldable pub rewritten : Task → ℕ → Task → Task
rewritten current now t = record t {
  bucket_id = current.bucket_id;
  title = current.title;
  description = current.description;
  scheduled_date = current.scheduled_date;
  kind = current.kind;
  status = current.status;
  priority = current.priority;
  sort_order = current.sort_order;
  assignee_agent_id = current.assignee_agent_id;
  execution_run_id =
      if current.status == queued || not (current.assignee_agent_id == t.assignee_agent_id)
      then ""
      else t.execution_run_id;
  review_reason =
      if not (current.status == needs_review)
      then ""
      else if not (t.status == needs_review)
      then ""
      else t.review_reason;
  updated_at = now;
}

-- The statements that follow the update of a moved task.
unfoldable pub rearranged : Move → ℕ → List Task → List Task
rearranged move now tasks = write_task_order 0 move.destination_order (
    write_task_order 0 move.source_order (
      if move.move_children
      then update_child_task_locations move.task.id move.task.bucket_id now tasks
      else tasks))

-- Everything between the fence and the UPDATE: the move, and the row as it will be written.
unfoldable pub revised : Database → String → Task → UpdateTaskInput → Bool → Store (Move × Task)
revised db user_id original input allow_working = do
  edited ← with_content original input
  move ← relisted db user_id edited input
  worked ← with_workflow db user_id move.task input allow_working
  let current = record worked { status = settled_status original.assignee_agent_id worked }
  agent_is_live db user_id current
  refuse_if (current.title == "") (invalid_data "task title is required")
  ok (move, current)

abbrev pub lock_quota_if : Bool → Database → String → Store (Option StorageQuota × Database)
lock_quota_if false db user_id = ok (none, db)
lock_quota_if true db user_id =
    lock_storage_quota db user_id >>= λ locked. ok (some locked.0, locked.1)

-- The UPDATE, and the statements on the orders.
unfoldable pub write_task : Database → String → String → Move → Task → ℕ → Store (Task × Database)
write_task db user_id id move current now = do
  task ← or_fail (find (named user_id id) db.tasks) not_found
  ok (
    rewritten current now task,
    record db {
      tasks =
          rearranged move now (update_where (named user_id id) (rewritten current now) db.tasks);
    },
  )

-- From the quota check to the commit.
unfoldable pub save_task :
    Option StorageQuota
    → Database
    → String
    → String
    → Task
    → Move
    → Task
    → ℕ
    → Store (Task × Database)
save_task quota db user_id id original move current now = do
  counted_db ←
      counted quota db (pos (task_content_bytes current) +ℤ negate (task_content_bytes original))
  capacity_checked counted_db user_id original current
  write_task counted_db user_id id move current now

-- `updateTask`
unfoldable pub update_task :
    Database → String → String → String → UpdateTaskInput → Bool → ℕ → Store (Task × Database)
update_task db0 user_id required_agent_id id input allow_working now = do
  (quota, db) ←
      lock_quota_if (given input.title || given input.description || given input.bucket_id) db0
        user_id
  original ← locked_task_for_agent db user_id required_agent_id id
  if required_agent_id == "" then ok tt else managed_run_fence original input
  (move, current) ← revised db user_id original input allow_working
  save_task quota db user_id id original move current now

-- `UpdateTaskForAgent`
unfoldable pub update_task_for_agent :
    Database → String → String → String → UpdateTaskInput → ℕ → Store (Task × Database)
update_task_for_agent db user_id agent_id id input now = do
  refuse_if (given input.bucket_id || given input.sort_order || given input.assignee_agent_id)
      agent_task_scope
  update_task db user_id agent_id id input false now
