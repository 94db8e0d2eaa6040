-- ===== src/Boards/Tasks/Update/Workflow.antt =====
-- The status, the assignment and the run of a task under updateTask.
use slate_do.Prelude.{
  String, ◌≡◌, ◌≢◌, ◌⊎◌, Bool, false, ◌||◌, ◌==◌, string_eq, ok, arith, text_iff,
}
use slate_do.Boards.Types.{Task, fresh, working, status_eq, UpdateTaskInput}
use slate_do.Boards.Validation.{apply_task_status}
use slate_do.Boards.Database.{Database}
use slate_do.Boards.Tasks.Update.{
  given, with_content, Move, stay, move_to, relisted, with_workflow, settled_status,
}

-- Nothing of the workflow has changed.
pub record SameFlow (t u : Task) : Type 0 where
  pub id : u.id ≡ t.id
  pub owner : u.owner_user_id ≡ t.owner_user_id
  pub status : u.status ≡ t.status
  pub assignee : u.assignee_agent_id ≡ t.assignee_agent_id

-- An update of the task does not start work on it.
abbrev pub StartsNoWork : Task → Task → Type 0
StartsNoWork t u = u.status ≡ working → t.status ≡ working

pub with_content-SameFlow :
    (t : Task) (input : UpdateTaskInput) (u : Task)
    → with_content t input ≡ ok u
    → SameFlow t u × (u.bucket_id ≡ t.bucket_id)
unfolding with_content
with_content-SameFlow t input u h = (
  record {
    id = ground arith;
    owner = ground arith;
    status = ground arith;
    assignee = ground arith;
  },
  ground arith,
)

pub relisted-SameFlow :
    (db : Database) (user_id : String) (t : Task) (input : UpdateTaskInput) (move : Move)
    → relisted db user_id t input ≡ ok move
    → SameFlow t move.task × (given input.bucket_id ≡ false → move ≡ stay t)
unfolding relisted move_to
relisted-SameFlow db user_id t input move h = (
  record {
    id = ground arith;
    owner = ground arith;
    status = ground arith;
    assignee = ground arith;
  },
  λ g. ground arith,
)

pub with_workflow-StartsNoWork :
    (db : Database) (user_id : String) (t : Task) (input : UpdateTaskInput) (u : Task)
    → with_workflow db user_id t input false ≡ ok u
    → StartsNoWork t u
unfolding with_workflow apply_task_status
with_workflow-StartsNoWork db user_id t input u h = ground arith

-- An input that names no status leaves the status, and one that names no agent the assignment.
pub with_workflow-quiet :
    (db : Database) (user_id : String) (t : Task) (input : UpdateTaskInput) (allow : Bool)
    (u : Task)
    → with_workflow db user_id t input allow ≡ ok u
    → (u.id ≡ t.id)
      × (u.owner_user_id ≡ t.owner_user_id)
      × (u.bucket_id ≡ t.bucket_id)
      × ((given input.status || given input.done) ≡ false → u.status ≡ t.status)
      × (given input.assignee_agent_id ≡ false → u.assignee_agent_id ≡ t.assignee_agent_id)
unfolding with_workflow apply_task_status
with_workflow-quiet db user_id t input allow u h =
    (ground arith, ground arith, ground arith, λ g. ground arith, λ g. ground arith)

pub settled-working :
    (before : String) (t : Task)
    → settled_status before t ≡ working
    → (t.status ≡ working) × (t.assignee_agent_id ≡ before ⊎ (t.assignee_agent_id ≡ ""))
unfolding settled_status
settled-working before t h =
    ground (arith, text_iff t.assignee_agent_id before, text_iff t.assignee_agent_id "")

pub settled-fresh :
    (before : String) (t : Task)
    → (t.assignee_agent_id == "") ≡ false
    → settled_status before t ≢ fresh
unfolding settled_status
settled-fresh before t h e = ground (arith, text_iff t.assignee_agent_id "")
