-- ===== src/Boards/Tasks/Update/Fence.antt =====
-- What UpdateTaskForAgent of server/internal/boards/store.go may do under a managed run.
use slate_do.Prelude.{
  ℕ, String, ◌≡◌, ◌≢◌, refl, false, not, ◌||◌, some, List, ◌==◌, string_eq, find, keep,
  update_where, ok, arith, text_iff, sym, ◌∙◌, ap,
}
use slate_do.Prelude.Keyed.{IsKeyed, keep-update_out}
use slate_do.Boards.Types.{Task, fresh, status_eq, status_eqb_iff, UpdateTaskInput}
use slate_do.Boards.Validation.{clean}
use slate_do.Boards.Database.{Database}
use slate_do.Boards.Tasks.{named}
use slate_do.Boards.Tasks.Positions.{write_task_order}
use slate_do.Boards.Tasks.Update.{
  given, managed_run_fence, Move, stay, settled_status, rewritten, rearranged, update_task,
  update_task_for_agent,
}
use slate_do.Boards.Tasks.Update.Workflow.{
  with_content-SameFlow, relisted-SameFlow, with_workflow-quiet,
}
use slate_do.Boards.Tasks.Update.Parts.{update_task-Updated}
use slate_do.Boards.Tasks.Update.Written.{Updated, addressed}
use slate_do.Boards.Tasks.Update.Outcome.{Revised, revised-Revised}

-- The run that an agent names is the task's, and a managed task's status is not the agent's to set.
pub record Passed (original : Task) (input : UpdateTaskInput) : Type 0 where
  pub run : clean input.run_id ≡ original.execution_run_id
  pub status : original.execution_run_id ≢ "" → (given input.status || given input.done) ≡ false

managed_run_fence-Passed :
    (original : Task) (input : UpdateTaskInput)
    → managed_run_fence original input ≡ ok tt
    → Passed original input
unfolding managed_run_fence
managed_run_fence-Passed original input h = record {
  run = ground (
    arith,
    h,
    text_iff original.execution_run_id "",
    text_iff (clean input.run_id) "",
    text_iff (clean input.run_id) original.execution_run_id,
  );
  status = λ ne. ground (arith, h, ne, text_iff original.execution_run_id "");
}

settled-unchanged :
    (before : String) (t : Task)
    → t.assignee_agent_id ≡ before
    → t.status ≢ fresh
    → settled_status before t ≡ t.status
unfolding settled_status
settled-unchanged before t e ne =
    ground (arith, text_iff t.assignee_agent_id before, status_eqb_iff t.status fresh)

rearranged-stay : (t : Task) (now : ℕ) (tasks : List Task) → rearranged (stay t) now tasks ≡ tasks
unfolding rearranged write_task_order
rearranged-stay t now tasks = refl

-- What an agent's answered update has left alone.
pub record AgentUpdate (db : Database) (id : String) (input : UpdateTaskInput) (original t : Task)
    (after : Database) : Type 0 where
  pub run : clean input.run_id ≡ original.execution_run_id
  pub scope :
      (t.bucket_id ≡ original.bucket_id) × (t.assignee_agent_id ≡ original.assignee_agent_id)
  pub status : original.execution_run_id ≢ "" → original.status ≢ fresh → t.status ≡ original.status
  pub others : keep (λ x. not (x.id == id)) after.tasks ≡ keep (λ x. not (x.id == id)) db.tasks

agent_scope :
    (db : Database) (user_id agent_id id : String) (input : UpdateTaskInput) (now : ℕ) (t : Task)
    (after : Database)
    → update_task_for_agent db user_id agent_id id input now ≡ ok (t, after)
    → (given input.bucket_id ≡ false)
      × (given input.assignee_agent_id ≡ false)
      × (update_task db user_id agent_id id input false now ≡ ok (t, after))
unfolding update_task_for_agent
agent_scope db user_id agent_id id input now t after h =
    (ground (arith, h), ground (arith, h), ground (arith, h))

module _ (db : Database) (user_id id : String) (original : Task) (input : UpdateTaskInput)
    (move : Move) (current : Task) (listless : given input.bucket_id ≡ false)
    (agentless : given input.assignee_agent_id ≡ false)
    (r : Revised db user_id original input false move current) where
  kept-list : current.bucket_id ≡ original.bucket_id
  kept-list =
      ap (λ (t : Task). t.bucket_id) r.settled
      ∙ (with_workflow-quiet db user_id move.task input false r.worked r.workflow).2
      ∙ ap (λ (m : Move). m.task.bucket_id)
          ((relisted-SameFlow db user_id r.edited input move r.listed).1 listless)
      ∙ (with_content-SameFlow original input r.edited r.content).1

  worked-agent : r.worked.assignee_agent_id ≡ original.assignee_agent_id
  worked-agent =
      (with_workflow-quiet db user_id move.task input false r.worked r.workflow).4 agentless
      ∙ (relisted-SameFlow db user_id r.edited input move r.listed).0.assignee
      ∙ (with_content-SameFlow original input r.edited r.content).0.assignee

  kept-status :
      (given input.status || given input.done) ≡ false
      → original.status ≢ fresh
      → current.status ≡ original.status
  kept-status quiet ne =
      let worked : r.worked.status ≡ original.status =
        (with_workflow-quiet db user_id move.task input false r.worked r.workflow).3 quiet
        ∙ (relisted-SameFlow db user_id r.edited input move r.listed).0.status
        ∙ (with_content-SameFlow original input r.edited r.content).0.status in
      ap (λ (t : Task). t.status) r.settled
      ∙ settled-unchanged original.assignee_agent_id r.worked worked-agent
          (λ e. ne (sym worked ∙ e))
      ∙ worked

-- An agent's update that is answered names the task's own run, or none where it has none; it
-- leaves the task's list and agent alone, and every other task; and where the task has a run and
-- is not new, it leaves the status alone.
pub update_task_for_agent-AgentUpdate :
    (db : Database) (user_id agent_id id : String) (input : UpdateTaskInput) (now : ℕ) (t : Task)
    (after : Database)
    → IsKeyed (λ x. x.id) db.tasks
    → (agent_id == "") ≡ false
    → update_task_for_agent db user_id agent_id id input now ≡ ok (t, after)
    → (original : Task) × (find (addressed user_id agent_id id) db.tasks ≡ some original)
      × AgentUpdate db id input original t after
unfolding rewritten
update_task_for_agent-AgentUpdate db user_id agent_id id input now t after keyed agent h =
    let (listless, agentless, h1) = agent_scope db user_id agent_id id input now t after h in
    let u : Updated db user_id agent_id id input false now t after =
      update_task-Updated db user_id agent_id id input false now t after keyed h1 in
    let passed = managed_run_fence-Passed u.original input (u.fenced agent) in
    let r : Revised u.locked user_id u.original input false u.move u.current =
      revised-Revised u.locked user_id u.original input false u.move u.current u.revision in
    let stays = (relisted-SameFlow u.locked user_id r.edited input u.move r.listed).1 listless in
    let rows = update_where (named user_id id) (rewritten u.current now) db.tasks in
    (
      u.original,
      u.found,
      record {
        run = passed.run;
        scope = (
          ap (λ (x : Task). x.bucket_id) u.answer
              ∙ kept-list u.locked user_id id u.original input u.move u.current listless agentless
                  r,
          ap (λ (x : Task). x.assignee_agent_id) u.answer
              ∙ ap (λ (x : Task). x.assignee_agent_id) r.settled
              ∙ worked-agent u.locked user_id id u.original input u.move u.current listless
                  agentless r,
        );
        status = λ run ne.
            ap (λ (x : Task). x.status) u.answer
            ∙ kept-status u.locked user_id id u.original input u.move u.current listless agentless r
                (passed.status run) ne;
        others =
            ap (keep (λ x. not (x.id == id)))
              (u.tasks ∙ ap (λ m. rearranged m now rows) stays ∙ rearranged-stay r.edited now rows)
            ∙ keep-update_out (λ x. not (x.id == id)) (named user_id id) (rewritten u.current now)
                db.tasks (λ x p. ground arith) (λ x p. ground arith);
      },
    )
