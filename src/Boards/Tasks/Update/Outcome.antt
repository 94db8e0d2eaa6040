-- ===== src/Boards/Tasks/Update/Outcome.antt =====
-- What updateTask of server/internal/boards/store.go may do to a task's workflow.
use slate_do.Prelude.{
  ℕ, String, ◌≡◌, ◌≢◌, ◌⊎◌, refl, Bool, false, some, ◌==◌, string_eq, find, ok, refuse_if, arith,
  text_iff, >>=-eq-ok, ok-injective, Result-cases, inl, inr, sym, ◌∙◌, ap, subst,
}
use slate_do.Prelude.Keyed.{IsKeyed}
use slate_do.Boards.Types.{
  Task, fresh, queued, working, needs_review, status_eq, status_eqb_iff, UpdateTaskInput,
  invalid_data,
}
use slate_do.Boards.Database.{Database, active_agent_assignment}
use slate_do.Boards.Tasks.Update.{
  with_content, Move, relisted, with_workflow, settled_status, agent_is_live, rewritten, revised,
  update_task,
}
use slate_do.Boards.Tasks.Update.Workflow.{
  with_content-SameFlow, relisted-SameFlow, with_workflow-StartsNoWork, settled-working,
  settled-fresh,
}
use slate_do.Boards.Tasks.Update.Parts.{update_task-Updated}
use slate_do.Boards.Tasks.Update.Written.{Updated, addressed}

-- The stages between the fence and the UPDATE.
pub record Revised (db : Database) (user_id : String) (original : Task) (input : UpdateTaskInput)
    (allow : Bool) (move : Move) (current : Task) : Type 0 where
  pub edited : Task
  pub worked : Task
  pub content : with_content original input ≡ ok edited
  pub listed : relisted db user_id edited input ≡ ok move
  pub workflow : with_workflow db user_id move.task input allow ≡ ok worked
  pub settled :
      current ≡ record worked { status = settled_status original.assignee_agent_id worked }
  pub live : agent_is_live db user_id current ≡ ok tt

pub revised-Revised :
    (db : Database) (user_id : String) (original : Task) (input : UpdateTaskInput) (allow : Bool)
    (move : Move) (current : Task)
    → revised db user_id original input allow ≡ ok (move, current)
    → Revised db user_id original input allow move current
unfolding revised
revised-Revised db user_id original input allow move current h =
    let (edited, e1, h1) = >>=-eq-ok (with_content original input) _ h in
    let (move', e2, h2) = >>=-eq-ok (relisted db user_id edited input) _ h1 in
    let (worked, e3, h3) = >>=-eq-ok (with_workflow db user_id move'.task input allow) _ h2 in
    let settled : Task = record worked {
      status = settled_status original.assignee_agent_id worked;
    } in
    let (unit, e4, h4) = >>=-eq-ok (agent_is_live db user_id settled) _ h3 in
    let (unit', e5, h5) =
      >>=-eq-ok (refuse_if (settled.title == "") (invalid_data "task title is required")) _ h4 in
    let same = ok-injective h5 in
    let same_move : move' ≡ move = ap (λ p. p.0) same in
    let same_task : settled ≡ current = ap (λ p. p.1) same in
    record {
      edited = edited;
      worked = worked;
      content = e1;
      listed = subst (λ m. relisted db user_id edited input ≡ ok m) same_move e2;
      workflow =
          subst (λ (m : Move). with_workflow db user_id m.task input allow ≡ ok worked) same_move
            e3;
      settled = sym same_task;
      live = subst (λ c. agent_is_live db user_id c ≡ ok tt) same_task e4;
    }

-- What a task's row may be after an update, from what it was.
pub record Sound (db : Database) (user_id : String) (original t : Task) : Type 0 where
  pub work_starts_by_claim : t.status ≡ working → original.status ≡ working
  pub run_stays :
      t.execution_run_id ≢ ""
      → (t.execution_run_id ≡ original.execution_run_id)
        × (t.assignee_agent_id ≡ original.assignee_agent_id)
        × (t.status ≢ queued)
  pub reason_stays :
      t.review_reason ≢ "" → (t.status ≡ needs_review) × (t.review_reason ≡ original.review_reason)
  pub assigned_is_queued : t.assignee_agent_id ≢ "" → t.status ≢ fresh
  pub agent_lives :
      t.assignee_agent_id ≢ ""
      → (t.status ≡ queued) ⊎ (t.status ≡ working)
      → (id : String) × (active_agent_assignment db user_id t.assignee_agent_id ≡ ok id)

rewritten-run :
    (current : Task) (now : ℕ) (original : Task)
    → (rewritten current now original).execution_run_id ≢ ""
    → ((rewritten current now original).execution_run_id ≡ original.execution_run_id)
      × (current.assignee_agent_id ≡ original.assignee_agent_id)
      × (current.status ≢ queued)
unfolding rewritten
rewritten-run current now original ne = (
  ground (arith, ne),
  ground (arith, ne, text_iff current.assignee_agent_id original.assignee_agent_id),
  λ q. ground (arith, ne, q),
)

rewritten-reason :
    (current : Task) (now : ℕ) (original : Task)
    → (rewritten current now original).review_reason ≢ ""
    → (current.status ≡ needs_review)
      × ((rewritten current now original).review_reason ≡ original.review_reason)
unfolding rewritten
rewritten-reason current now original ne =
    (ground (arith, ne, status_eqb_iff current.status needs_review), ground (arith, ne))

agent-lives :
    (db : Database) (user_id : String) (t : Task)
    → agent_is_live db user_id t ≡ ok tt
    → t.assignee_agent_id ≢ ""
    → (t.status ≡ queued) ⊎ (t.status ≡ working)
    → (id : String) × (active_agent_assignment db user_id t.assignee_agent_id ≡ ok id)
unfolding agent_is_live
agent-lives db user_id t live ne state =
    elim (Result-cases (active_agent_assignment db user_id t.assignee_agent_id)) [
      | inl found ↦ found
      | inr (e, h) ↦ absurd (
          ground (
            arith,
            h,
            live,
            ne,
            state,
            text_iff t.assignee_agent_id "",
            status_eqb_iff t.status queued,
            status_eqb_iff t.status working,
          ))
    ]

assignment-same :
    (db locked : Database) (user_id agent_id : String)
    → locked.agents ≡ db.agents
    → active_agent_assignment locked user_id agent_id ≡ active_agent_assignment db user_id agent_id
unfolding active_agent_assignment
assignment-same db locked user_id agent_id e = rw e refl

module _ (db locked : Database) (user_id : String) (original : Task) (input : UpdateTaskInput)
    (now : ℕ) (move : Move) (current : Task) (same_agents : locked.agents ≡ db.agents) where
  -- The status and the assignment that are written are those of the row that was revised.
  rewritten-status : (rewritten current now original).status ≡ current.status
  unfolding rewritten
  rewritten-status = refl

  rewritten-assignee :
      (rewritten current now original).assignee_agent_id ≡ current.assignee_agent_id
  unfolding rewritten
  rewritten-assignee = refl

  starts-by-claim :
      Revised locked user_id original input false move current
      → current.status ≡ working
      → original.status ≡ working
  starts-by-claim r w =
      let settled : settled_status original.assignee_agent_id r.worked ≡ working =
        sym (ap (λ (t : Task). t.status) r.settled) ∙ w in
      let worked = (settled-working original.assignee_agent_id r.worked settled).0 in
      let moved =
        with_workflow-StartsNoWork locked user_id move.task input r.worked r.workflow worked in
      sym (with_content-SameFlow original input r.edited r.content).0.status
      ∙ sym (relisted-SameFlow locked user_id r.edited input move r.listed).0.status
      ∙ moved

  not-fresh :
      Revised locked user_id original input false move current
      → current.assignee_agent_id ≢ ""
      → current.status ≢ fresh
  not-fresh r ne f =
      settled-fresh original.assignee_agent_id r.worked
        (ground (
          arith,
          ne,
          ap (λ (t : Task). t.assignee_agent_id) r.settled,
          text_iff r.worked.assignee_agent_id "",
        ))
        (sym (ap (λ (t : Task). t.status) r.settled) ∙ f)

  Revised-Sound :
      Revised locked user_id original input false move current
      → Sound db user_id original (rewritten current now original)
  Revised-Sound r = record {
    work_starts_by_claim = λ w. starts-by-claim r (sym rewritten-status ∙ w);
    run_stays = λ ne.
        let (run, assignee, status) = rewritten-run current now original ne in
        (run, rewritten-assignee ∙ assignee, λ q. status (sym rewritten-status ∙ q));
    reason_stays = λ ne.
        let (status, reason) = rewritten-reason current now original ne in
        (rewritten-status ∙ status, reason);
    assigned_is_queued =
        λ ne f. not-fresh r (λ e. ne (rewritten-assignee ∙ e)) (sym rewritten-status ∙ f);
    agent_lives = λ ne state.
        let (id, live) =
          agent-lives locked user_id current r.live (λ e. ne (rewritten-assignee ∙ e))
            (subst (λ s. (s ≡ queued) ⊎ (s ≡ working)) rewritten-status state) in
        (
          id,
          ap (active_agent_assignment db user_id) rewritten-assignee
              ∙ sym (assignment-same db locked user_id current.assignee_agent_id same_agents)
              ∙ live,
        );
  }

-- An update that is answered, by a person's plain request or by an agent, has not started work: a
-- task at work was at work before. A run that the task still names is the run it had, for the
-- same agent, and the task is not queued; a review reason is the one it had, of a task in review;
-- a task with an agent is not new; and one that is queued or at work has an agent that is not
-- archived.
pub update_task-Sound :
    (db : Database) (user_id agent_id id : String) (input : UpdateTaskInput) (now : ℕ) (t : Task)
    (after : Database)
    → IsKeyed (λ x. x.id) db.tasks
    → update_task db user_id agent_id id input false now ≡ ok (t, after)
    → (original : Task) × (find (addressed user_id agent_id id) db.tasks ≡ some original)
      × Sound db user_id original t
update_task-Sound db user_id agent_id id input now t after keyed h =
    let u : Updated db user_id agent_id id input false now t after =
      update_task-Updated db user_id agent_id id input false now t after keyed h in
    (
      u.original,
      u.found,
      subst (Sound db user_id u.original) (sym u.answer) (
          Revised-Sound db u.locked user_id u.original input now u.move u.current
            u.locked_rows.agents
            (revised-Revised u.locked user_id u.original input false u.move u.current u.revision)),
    )
