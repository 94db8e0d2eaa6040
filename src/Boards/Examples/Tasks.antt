-- ===== src/Boards/Examples/Tasks.antt =====
-- Runs of the task operations: the theorems' hypotheses hold there.
use slate_do.Prelude.{
  ◌≤◌, String, ◌≡◌, refl, true, false, none, some, List, [], ◌∷◌, ◌==◌, string_eq, find, ok,
}
use slate_do.Boards.Types.{
  Task, Entry, TaskEntry, fresh, working, UpdateTaskInput, CreateTaskEntryInput,
}
use slate_do.Boards.Database.{Database, locked_task_for_agent}
use slate_do.Boards.Validation.{clean, valid_uuid}
use slate_do.Boards.Tasks.Claim.{claim_task}
use slate_do.Boards.Tasks.Claim.Exclusive.{
  Claimer, claims, wins, claims-exclusive, claim_task-Claimed, Claimed,
}
use slate_do.Prelude.Text.{trim_space}
use slate_do.Boards.Validation.{valid_status, valid_priority, apply_task_status}
use slate_do.Boards.Database.{account_limits_for_update, locked_bucket, active_agent_assignment}
use slate_do.Boards.Quota.{lock_storage_quota, apply}
use slate_do.Boards.Tasks.Update.{
  managed_run_fence, with_content, relisted, with_workflow, settled_status, agent_is_live,
  capacity_checked, rewritten, rearranged, revised, write_task, save_task, update_task,
  update_task_for_agent,
}
use slate_do.Boards.Tasks.Update.Fence.{AgentUpdate, update_task_for_agent-AgentUpdate}
use slate_do.Boards.Tasks.Update.Outcome.{Sound, update_task-Sound}
use slate_do.Boards.Tasks.Update.Written.{addressed}
use slate_do.Boards.Tasks.Entries.{
  Request, prepare_entry, replay, run_fence, author_name_of, send_to_review, add_entry,
  create_task_entry,
}
use slate_do.Boards.Tasks.Entries.Replay.{Again, create_task_entry-replayed}
use slate_do.Boards.Tasks.Accounting.{Accounted}
use slate_do.Boards.Tasks.Accounting.Updates.{update_task-Accounted}
use slate_do.Boards.Tasks.Accounting.Additions.{add_entry-Accounted}
use slate_do.Boards.Tasks.Positions.{write_task_order}
use slate_do.Entitlements.{resolve}
use slate_do.Boards.Examples.{
  task_id, agent_id, run_id, task_row, waiting, running, waiting-IsKeyed, running-IsKeyed, got,
}

abbrev claimers : List Claimer
claimers =
    record { agent_id = agent_id; run_id = run_id; now = 7 }
    ∷ record { agent_id = agent_id; run_id = agent_id; now = 8 }
    ∷ []

first-wins : (claims waiting "ann" task_id claimers).0 ≡ true ∷ false ∷ []
unfolding claims claim_task
first-wins = refl

claims-exclusive_example : wins (claims waiting "ann" task_id claimers).0 ≤ 1
claims-exclusive_example = claims-exclusive waiting "ann" task_id claimers waiting-IsKeyed

claim_task-Claimed_example :
    Claimed waiting "ann" agent_id task_id run_id
      (record (task_row working run_id) { updated_at = 7 })
      (record waiting { tasks = record (task_row working run_id) { updated_at = 7 } ∷ [] })
unfolding claim_task
claim_task-Claimed_example =
    claim_task-Claimed waiting "ann" agent_id task_id run_id 7 _ _ waiting-IsKeyed refl

abbrev retitle : UpdateTaskInput
retitle = record {
  title = some " Write it ";
  description = none;
  scheduled_date = none;
  kind = none;
  bucket_id = none;
  status = none;
  done = none;
  priority = some "p1";
  assignee_agent_id = none;
  sort_order = none;
  run_id = run_id;
}

retitled : Task × Database
unfolding update_task_for_agent update_task locked_task_for_agent managed_run_fence revised
    with_content relisted with_workflow settled_status agent_is_live capacity_checked write_task
    save_task rewritten rearranged write_task_order lock_storage_quota account_limits_for_update
    resolve apply active_agent_assignment valid_uuid valid_priority locked_bucket trim_space
retitled =
    got (update_task_for_agent running "ann" agent_id task_id retitle 9)
      (task_row working run_id, running)

retitled-ok :
    update_task_for_agent running "ann" agent_id task_id retitle 9 ≡ ok (retitled.0, retitled.1)
unfolding retitled update_task_for_agent update_task locked_task_for_agent managed_run_fence revised
    with_content relisted with_workflow settled_status agent_is_live capacity_checked write_task
    save_task rewritten rearranged write_task_order lock_storage_quota account_limits_for_update
    resolve apply active_agent_assignment valid_uuid valid_priority locked_bucket trim_space
retitled-ok = refl

update_task_for_agent-AgentUpdate_example :
    (original : Task) × (find (addressed "ann" agent_id task_id) running.tasks ≡ some original)
    × AgentUpdate running task_id retitle original retitled.0 retitled.1
update_task_for_agent-AgentUpdate_example =
    update_task_for_agent-AgentUpdate running "ann" agent_id task_id retitle 9 retitled.0 retitled.1
      running-IsKeyed refl retitled-ok

-- A person hands the task over to nobody and moves it to review.
abbrev review : UpdateTaskInput
review = record retitle { status = some "needs_review"; title = some "Longer title"; run_id = "" }

reviewed : Task × Database
unfolding update_task locked_task_for_agent revised with_content relisted apply_task_status
    valid_status with_workflow settled_status agent_is_live capacity_checked write_task save_task
    rewritten rearranged write_task_order lock_storage_quota account_limits_for_update resolve apply
    active_agent_assignment valid_uuid valid_priority locked_bucket trim_space
reviewed =
    got (update_task running "ann" "" task_id review false 9) (task_row working run_id, running)

reviewed-ok : update_task running "ann" "" task_id review false 9 ≡ ok (reviewed.0, reviewed.1)
unfolding reviewed update_task locked_task_for_agent revised with_content relisted apply_task_status
    valid_status with_workflow settled_status agent_is_live capacity_checked write_task save_task
    rewritten rearranged write_task_order lock_storage_quota account_limits_for_update resolve apply
    active_agent_assignment valid_uuid valid_priority locked_bucket trim_space
reviewed-ok = refl

update_task-Sound_example :
    (original : Task) × (find (addressed "ann" "" task_id) running.tasks ≡ some original)
    × Sound running "ann" original reviewed.0
update_task-Sound_example =
    update_task-Sound running "ann" "" task_id review 9 reviewed.0 reviewed.1 running-IsKeyed
      reviewed-ok

running-Accounted : Accounted running "ann"
running-Accounted = record { count = refl; bytes = refl }

update_task-Accounted_example : Accounted reviewed.1 "ann"
update_task-Accounted_example =
    update_task-Accounted running "ann" "" task_id review false 9 reviewed.0 reviewed.1 "ann"
      running-IsKeyed reviewed-ok running-Accounted

abbrev output : CreateTaskEntryInput
output = record {
  kind = "output";
  body = " Done. ";
  idempotency_key = "run-output";
  run_id = run_id;
}

abbrev joined : String → String → String
joined kind body = kind

written : TaskEntry × Database
unfolding create_task_entry prepare_entry replay add_entry run_fence author_name_of send_to_review
    locked_task_for_agent lock_storage_quota account_limits_for_update resolve apply valid_uuid
    trim_space
written =
    got (create_task_entry joined running "ann" agent_id "" task_id output 9 "e1")
      (record { entry = blank; task_status = fresh; task_review_reason = "" }, running)
  where
    blank : Entry
    blank = record {
      id = "";
      task_id = "";
      kind = "";
      body = "";
      author_kind = "";
      author_id = "";
      author_name = "";
      idempotency_key = "";
      request_hash = "";
      run_id = "";
      created_at = 0;
    }

written-ok :
    create_task_entry joined running "ann" agent_id "" task_id output 9 "e1"
    ≡ ok (written.0, written.1)
unfolding written create_task_entry prepare_entry replay add_entry run_fence author_name_of
    send_to_review locked_task_for_agent lock_storage_quota account_limits_for_update resolve apply
    valid_uuid trim_space
written-ok = refl

output-key : (clean output.idempotency_key == "") ≡ false
unfolding trim_space
output-key = refl

create_task_entry-replayed_example :
    (again : TaskEntry) × (create_task_entry joined written.1 "ann" agent_id "" task_id output 12
        "e2"
      ≡ ok (again, written.1))
    × Again agent_id written.0 again
create_task_entry-replayed_example =
    create_task_entry-replayed joined running "ann" agent_id "" task_id output 9 12 "e1" "e2"
      written.0 written.1 running-IsKeyed ((λ h. refl), tt) output-key written-ok

abbrev request : Request
request = record {
  task_id = task_id;
  kind = "output";
  body = "Done.";
  key = "run-output";
  run_id = run_id;
  author_kind = "agent";
  author_id = agent_id;
  request_hash = "output";
}

added-ok : add_entry running "ann" agent_id "" request 9 "e1" ≡ ok (written.0, written.1)
unfolding written create_task_entry prepare_entry replay add_entry run_fence author_name_of
    send_to_review locked_task_for_agent lock_storage_quota account_limits_for_update resolve apply
    valid_uuid trim_space
added-ok = refl

add_entry-Accounted_example : Accounted written.1 "ann"
add_entry-Accounted_example =
    add_entry-Accounted running "ann" agent_id "" request 9 "e1" written.0 written.1 "ann"
      running-IsKeyed added-ok running-Accounted
