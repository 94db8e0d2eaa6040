-- ===== src/Boards/Examples/Creation.antt =====
-- A run of a creation: the theorems' hypotheses hold there.
use slate_do.Prelude.{
  String, ◌≡◌, refl, false, none, [], ok, if◌then◌else◌, ◌==◌, string_eq, Bool-cases, inl, inr,
}
use slate_do.Prelude.Text.{trim_space}
use slate_do.Boards.Types.{Task, working, action, unset}
use slate_do.Boards.Validation.{
  clean, valid_status, valid_priority, valid_kind, valid_date, valid_uuid,
}
use slate_do.Boards.Database.{
  Database, account_limits_for_update, locked_bucket, locked_task_for_agent,
  active_agent_assignment,
}
use slate_do.Boards.Quota.{lock_storage_quota, apply}
use slate_do.Boards.Buckets.{next_sort_order}
use slate_do.Boards.Tasks.Accounting.{Accounted}
use slate_do.Boards.Tasks.Create.{
  Encodings, CreateTaskInput, Prepared, prepare_task_create, replayed_task, target_list,
  insert_created, add_task, create_prepared, create_task, task_row as new_row,
}
use slate_do.Boards.Tasks.Create.Inserted.{add_task-Accounted}
use slate_do.Boards.Tasks.Create.Replay.{create_task-replayed}
use slate_do.Entitlements.{resolve}
use slate_do.Boards.Examples.{agent_id, task_id, run_id, task_row, running, got}

abbrev digest : String → String
digest s = if s == "" then "-" else s

digest-some : (s : String) → (digest s == "") ≡ false
digest-some s = elim (Bool-cases (s == "")) [ inl e ↦ rw e refl | inr e ↦ rw e e ]

abbrev plain : Encodings
plain = record {
  top_level_fingerprint = λ target f. f.title;
  parent_aware_fingerprint = λ target f. f.parent_task_id;
  request_data = λ f. f.title;
  request_data_v2 = λ f. f.description;
  data_hash = digest;
}

abbrev report : CreateTaskInput
report = record {
  title = " Report";
  description = "Weekly";
  scheduled_date = "";
  kind = "";
  status = "";
  priority = "p1";
  override_limit = false;
  assignee_agent_id = agent_id;
  parent_task_id = task_id;
  idempotency_key = "report-1";
}

created : Task × Database
unfolding create_task prepare_task_create valid_date valid_kind valid_status valid_priority
    valid_uuid create_prepared replayed_task add_task lock_storage_quota account_limits_for_update
    resolve target_list locked_task_for_agent locked_bucket apply active_agent_assignment
    insert_created new_row next_sort_order trim_space
created =
    got (create_task plain running "ann" "inbox" report 9 "t2") (task_row working run_id, running)

created-ok : create_task plain running "ann" "inbox" report 9 "t2" ≡ ok (created.0, created.1)
unfolding created create_task prepare_task_create valid_date valid_kind valid_status valid_priority
    valid_uuid create_prepared replayed_task add_task lock_storage_quota account_limits_for_update
    resolve target_list locked_task_for_agent locked_bucket apply active_agent_assignment
    insert_created new_row next_sort_order trim_space
created-ok = refl

report-key : (clean report.idempotency_key == "") ≡ false
unfolding trim_space
report-key = refl

create_task-replayed_example :
    create_task plain created.1 "ann" "inbox" report 12 "t3" ≡ ok (created.0, created.1)
create_task-replayed_example =
    create_task-replayed plain running "ann" "inbox" report 9 12 "t2" "t3" created.0 created.1
      digest-some refl refl report-key created-ok

abbrev prepared : Prepared
prepared = record {
  fields = record {
    title = "Report";
    description = "Weekly";
    scheduled_date = "";
    kind = "action";
    status = "";
    priority = "";
    assignee_agent_id = "";
    parent_task_id = "";
    override_limit = false;
  };
  kind = action;
  status = none;
  priority = unset;
  key = "";
  fingerprint = "";
  request_data = "";
  legacy_request_data = "";
  compatible_fingerprints = [];
  strict_request_data = false;
}

added : Task × Database
unfolding add_task lock_storage_quota account_limits_for_update resolve target_list locked_bucket
    apply active_agent_assignment insert_created new_row next_sort_order trim_space
added =
    got (add_task plain running "ann" "inbox" prepared 9 "t2") (task_row working run_id, running)

added-ok : add_task plain running "ann" "inbox" prepared 9 "t2" ≡ ok (added.0, added.1)
unfolding added add_task lock_storage_quota account_limits_for_update resolve target_list
    locked_bucket apply active_agent_assignment insert_created new_row next_sort_order trim_space
added-ok = refl

running-Accounted : Accounted running "ann"
running-Accounted = record { count = refl; bytes = refl }

add_task-Accounted_example : Accounted added.1 "ann"
add_task-Accounted_example =
    add_task-Accounted plain running "ann" "inbox" prepared 9 "t2" added.0 added.1 "ann" refl
      added-ok running-Accounted
