-- ===== src/Boards/Tasks/Entries.antt =====
-- CreateTaskEntry of server/internal/boards/store.go. The fingerprint of a request, SHA-256 of its
-- JSON, is an argument.
pub mod Added
pub mod Stored
pub mod Replay
use slate_do.Prelude.{
  ℕ, zero, suc, ◌+◌, String, len, Bool, true, false, not, ◌&&◌, ◌||◌, Option, none, some, List, [],
  ◌∷◌, ◌++◌, ◌==◌, ◌!=◌, string_eq, nat_eq, find, update_where, count_where, if◌then◌else◌, ltb,
  leb, Result, ok, err, or_fail, refuse_if, ◌>>=◌, ◌>>◌,
}
use slate_do.Prelude.Int.{pos}
use slate_do.Boards.Types.{
  Task, Entry, TaskEntry, Status, working, needs_review, status_eq, Store, CreateTaskEntryInput,
  not_found, invalid_data, task_unavailable, managed_run_mismatch, idempotency_key,
}
use slate_do.Boards.Validation.{clean, valid_uuid}
use slate_do.Boards.Database.{Database, Agent, locked_task_for_agent, assigned_to}
use slate_do.Boards.Quota.{StorageQuota, lock_storage_quota, apply}

abbrev pub task_entry_bytes : ℕ
task_entry_bytes = 16384

abbrev pub task_idempotency_bytes : ℕ
task_idempotency_bytes = 200

abbrev pub max_task_entries : ℕ
max_task_entries = 200

-- A request whose texts have passed the tests before the transaction.
pub record Request : Type 0 where
  pub task_id : String
  pub kind : String
  pub body : String
  pub key : String
  pub run_id : String
  pub author_kind : String
  pub author_id : String
  pub request_hash : String

unfoldable pub prepare_entry :
    (String → String → String) → String → String → String → CreateTaskEntryInput → Store Request
prepare_entry fingerprint user_id agent_id task_id input = do
  refuse_if (not (valid_uuid task_id)) (invalid_data "task ID must be a valid ID")
  let body = clean input.body
  let kind = clean input.kind
  let key = clean input.idempotency_key
  let run_id = clean input.run_id
  refuse_if (body == "") (invalid_data "entry body is required")
  refuse_if (not (kind == "comment") && not (kind == "output"))
      (invalid_data "entry kind must be comment or output")
  refuse_if (ltb task_entry_bytes (len body))
      (invalid_data "entry body must be 16384 UTF-8 bytes or fewer")
  refuse_if (ltb task_idempotency_bytes (len key))
      (invalid_data "idempotency key must be 200 UTF-8 bytes or fewer")
  refuse_if (not (run_id == "") && not (valid_uuid run_id))
      (invalid_data "run ID must be a valid ID")
  refuse_if (not (run_id == "") && key == "")
      (invalid_data "managed run entries require an idempotency key")
  ok (record {
    task_id = task_id;
    kind = kind;
    body = body;
    key = key;
    run_id = run_id;
    author_kind = if agent_id == "" then "human" else "agent";
    author_id = if agent_id == "" then user_id else agent_id;
    request_hash = fingerprint kind body;
  })

-- The task of the replay query: for an agent, its own task and the run that it names.
abbrev pub replay_task : String → String → Request → Task → Bool
replay_task user_id agent_id r t =
    t.owner_user_id == user_id
    && t.id == r.task_id
    && (agent_id == "" || (t.assignee_agent_id == agent_id && t.execution_run_id == r.run_id))

abbrev pub same_key : Request → Entry → Bool
same_key r e =
    e.task_id == r.task_id
    && e.author_kind == r.author_kind
    && e.author_id == r.author_id
    && e.idempotency_key == r.key

-- What a replay answers: the entry, with the state that its run left; other entries show the
-- task's.
abbrev pub replayed : Entry → Task → TaskEntry
replayed e t =
    if e.run_id == ""
    then record { entry = e; task_status = t.status; task_review_reason = t.review_reason }
    else if e.kind == "output"
    then record { entry = e; task_status = needs_review; task_review_reason = "output" }
    else record { entry = e; task_status = working; task_review_reason = "" }

-- The replay query and the tests on its row: `some` when the row answers the request.
unfoldable pub replay : Database → String → String → Request → Store (Option TaskEntry)
replay db user_id agent_id r =
    if r.key == "" then ok none else elim (find (replay_task user_id agent_id r) db.tasks) [
      | none ↦ ok none
      | some t ↦ elim (find (same_key r) db.entries) [
        | none ↦ ok none
        | some e ↦
            if not (e.request_hash == r.request_hash) || not (e.run_id == r.run_id)
            then err idempotency_key
            else ok (some (replayed e t))
      ]
    ]

-- What an agent must show for the task it writes to.
unfoldable pub run_fence : String → Request → Task → Store (Unit {0})
run_fence agent_id r t =
    if agent_id == ""
    then ok tt
    else if t.execution_run_id == ""
    then refuse_if (not (r.run_id == "")) managed_run_mismatch
    else refuse_if (r.run_id == "" || not (r.run_id == t.execution_run_id)) managed_run_mismatch
      >> refuse_if (not (t.status == working)) task_unavailable

-- The name that the entry shows.
unfoldable pub author_name_of : Database → String → String → String → Store String
author_name_of db user_id agent_id given_name = do
  name ←
      if agent_id == ""
      then ok given_name
      else or_fail
          (find (λ a. a.id == agent_id && a.owner_user_id == user_id && not a.archived) db.agents)
          not_found
        >>= λ a. ok a.name
  ok (if clean name == "" then "You" else clean name)

abbrev pub entry_row : String → ℕ → String → Request → Entry
entry_row id now author_name r = record {
  id = id;
  task_id = r.task_id;
  kind = r.kind;
  body = r.body;
  author_kind = r.author_kind;
  author_id = r.author_id;
  author_name = author_name;
  idempotency_key = r.key;
  request_hash = r.request_hash;
  run_id = r.run_id;
  created_at = now;
}

-- The row that an output moves to review.
abbrev pub reviewable : Request → Task → Bool
reviewable r t =
    t.id == r.task_id && (r.run_id == "" || (t.status == working && t.execution_run_id == r.run_id))

abbrev pub in_review : ℕ → Task → Task
in_review now t = record t { status = needs_review; review_reason = "output"; updated_at = now }

-- `UPDATE tasks SET status = 'needs_review'`, which must change one row.
unfoldable pub send_to_review : Request → ℕ → List Task → Store (List Task)
send_to_review r now tasks =
    if r.kind == "output"
    then refuse_if (not (count_where (reviewable r) tasks == 1)) managed_run_mismatch
      >> ok (update_where (reviewable r) (in_review now) tasks)
    else ok tasks

abbrev pub entry_answer : Entry → Task → TaskEntry
entry_answer e t =
    if e.kind == "output"
    then record { entry = e; task_status = needs_review; task_review_reason = "output" }
    else record { entry = e; task_status = t.status; task_review_reason = t.review_reason }

-- The transaction of an entry that is not a replay.
unfoldable pub add_entry :
    Database → String → String → String → Request → ℕ → String → Store (TaskEntry × Database)
add_entry db0 user_id agent_id given_name r now id = do
  (quota, db) ← lock_storage_quota db0 user_id
  task ← locked_task_for_agent db user_id agent_id r.task_id
  run_fence agent_id r task
  author_name ← author_name_of db user_id agent_id given_name
  refuse_if (leb max_task_entries (count_where (λ e. e.task_id == r.task_id) db.entries))
      (invalid_data "tasks can contain at most 200 conversation entries")
  let entry = entry_row id now author_name r
  counted ← apply quota db (pos 0) (pos (len r.body))
  tasks ← send_to_review r now counted.tasks
  ok (
    entry_answer entry task,
    record counted { tasks = tasks; entries = counted.entries ++ entry ∷ [] },
  )

-- `CreateTaskEntry`
unfoldable pub create_task_entry :
    (String → String → String)
    → Database
    → String
    → String
    → String
    → String
    → CreateTaskEntryInput
    → ℕ
    → String
    → Store (TaskEntry × Database)
create_task_entry fingerprint db user_id agent_id author_name task_id input now id = do
  r ← prepare_entry fingerprint user_id agent_id task_id input
  existing ← replay db user_id agent_id r
  elim existing [
    | some answer ↦ ok (answer, db)
    | none ↦ add_entry db user_id agent_id author_name r now id
  ]
