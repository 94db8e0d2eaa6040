-- ===== src/Boards/Tasks/Create.antt =====
-- CreateTask, CreateInboxTask and CreateSubtask of server/internal/boards/store.go. What rests on
-- JSON and SHA-256 is an argument, as are the time and the ID that the database draws.
pub mod Inserted
pub mod Replay
use Prim.Native.String.{◌++◌ as ◌joined◌}
use slate_do.Prelude.{
  ℕ, zero, suc, ◌+◌, String, len, Bool, true, false, not, ◌&&◌, ◌||◌, Option, none, some, List, [],
  ◌∷◌, ◌++◌, map, ◌==◌, string_eq, find, any, keep, if◌then◌else◌, ltb, Result, ok, err, or_fail,
  refuse_if, ◌>>=◌, ◌>>◌,
}
use slate_do.Prelude.Int.{ℤ, pos}
use slate_do.Boards.Types.{
  Task, Status, fresh, queued, status_eq, Priority, Kind, Bucket, Store, idempotency_key,
  idempotency_gone, not_found, invalid_data,
}
use slate_do.Boards.Validation.{
  clean, valid_date, valid_kind, valid_status, valid_priority, valid_uuid,
}
use slate_do.Boards.Database.{
  Database, IdempotencyKey, locked_bucket, locked_task, active_agent_assignment,
}
use slate_do.Boards.Quota.{lock_storage_quota, apply}
use slate_do.Boards.Buckets.{next_sort_order, ensure_inbox_bucket_id, owned}
use slate_do.Boards.Tasks.Entries.{task_idempotency_bytes}

pub record CreateTaskInput : Type 0 where
  pub title : String
  pub description : String
  pub scheduled_date : String
  pub kind : String
  pub status : String
  pub priority : String
  pub override_limit : Bool
  pub assignee_agent_id : String
  pub parent_task_id : String
  pub idempotency_key : String

-- The normalized texts of a request, which the fingerprints and the request data are taken of.
pub record Fields : Type 0 where
  pub title : String
  pub description : String
  pub scheduled_date : String
  pub kind : String
  pub status : String
  pub priority : String
  pub assignee_agent_id : String
  pub parent_task_id : String
  pub override_limit : Bool

-- The functions of a request that end in JSON or SHA-256. The first two get the target's name, and
-- like the third they do not read the status and the priority.
pub record Encodings : Type 0 where
  pub top_level_fingerprint : String → Fields → String
  pub parent_aware_fingerprint : String → Fields → String
  pub request_data : Fields → String
  pub request_data_v2 : Fields → String
  pub data_hash : String → String

pub record Prepared : Type 0 where
  pub fields : Fields
  pub kind : Kind
  pub status : Option Status
  pub priority : Priority
  pub key : String
  pub fingerprint : String
  pub request_data : String
  pub legacy_request_data : String
  pub compatible_fingerprints : List String
  pub strict_request_data : Bool

abbrev some_status : String → Store (Option Status)
some_status text =
    if text == ""
    then ok none
    else or_fail (valid_status text) (invalid_data "invalid task status") >>= λ s. ok (some s)

-- `taskCreateFingerprint`
abbrev pub task_create_fingerprint : Encodings → String → Fields → String
task_create_fingerprint e target f =
    if f.parent_task_id == ""
    then e.top_level_fingerprint target f
    else e.parent_aware_fingerprint target f

-- `prepareTaskCreate`
unfoldable pub prepare_task_create : Encodings → CreateTaskInput → String → Store Prepared
prepare_task_create e input target = do
  let title = clean input.title
  refuse_if (title == "") (invalid_data "task title is required")
  date ← valid_date input.scheduled_date
  let kind_text = if clean input.kind == "" then "action" else clean input.kind
  kind ← or_fail (valid_kind kind_text) (invalid_data "invalid item kind")
  status ← some_status (clean input.status)
  priority ← or_fail (valid_priority (clean input.priority)) (invalid_data "invalid priority")
  let parent_id = clean input.parent_task_id
  refuse_if (not (parent_id == "") && not (valid_uuid parent_id))
      (invalid_data "parentTaskId must be a valid ID")
  let key = clean input.idempotency_key
  refuse_if (ltb task_idempotency_bytes (len key))
      (invalid_data "idempotency key must be 200 UTF-8 bytes or fewer")
  let fields : Fields = record {
    title = title;
    description = input.description;
    scheduled_date = date;
    kind = kind_text;
    status = clean input.status;
    priority = clean input.priority;
    assignee_agent_id = input.assignee_agent_id;
    parent_task_id = parent_id;
    override_limit = input.override_limit;
  }
  ok (record {
    fields = fields;
    kind = kind;
    status = status;
    priority = priority;
    key = key;
    fingerprint = if key == "" then "" else task_create_fingerprint e target fields;
    request_data = if key == "" then "" else e.request_data_v2 fields;
    legacy_request_data = if key == "" then "" else e.request_data fields;
    compatible_fingerprints =
        if not (key == "") && parent_id == ""
        then e.parent_aware_fingerprint target fields ∷ []
        else [];
    strict_request_data = not (clean input.status == "") || not (clean input.priority == "");
  })

abbrev pub keyed_by : String → String → IdempotencyKey → Bool
keyed_by user_id key k = k.user_id == user_id && k.key == key

-- The parent of a key's task, in the LEFT JOIN.
abbrev parent_of : Database → String → String
parent_of db task_id = elim (find (λ t. t.id == task_id) db.tasks) [
  | none ↦ ""
  | some t ↦ t.parent_task_id
]

-- Whether a stored key is for this request.
unfoldable pub key_matches : Encodings → Database → Prepared → IdempotencyKey → Bool
key_matches e db p k =
    let same_v2 =
      k.request_data_hash == e.data_hash p.request_data && not (k.request_data_hash == "") in
    let same_v1 =
      k.request_data_hash == e.data_hash p.legacy_request_data && not (k.request_data_hash == "") in
    let same_data = same_v2 || (not p.strict_request_data && same_v1) in
    let fingerprint =
      (k.request_hash == p.fingerprint || any (λ f. k.request_hash == f) p.compatible_fingerprints)
      && (not p.strict_request_data || same_data) in
    let child = not (p.fields.parent_task_id == "") && not (k.task_id == "") in
    fingerprint
    || (child && same_data)
    || (child
        && not p.strict_request_data
        && k.request_data_hash == ""
        && parent_of db k.task_id == p.fields.parent_task_id)

-- The task that a stored key answers with.
unfoldable pub replayed_task : Encodings → Database → String → Prepared → Store (Option Task)
replayed_task e db user_id p =
    if p.key == "" then ok none else elim (find (keyed_by user_id p.key) db.keys) [
      | none ↦ ok none
      | some k ↦
          if not (key_matches e db p k)
          then err idempotency_key
          else if k.task_id == ""
          then err idempotency_gone
          else or_fail (find (λ t. t.id == k.task_id) db.tasks) idempotency_gone >>= λ t.
              ok (some t)
    ]

-- The list that a subtask goes to is its parent's.
unfoldable pub target_list : Database → String → Prepared → String → Store String
target_list db user_id p bucket_id =
    if p.fields.parent_task_id == ""
    then ok bucket_id
    else locked_task db user_id p.fields.parent_task_id >>= λ parent.
        refuse_if (not (parent.parent_task_id == ""))
          (invalid_data "subtasks cannot contain subtasks")
        >> ok parent.bucket_id

-- `insertTask`; the owner is the list's, which a trigger writes.
unfoldable pub task_row : Database → Bucket → Prepared → String → ℕ → String → Task
task_row db bucket p assignee now id = record {
  id = id;
  bucket_id = bucket.id;
  owner_user_id = bucket.user_id;
  title = p.fields.title;
  description = p.fields.description;
  scheduled_date = p.fields.scheduled_date;
  kind = p.kind;
  status = if not (assignee == "") then queued else elim p.status [ none ↦ fresh | some s ↦ s ];
  priority = p.priority;
  assignee_agent_id = assignee;
  execution_run_id = "";
  review_reason = "";
  parent_task_id = p.fields.parent_task_id;
  sort_order =
      next_sort_order (map (λ t. t.sort_order) (keep (λ t. t.bucket_id == bucket.id) db.tasks));
  created_at = now;
  updated_at = now;
}

abbrev pub key_row : Encodings → String → Prepared → String → IdempotencyKey
key_row e user_id p task_id = record {
  user_id = user_id;
  key = p.key;
  request_hash = p.fingerprint;
  task_id = task_id;
  request_data_hash = e.data_hash p.request_data;
}

-- The rows of a new task; `checkTaskCapacity` admits every task.
unfoldable pub insert_created : Encodings → Database → String → Prepared → Task → Database
insert_created e db user_id p task = record db {
  tasks = db.tasks ++ task ∷ [];
  keys = if p.key == "" then db.keys else db.keys ++ key_row e user_id p task.id ∷ [];
}

-- The transaction of a task that is not a replay.
unfoldable pub add_task :
    Encodings → Database → String → String → Prepared → ℕ → String → Store (Task × Database)
add_task e db0 user_id bucket_id p now id = do
  (quota, db) ← lock_storage_quota db0 user_id
  list ← target_list db user_id p bucket_id
  bucket ← locked_bucket db user_id list
  counted ← apply quota db (pos 1) (pos (len p.fields.title + len p.fields.description))
  assignee ← active_agent_assignment counted user_id p.fields.assignee_agent_id
  let task = task_row counted bucket p assignee now id
  ok (task, insert_created e counted user_id p task)

-- `createTask`
unfoldable pub create_prepared :
    Encodings → Database → String → String → Prepared → ℕ → String → Store (Task × Database)
create_prepared e db user_id bucket_id p now id = do
  existing ← replayed_task e db user_id p
  elim existing [ some task ↦ ok (task, db) | none ↦ add_task e db user_id bucket_id p now id ]

-- `CreateTask`
unfoldable pub create_task :
    Encodings → Database → String → String → CreateTaskInput → ℕ → String → Store (Task × Database)
create_task e db user_id bucket_id input now id = do
  p ← prepare_task_create e input bucket_id
  create_prepared e db user_id bucket_id p now id

-- `CreateInboxTask`, with the IDs of the task and of an Inbox that may have to be made
unfoldable pub create_inbox_task :
    Encodings → Database → String → CreateTaskInput → ℕ → String → String → Store (Task × Database)
create_inbox_task e db user_id input now id inbox_id = do
  p ← prepare_task_create e input "account-inbox"
  (bucket_id, repaired) ← ensure_inbox_bucket_id db user_id now inbox_id
  create_prepared e repaired user_id bucket_id p now id

-- `CreateSubtask`: a key may also have been stored under the fingerprint of any of the account's
-- lists.
unfoldable pub create_subtask :
    Encodings → Database → String → String → CreateTaskInput → ℕ → String → Store (Task × Database)
create_subtask e db user_id parent_id input now id = do
  refuse_if (not (valid_uuid parent_id)) (invalid_data "parent task ID must be a valid ID")
  parent ← locked_task db user_id parent_id
  refuse_if (not (parent.parent_task_id == "")) (invalid_data "subtasks cannot contain subtasks")
  p ←
      prepare_task_create e (record input { parent_task_id = parent.id })
        ("parent:" joined parent.id)
  let compatible =
      if p.key == ""
      then []
      else map (λ b. e.parent_aware_fingerprint b.id p.fields) (keep (owned user_id) db.buckets)
  create_prepared e db user_id parent.bucket_id
      (record p { compatible_fingerprints = p.compatible_fingerprints ++ compatible }) now id
