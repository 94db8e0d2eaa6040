-- ===== src/Boards/Types.antt =====
-- server/internal/boards/types.go, and the errors of store.go: the rows of the store and the inputs
-- of its operations. A NULL column is the empty text, as COALESCE and NULLIF read and write it.
use slate_do.Prelude.{ℕ, String, ◌≡◌, ◌↔◌, Bool, true, false, Option, arith, Eq, string_eq, Result}
use slate_do.Prelude.Int.{ℤ}

pub data Status : Type 0 where
  fresh queued working needs_review done : Status

pub data Priority : Type 0 where
  unset p0 p1 p2 p3 : Priority

-- The one kind that the column's CHECK admits.
pub data Kind : Type 0 where
  action : Kind

pub data Error : Type 0 where
  not_found limit_full list_limit active_item_limit task_unavailable idempotency_key
        idempotency_gone :
      Error
  agent_task_scope managed_run_mismatch managed_run_status_locked : Error
  invalid_data : String → Error
  stored_task_limit stored_content_limit : ℕ → ℕ → Error
  counters_negative : String → Error

abbrev pub Store {ℓ} : Type ℓ → Type ℓ
Store A = Result Error A

abbrev pub status_eqb : Status → Status → Bool
status_eqb fresh fresh = true
status_eqb queued queued = true
status_eqb working working = true
status_eqb needs_review needs_review = true
status_eqb done done = true
status_eqb _ _ = false

pub status_eqb_iff : (a b : Status) → (status_eqb a b ≡ true) ↔ (a ≡ b)
status_eqb_iff fresh b = ground arith
status_eqb_iff queued b = ground arith
status_eqb_iff working b = ground arith
status_eqb_iff needs_review b = ground arith
status_eqb_iff done b = ground arith

instance abbrev pub status_eq : Eq Status
status_eq = record { test = status_eqb; decides = status_eqb_iff }

pub record Bucket : Type 0 where
  pub id : String
  pub user_id : String
  pub name : String
  pub goal : String
  pub color : String
  pub is_inbox : Bool
  pub limit_count : ℤ
  pub sort_order : ℤ
  pub created_at : ℕ
  pub updated_at : ℕ

-- A row of `tasks`; `storage_bytes` is generated from the title and the description.
pub record Task : Type 0 where
  pub id : String
  pub bucket_id : String
  pub owner_user_id : String
  pub title : String
  pub description : String
  pub scheduled_date : String
  pub kind : Kind
  pub status : Status
  pub priority : Priority
  pub assignee_agent_id : String
  pub execution_run_id : String
  pub review_reason : String
  pub parent_task_id : String
  pub sort_order : ℤ
  pub created_at : ℕ
  pub updated_at : ℕ

-- A row of `card_entries`.
pub record Entry : Type 0 where
  pub id : String
  pub task_id : String
  pub kind : String
  pub body : String
  pub author_kind : String
  pub author_id : String
  pub author_name : String
  pub idempotency_key : String
  pub request_hash : String
  pub run_id : String
  pub created_at : ℕ

-- What `CreateTaskEntry` returns: the entry and the task's state after it.
pub record TaskEntry : Type 0 where
  pub entry : Entry
  pub task_status : Status
  pub task_review_reason : String

pub record CreateBucketInput : Type 0 where
  pub name : String
  pub goal : String
  pub color : String
  pub limit_count : ℤ
  pub is_inbox : Bool

pub record UpdateBucketInput : Type 0 where
  pub name : Option String
  pub goal : Option String
  pub color : Option String
  pub limit_count : Option ℤ
  pub is_inbox : Option Bool
  pub sort_order : Option ℤ

pub record UpdateTaskInput : Type 0 where
  pub title : Option String
  pub description : Option String
  pub scheduled_date : Option String
  pub kind : Option String
  pub bucket_id : Option String
  pub status : Option String
  pub done : Option Bool
  pub priority : Option String
  pub assignee_agent_id : Option String
  pub sort_order : Option ℤ
  pub run_id : String

pub record CreateTaskEntryInput : Type 0 where
  pub kind : String
  pub body : String
  pub idempotency_key : String
  pub run_id : String
