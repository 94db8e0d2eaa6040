-- ===== src/Boards/Buckets/History.antt =====
-- Sequences of list operations of server/internal/boards/store.go, each in its own transaction.
use slate_do.Prelude.{
  ℕ, String, ◌≡◌, refl, List, [], ◌∷◌, ◌==◌, string_eq, ok, err, arith, text_iff, Bool-cases, inl,
  inr, subst, Result-cases,
}
use slate_do.Boards.Types.{Bucket, Store, CreateBucketInput, UpdateBucketInput}
use slate_do.Boards.Database.{Database}
use slate_do.Boards.Buckets.{ensure_inbox_bucket_id, create_bucket}
use slate_do.Boards.Buckets.Change.{update_bucket, delete_bucket}
use slate_do.Boards.Buckets.Inbox.{IsMarked, Keeps, inboxes, IsNew, create_bucket-Keeps}
use slate_do.Boards.Buckets.Marker.{update_bucket-Keeps}
use slate_do.Boards.Buckets.Removal.{delete_bucket-Keeps}
use slate_do.Boards.Buckets.Repair.{Repaired, ensure_inbox_bucket_id-Repaired}
use slate_do.Boards.Buckets.Reorder.{reorder_buckets}
use slate_do.Boards.Buckets.Reorder.Outcome.{reorder_buckets-Keeps}

-- A call of a list operation for an account, with the time and the ID that the database draws.
pub data Call : Type 0 where
  create_list : String → CreateBucketInput → ℕ → String → Call
  update_list : String → String → UpdateBucketInput → ℕ → Call
  delete_list : String → String → Call
  repair_inbox : String → ℕ → String → Call
  reorder_lists : String → List String → ℕ → Call

abbrev pub second : {A : Type 0} → Store (A × Database) → Store Database
second (ok (a, db)) = ok db
second (err e) = err e

abbrev pub outcome : Call → Database → Store Database
outcome (create_list user_id input now id) db = second (create_bucket db user_id input now id)
outcome (update_list user_id id input now) db = second (update_bucket db user_id id input now)
outcome (delete_list user_id id) db = delete_bucket db user_id id
outcome (repair_inbox user_id now id) db = second (ensure_inbox_bucket_id db user_id now id)
outcome (reorder_lists user_id ids now) db = reorder_buckets db user_id ids now

-- A call that fails has rolled back.
abbrev pub step : Call → Database → Database
step call db = elim (outcome call db) [ ok after ↦ after | err e ↦ db ]

abbrev pub run : List Call → Database → Database
run [] db = db
run (call ∷ calls) db = run calls (step call db)

abbrev DrawsOneNew : Call → Database → Type 0
DrawsOneNew (create_list user_id input now id) db = IsNew db.buckets id
DrawsOneNew (repair_inbox user_id now id) db = IsNew db.buckets id
DrawsOneNew _ db = Unit

-- Each ID that the database draws along a run is a new one.
abbrev pub DrawsNew : List Call → Database → Type 0
DrawsNew [] db = Unit
DrawsNew (call ∷ calls) db = DrawsOneNew call db × DrawsNew calls (step call db)

pub second-ok :
    {A : Type 0} (m : Store (A × Database)) (after : Database)
    → second m ≡ ok after
    → (a : A) × (m ≡ ok (a, after))
second-ok (ok (a, db)) after h = (a, ground arith)
second-ok (err e) after h = cc

Repaired-Keeps :
    (before after : List Bucket) (user_id id : String)
    → (IsMarked before → Repaired before after user_id id)
    → Keeps before after
Repaired-Keeps before after user_id id r = record {
  marked = λ m. (r m).marked;
  survives = λ m u one. elim (Bool-cases (user_id == u)) [
    | inl e ↦ subst (λ v. inboxes after v ≡ 1) ((text_iff user_id u).0 e) (r m).one
    | inr e ↦ omega (arith, one, (r m).others u (λ q. cc (e, (text_iff user_id u).1 q)))
  ];
}

outcome-Keeps :
    (call : Call) (db after : Database)
    → DrawsOneNew call db
    → outcome call db ≡ ok after
    → Keeps db.buckets after.buckets
outcome-Keeps (create_list user_id input now id) db after fresh h =
    let (b, e) = second-ok (create_bucket db user_id input now id) after h in
    create_bucket-Keeps db user_id input now id b after fresh e
outcome-Keeps (update_list user_id id input now) db after fresh h =
    let (b, e) = second-ok (update_bucket db user_id id input now) after h in
    update_bucket-Keeps db user_id id input now b after e
outcome-Keeps (delete_list user_id id) db after fresh h = delete_bucket-Keeps db user_id id after h
outcome-Keeps (repair_inbox user_id now id) db after fresh h =
    let (inbox_id, e) = second-ok (ensure_inbox_bucket_id db user_id now id) after h in
    Repaired-Keeps db.buckets after.buckets user_id inbox_id
      (λ m. ensure_inbox_bucket_id-Repaired db user_id now id inbox_id after m fresh e)
outcome-Keeps (reorder_lists user_id ids now) db after fresh h =
    reorder_buckets-Keeps db user_id ids now after h

-- Across any sequence of calls, failing ones included, whose drawn IDs are new: list IDs stay
-- distinct, no account gets a second Inbox, and an account that has an Inbox keeps exactly one.
pub run-Keeps :
    (calls : List Call) (db : Database)
    → DrawsNew calls db
    → Keeps db.buckets (run calls db).buckets
run-Keeps [] db fresh = record { marked = λ m. m; survives = λ m u one. one }
run-Keeps (call ∷ calls) db fresh =
    let rest = run-Keeps calls (step call db) fresh.1 in
    elim (Result-cases (outcome call db)) [
      | inr (e, h) ↦
          let same : step call db ≡ db = rw (step, h) refl in
          subst (λ d. Keeps d.buckets (run calls (step call db)).buckets) same rest
      | inl (after, h) ↦
          let k = outcome-Keeps call db after fresh.0 h in
          let same : step call db ≡ after = rw (step, h) refl in
          let next = subst (λ d. Keeps d.buckets (run calls (step call db)).buckets) same rest in
          record {
            marked = λ m. next.marked (k.marked m);
            survives = λ m u one. next.survives (k.marked m) u (k.survives m u one);
          }
    ]
