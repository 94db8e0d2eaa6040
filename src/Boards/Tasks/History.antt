-- ===== src/Boards/Tasks/History.antt =====
-- Sequences of the operations of server/internal/boards/store.go that change tasks in place, each
-- in its own transaction.
use slate_do.Prelude.{
  ℕ, String, ◌≡◌, refl, Bool, List, [], ◌∷◌, ok, err, Result-cases, inl, inr, sym, subst,
}
use slate_do.Prelude.Keyed.{IsKeyed}
use slate_do.Boards.Types.{Store, UpdateTaskInput}
use slate_do.Boards.Database.{Database}
use slate_do.Boards.Buckets.History.{second, second-ok}
use slate_do.Boards.Tasks.Accounting.{Accounted}
use slate_do.Boards.Tasks.Accounting.Rearranged.{
  Rearranged, Rearranged-Accounted, Rearranged-IsKeyed,
}
use slate_do.Boards.Tasks.Accounting.Updates.{update_task-Accounted, update_task-IsKeyed}
use slate_do.Boards.Tasks.Accounting.Additions.{add_entry-Accounted, add_entry-IsKeyed}
use slate_do.Boards.Tasks.Accounting.Moves.{move_task-Rearranged}
use slate_do.Boards.Tasks.Accounting.Orders.{reorder_tasks-Rearranged, reorder_subtasks-Rearranged}
use slate_do.Boards.Tasks.Update.{update_task}
use slate_do.Boards.Tasks.Entries.{Request, add_entry}
use slate_do.Boards.Tasks.Move.{MoveTaskInput, move_task}
use slate_do.Boards.Tasks.Reorder.{reorder_tasks, reorder_subtasks}

-- A call for an account, with the time, the ID that the database draws, and the order of a map's
-- visit.
pub data TaskCall : Type 0 where
  change : String → String → String → UpdateTaskInput → Bool → ℕ → TaskCall
  relocate : String → String → MoveTaskInput → ℕ → TaskCall
  report : String → String → String → Request → ℕ → String → TaskCall
  order_list : String → String → List String → ℕ → TaskCall
  order_subtasks : (List String → List String) → String → String → List String → ℕ → TaskCall

abbrev pub answer_of : TaskCall → Database → Store Database
answer_of (change user_id agent_id id input allow now) db =
    second (update_task db user_id agent_id id input allow now)
answer_of (relocate user_id id input now) db = second (move_task db user_id id input now)
answer_of (report user_id agent_id name r now id) db =
    second (add_entry db user_id agent_id name r now id)
answer_of (order_list user_id bucket_id ids now) db = reorder_tasks db user_id bucket_id ids now
answer_of (order_subtasks ranged user_id parent_id ids now) db =
    reorder_subtasks ranged db user_id parent_id ids now

-- A call that fails has rolled back.
abbrev pub follow : TaskCall → Database → Database
follow call db = elim (answer_of call db) [ ok after ↦ after | err e ↦ db ]

abbrev pub follow_all : List TaskCall → Database → Database
follow_all [] db = db
follow_all (call ∷ calls) db = follow_all calls (follow call db)

-- Distinct task IDs, and every account's counters in step with its rows.
abbrev pub Balanced : Database → Type 0
Balanced db = IsKeyed (λ t. t.id) db.tasks × ((u : String) → Accounted db u)

Rearranged-Balanced :
    (db : Database) (user_id : String) (after : Database)
    → Rearranged db user_id after
    → Balanced db
    → Balanced after
Rearranged-Balanced db user_id after r (keyed, acc) = (
  Rearranged-IsKeyed db user_id after r keyed,
  λ u. Rearranged-Accounted db user_id after r u (acc u),
)

answered-Balanced :
    (call : TaskCall) (db after : Database)
    → answer_of call db ≡ ok after
    → Balanced db
    → Balanced after
answered-Balanced (change user_id agent_id id input allow now) db after h (keyed, acc) =
    let (t, e) = second-ok (update_task db user_id agent_id id input allow now) after h in
    (
      update_task-IsKeyed db user_id agent_id id input allow now t after e keyed,
      λ u. update_task-Accounted db user_id agent_id id input allow now t after u keyed e (acc u),
    )
answered-Balanced (relocate user_id id input now) db after h balanced =
    let (t, e) = second-ok (move_task db user_id id input now) after h in
    Rearranged-Balanced db user_id after (move_task-Rearranged db user_id id input now t after e)
      balanced
answered-Balanced (report user_id agent_id name r now id) db after h (keyed, acc) =
    let (answer, e) = second-ok (add_entry db user_id agent_id name r now id) after h in
    (
      add_entry-IsKeyed db user_id agent_id name r now id answer after e keyed,
      λ u. add_entry-Accounted db user_id agent_id name r now id answer after u keyed e (acc u),
    )
answered-Balanced (order_list user_id bucket_id ids now) db after h balanced =
    Rearranged-Balanced db user_id after
      (reorder_tasks-Rearranged db user_id bucket_id ids now after h) balanced
answered-Balanced (order_subtasks ranged user_id parent_id ids now) db after h balanced =
    Rearranged-Balanced db user_id after
      (reorder_subtasks-Rearranged ranged db user_id parent_id ids now after h) balanced

follow-Balanced : (call : TaskCall) (db : Database) → Balanced db → Balanced (follow call db)
follow-Balanced call db balanced = elim (Result-cases (answer_of call db)) [
  | inl (after, e) ↦
      let same : follow call db ≡ after = rw (follow, e) refl in
      subst Balanced (sym same) (answered-Balanced call db after e balanced)
  | inr (why, e) ↦
      let same : follow call db ≡ db = rw (follow, e) refl in subst Balanced (sym same) balanced
]

-- Across any sequence of updates, moves, entries and manual orders, whether they succeed or fail,
-- task IDs stay distinct and every account's counters stay equal to the number and the bytes of
-- its rows, when both hold at the start.
pub follow_all-Balanced :
    (calls : List TaskCall) (db : Database) → Balanced db → Balanced (follow_all calls db)
follow_all-Balanced [] db balanced = balanced
follow_all-Balanced (call ∷ calls) db balanced =
    follow_all-Balanced calls (follow call db) (follow-Balanced call db balanced)
