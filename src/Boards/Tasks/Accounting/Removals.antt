-- ===== src/Boards/Tasks/Accounting/Removals.antt =====
-- The counters when DeleteTask of server/internal/boards/store.go deletes a task and its subtasks.
use slate_do.Prelude.{
  ℕ, ◌+◌, String, len, ◌≡◌, ◌≢◌, refl, Bool, true, false, not, ◌&&◌, List, [], ◌∷◌, ◌==◌, string_eq,
  keep, any, count_where, sum_where, count_where-eq-sum_where, All, ok, arith, text_iff, sym, ◌∙◌,
  ap, subst, Bool-cases, inl, inr,
}
use slate_do.Prelude.Counting.{All-imp}
use slate_do.Prelude.Keyed.{IsKeyed}
use slate_do.Boards.Types.{Task}
use slate_do.Boards.Database.{Database, stored_bytes}
use slate_do.Boards.Tasks.{owned}
use slate_do.Boards.Tasks.Positions.{child_of}
use slate_do.Boards.Tasks.Delete.{with_children, delete_task}
use slate_do.Boards.Tasks.Accounting.{bytes_of, Accounted}
use slate_do.Boards.Tasks.Accounting.Cascade.{All-both}
use slate_do.Boards.Tasks.Accounting.Deleted.{
  kept-sum, kept-entries, same-weights, apart, left_tasks, left_entries, Deleted,
  delete_task-Deleted,
}

-- Rows that are not counted can be dropped.
kept-foreign :
    (p d : Task → Bool) (w : Task → ℕ) (tasks : List Task)
    → All (λ t. d t ≡ true → p t ≡ false) tasks
    → sum_where p w (keep (λ t. not (d t)) tasks) ≡ sum_where p w tasks
kept-foreign p d w [] h = refl
kept-foreign p d w (x ∷ tasks) h = ground (arith, h.0, kept-foreign p d w tasks h.1)

module _ (db : Database) (user_id id : String) (after : Database)
    (keyed : IsKeyed (λ t. t.id) db.tasks)
    (family : All (λ t. child_of id t ≡ true → owned user_id t ≡ true) db.tasks)
    (r : Deleted db user_id id after) where
  dropped-owned : All (λ t. with_children id t ≡ true → owned user_id t ≡ true) db.tasks
  dropped-owned =
      All-imp _ _ db.tasks (λ t f h. ground (arith, f.0, f.1, h))
        (All-both _ _ db.tasks r.owner family)

  -- What is left weighs as much as it did.
  left-bytes :
      (u : String)
      → bytes_of after.entries after.tasks u
        ≡ sum_where (owned u) (stored_bytes db.entries) (left_tasks db.tasks (with_children id))
  left-bytes u =
      ap (λ es. bytes_of es after.tasks u) r.entries
      ∙ ap (λ ts. bytes_of (left_entries db.tasks db.entries (with_children id)) ts u) r.tasks
      ∙ same-weights (owned u) (with_children id) (stored_bytes db.entries)
          (stored_bytes (left_entries db.tasks db.entries (with_children id))) db.tasks
          (All-imp _ _ db.tasks
            (λ t far stays.
              ap (λ n. len t.title + len t.description + n)
                (kept-entries (λ k. any (λ x. with_children id x && x.id == k) db.tasks) db.entries
                  t.id (far stays)))
            (apart (with_children id) db.tasks keyed))

  left-count :
      (u : String)
      → count_where (owned u) after.tasks
        ≡ sum_where (owned u) (λ _. 1) (left_tasks db.tasks (with_children id))
  left-count u = ap (count_where (owned u)) r.tasks ∙ count_where-eq-sum_where (owned u) _

  own-Accounted : Accounted db user_id → Accounted after user_id
  own-Accounted acc = record {
    count = omega (
      arith,
      r.counts,
      acc.count,
      left-count user_id,
      kept-sum (owned user_id) (with_children id) (λ _. 1) db.tasks dropped-owned,
      count_where-eq-sum_where (owned user_id) db.tasks,
      count_where-eq-sum_where (with_children id) db.tasks,
    );
    bytes = omega (
      arith,
      r.bytes,
      acc.bytes,
      left-bytes user_id,
      kept-sum (owned user_id) (with_children id) (stored_bytes db.entries) db.tasks dropped-owned,
    );
  }

  other-Accounted : (u : String) → user_id ≢ u → Accounted db u → Accounted after u
  other-Accounted u ne acc =
      let foreign : All (λ t. with_children id t ≡ true → owned u t ≡ false) db.tasks =
        All-imp _ _ db.tasks
          (λ t f h.
            ground (arith, f h, ne, text_iff t.owner_user_id user_id, text_iff t.owner_user_id u))
          dropped-owned in
      record {
        count =
            ap (λ x. x.tasks) (r.others u ne)
            ∙ acc.count
            ∙ count_where-eq-sum_where (owned u) db.tasks
            ∙ sym (
                left-count u ∙ kept-foreign (owned u) (with_children id) (λ _. 1) db.tasks foreign);
        bytes =
            ap (λ x. x.content_bytes) (r.others u ne)
            ∙ acc.bytes
            ∙ sym (
                left-bytes u
                ∙ kept-foreign (owned u) (with_children id) (stored_bytes db.entries) db.tasks
                    foreign);
      }

-- A deletion keeps every account's counters equal to what its rows store, when task IDs are
-- distinct, the ID is not empty, no row stands below a child of the task, and the children are
-- the account's: the task and its children are what is counted and what the cascade deletes.
pub delete_task-Accounted :
    (db : Database) (user_id id : String) (after : Database) (u : String)
    → IsKeyed (λ t. t.id) db.tasks
    → (id == "") ≡ false
    → All
        (λ t. All (λ p. child_of id p ≡ true → (p.id == t.parent_task_id) ≡ false) db.tasks)
        db.tasks
    → All (λ t. child_of id t ≡ true → owned user_id t ≡ true) db.tasks
    → delete_task db user_id id ≡ ok after
    → Accounted db u
    → Accounted after u
delete_task-Accounted db user_id id after u keyed named flat family h acc =
    let r : Deleted db user_id id after =
      delete_task-Deleted db user_id id after keyed named flat h in
    elim (Bool-cases (user_id == u)) [
      | inl e ↦
          subst (λ v. Accounted db v → Accounted after v) ((text_iff user_id u).0 e)
            (own-Accounted db user_id id after keyed family r) acc
      | inr e ↦
          other-Accounted db user_id id after keyed family r u
            (λ q. cc (e, (text_iff user_id u).1 q)) acc
    ]
