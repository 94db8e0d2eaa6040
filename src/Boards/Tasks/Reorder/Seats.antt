-- ===== src/Boards/Tasks/Reorder/Seats.antt =====
-- Where ReorderSubtasks of server/internal/boards/store.go seats the rows, from what it has found
-- out before it writes.
use slate_do.Prelude.{
  ℕ, suc, ◌≤◌, String, ◌≡◌, refl, true, false, not, none, some, List, map, ◌==◌, string_eq, nat_eq,
  find, length, ◌⊎◌, if◌then◌else◌, ok, arith, text_iff, text_refl, Bool-cases, inl, inr, sym, ◌∙◌,
  ap,
}
use slate_do.Prelude.Int.{pos}
use slate_do.Prelude.Keyed.{IsKeyed}
use slate_do.Boards.Types.{Task}
use slate_do.Boards.Database.{Database}
use slate_do.Boards.Buckets.Reorder.{has}
use slate_do.Boards.Buckets.Reorder.Order.{occurs, position}
use slate_do.Boards.Tasks.Positions.{ordered_all_task_ids, remove_task_ids, insert_task_ids}
use slate_do.Boards.Tasks.Update.Written.{addressed}
use slate_do.Boards.Tasks.Move.{index_from}
use slate_do.Boards.Tasks.Move.Found.{find-update}
use slate_do.Boards.Tasks.Reorder.{
  subtask_of, subtasks, check_subtasks, order_for, write_orders, gathered,
}
use slate_do.Boards.Tasks.Reorder.Listed.{last_position}
use slate_do.Boards.Tasks.Reorder.Places.{
  has_id, find-write_orders, find-write_orders_kept, last_position-absent,
}
use slate_do.Boards.Tasks.Reorder.Repaired.{
  check_subtasks-occurs, occurs-of_empty, has-of_occurs, index_from-eq-position, inserted-position,
  anchor-position, occurs-of_position, occurs-removed,
}
use slate_do.Boards.Tasks.Reorder.Rows.{
  child_ids-occurs, ids_where-occurs, among, subtask-found, elsewhere-none,
}
use slate_do.Boards.Tasks.Reorder.Rows.{Gathered, seat}

-- What the operation has found out before it writes.
module _ (db : Database) (user_id : String) (ids rest : List String) (now before : ℕ)
    (ranged : List String → List String) (parent : Task) (keyed : IsKeyed (λ x. x.id) db.tasks)
    (visits : (xs : List String) (k : String) → occurs (ranged xs) k ≡ occurs xs k)
    (parent_found : find (has_id parent.id) db.tasks ≡ some parent)
    (top_level : parent.parent_task_id ≡ "") where
  abbrev home : String
  home = parent.bucket_id

  abbrev child_ids : List String
  child_ids = map (λ t. t.id) (subtasks db.tasks user_id parent.id)

  abbrev siblings : List String
  siblings = remove_task_ids (ordered_all_task_ids db home) child_ids

  abbrev repaired : List String
  repaired = insert_task_ids siblings ids (suc before)

  abbrev orders : String → List String
  orders = order_for db home repaired child_ids

  abbrev moved : List Task
  moved = gathered user_id parent.id home now db.tasks

  module _ (checked : check_subtasks child_ids ids ≡ ok rest) (all : length ids ≡ length child_ids)
      (at : index_from 0 siblings parent.id ≡ some before) (lists : List String)
      (at_home : has lists home ≡ true) where
    child_once : (k : String) → occurs child_ids k ≤ 1
    child_once k = omega (
      arith,
      child_ids-occurs db.tasks user_id parent.id k,
      among (subtask_of user_id parent.id) k db.tasks keyed,
    )

    asked : (k : String) → occurs ids k ≡ occurs child_ids k
    asked k =
        let (counts, lengths) = check_subtasks-occurs child_ids ids rest child_once checked in
        omega (arith, counts k, occurs-of_empty rest k (omega (arith, lengths, all)))

    sibling_once : (k : String) → occurs siblings k ≤ 1
    sibling_once k = ground (
      arith,
      occurs-removed (ordered_all_task_ids db home) child_ids k,
      ids_where-occurs db (λ x. x.bucket_id == home) k,
      among (λ x. x.bucket_id == home) k db.tasks keyed,
    )

    -- A subtask is among no list's other tasks.
    child_out :
        (k b : String)
        → 1 ≤ occurs child_ids k
        → occurs (remove_task_ids (ordered_all_task_ids db b) child_ids) k ≡ 0
    child_out k b one = ground (
      arith,
      occurs-removed (ordered_all_task_ids db b) child_ids k,
      has-of_occurs child_ids k one,
    )

    parent_is_no_child : occurs ids parent.id ≡ 0
    parent_is_no_child =
        let there =
          occurs-of_position 0 siblings parent.id before
            (sym (index_from-eq-position 0 siblings parent.id) ∙ at) in
        elim (Bool-cases (has child_ids parent.id)) [
          | inl e ↦ absurd (
              ground (
                arith,
                occurs-removed (ordered_all_task_ids db home) child_ids parent.id,
                there,
                e,
              ))
          | inr e ↦ asked parent.id ∙ no_child e (occurs child_ids parent.id) refl
        ]
      where
        no_child :
            has child_ids parent.id ≡ false
            → (n : ℕ) → occurs child_ids parent.id ≡ n
            → occurs child_ids parent.id ≡ 0
        no_child e n same = ground (arith, e, has-of_occurs child_ids parent.id)

    orders-home :
        (k : String) (j : ℕ)
        → last_position 0 repaired k ≡ some j
        → last_position 0 (orders home) k ≡ some j
    unfolding order_for
    orders-home k j h = rw (text_refl home) h

    orders-away :
        (k b : String)
        → (b == home) ≡ false
        → occurs (remove_task_ids (ordered_all_task_ids db b) child_ids) k ≡ 0
        → last_position 0 (orders b) k ≡ none
    unfolding order_for
    orders-away k b e h = rw e (last_position-absent 0 _ k h)

    parent-seated :
        find (has_id parent.id) (write_orders orders lists moved)
        ≡ some (record parent { sort_order = pos before })
    parent-seated =
        find-write_orders orders home parent.id before
          (orders-home parent.id before (
            anchor-position siblings ids parent.id before at (sibling_once parent.id)
              parent_is_no_child))
          (λ b e.
            orders-away parent.id b e (elsewhere-none db parent b child_ids keyed parent_found e))
          lists moved parent
          (find-update parent.id _ _ db.tasks parent (λ x. refl) parent_found ∙ rw (top_level) refl)
        ∙ rw at_home refl

    child-seated :
        (k : String) (i : ℕ) (t : Task)
        → position (suc before) ids k ≡ some i
        → find (has_id k) db.tasks ≡ some t
        → subtask_of user_id parent.id t ≡ true
        → find (has_id k) (write_orders orders lists moved) ≡ some (seat home i now t)
    child-seated k i t h found child =
        let one : 1 ≤ occurs child_ids k =
          omega (arith, asked k, occurs-of_position (suc before) ids k i h) in
        find-write_orders orders home k i
          (orders-home k i (
            inserted-position siblings ids parent.id k before i at (child_out k home one)
              (omega (arith, asked k, child_once k)) h))
          (λ b e. orders-away k b e (child_out k b one)) lists moved _
          (find-update k _ _ db.tasks t (λ x. refl) found)
        ∙ rw (at_home, child) (settled (Bool-cases (t.bucket_id == home)))
      where
        settled :
            ((t.bucket_id == home) ≡ true) ⊎ ((t.bucket_id == home) ≡ false)
            → some
                (record (if not (t.bucket_id == home)
                  then record t { bucket_id = home; updated_at = now }
                  else t) { sort_order = pos i })
              ≡ some (seat home i now t)
        settled (inl e) = rw e (
            ap (λ b. some (record t { bucket_id = b; sort_order = pos i }))
              ((text_iff t.bucket_id home).0 e))
        settled (inr e) = rw e refl

    pub seats_of_reorder :
        (parent_id : String)
        → find (addressed user_id "" parent_id) db.tasks ≡ some parent
        → Gathered user_id parent_id ids now db.tasks (write_orders orders lists moved)
    seats_of_reorder parent_id found = record {
      parent = parent;
      found = found;
      top_level = top_level;
      every = asked;
      place = before;
      parent_at = parent-seated;
      behind = λ k i h.
          let one : 1 ≤ occurs child_ids k =
            omega (arith, asked k, occurs-of_position (suc before) ids k i h) in
          let (t, at_k, child) = subtask-found db.tasks user_id parent.id k keyed one in
          (t, at_k, child, child-seated k i t h at_k child);
      others = λ k t at_k no.
          find-write_orders_kept orders k lists moved t
            (find-update k _ _ db.tasks t (λ x. refl) at_k ∙ rw no refl);
    }
