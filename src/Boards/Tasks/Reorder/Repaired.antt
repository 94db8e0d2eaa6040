-- ===== src/Boards/Tasks/Reorder/Repaired.antt =====
-- The order that ReorderSubtasks of server/internal/boards/store.go repairs: the asked IDs against
-- those of the subtasks, and their positions behind the parent's.
use slate_do.Prelude.{
  ℕ, zero, suc, ◌+◌, ◌≤◌, String, ◌≡◌, refl, true, not, some, List, [], ◌∷◌, ◌++◌, ◌==◌, string_eq,
  keep, take, drop, length, if◌then◌else◌, ok, refuse_if, arith, text_iff, Bool-cases, inl, inr,
  sym, ◌∙◌, ap, >>=-eq-ok, ok-injective,
}
use slate_do.Prelude.Counting.{count-append}
use slate_do.Boards.Types.{invalid_data}
use slate_do.Boards.Buckets.Reorder.{has}
use slate_do.Boards.Buckets.Reorder.Order.{occurs, position, has-occurs, occurs-keep}
use slate_do.Boards.Tasks.Positions.{remove_task_ids, insert_task_ids}
use slate_do.Boards.Tasks.Move.{index_from}
use slate_do.Boards.Tasks.Reorder.{check_subtasks, add_lists}
use slate_do.Boards.Tasks.Reorder.Listed.{last_position}
use slate_do.Boards.Tasks.Reorder.Places.{last_position-position}

occurs-without :
    (id : String) (xs : List String) (k : String)
    → occurs (keep (λ other. not (other == id)) xs) k ≡ (if id == k then 0 else occurs xs k)
occurs-without id [] k = ground arith
occurs-without id (x ∷ xs) k =
    ground (arith, text_iff x id, text_iff x k, text_iff id k, occurs-without id xs k)

length-without :
    (id : String) (xs : List String)
    → length (keep (λ other. not (other == id)) xs) + occurs xs id ≡ length xs
length-without id [] = refl
length-without id (x ∷ xs) = ground (arith, length-without id xs)

-- Of IDs that are distinct, each asked one is taken out once.
pub check_subtasks-occurs :
    (remaining ids rest : List String)
    → ((k : String) → occurs remaining k ≤ 1)
    → check_subtasks remaining ids ≡ ok rest
    → ((k : String) → occurs ids k + occurs rest k ≡ occurs remaining k)
      × (length ids + length rest ≡ length remaining)
unfolding check_subtasks
check_subtasks-occurs remaining [] rest once h =
    let same = sym (ok-injective h) in
    (λ k. omega (arith, ap (λ xs. occurs xs k) same), omega (arith, ap length same))
check_subtasks-occurs remaining (id ∷ ids) rest once h =
    let (unit, e1, h1) =
      >>=-eq-ok
        (refuse_if (not (has remaining id))
          (invalid_data "subtask order contains an unknown or duplicate task"))
        _ h in
    let there : has remaining id ≡ true = ground (arith, e1) in
    let one : occurs remaining id ≡ 1 = omega (arith, has-occurs remaining id there, once id) in
    let (counts, lengths) =
      check_subtasks-occurs (keep (λ other. not (other == id)) remaining) ids rest
        (λ k. ground (arith, occurs-without id remaining k, once k)) h1 in
    (
      λ k. ground (
        arith,
        counts k,
        occurs-without id remaining k,
        text_iff id k,
        same_count remaining id k,
        has-occurs remaining id there,
        once id,
      ),
      omega (arith, lengths, length-without id remaining, has-occurs remaining id there, once id),
    )
  where
    same_count : (xs : List String) (a b : String) → a ≡ b → occurs xs a ≡ occurs xs b
    same_count xs a b e = ap (occurs xs) e

pub occurs-of_empty : (xs : List String) (k : String) → length xs ≡ 0 → occurs xs k ≡ 0
occurs-of_empty [] k h = refl
occurs-of_empty (x ∷ xs) k h = absurd (omega (arith, h))

pub has-of_occurs : (xs : List String) (k : String) → 1 ≤ occurs xs k → has xs k ≡ true
has-of_occurs [] k h = absurd (omega (arith, h))
has-of_occurs (x ∷ xs) k h = ground (arith, has-of_occurs xs k)

pub index_from-eq-position :
    (i : ℕ) (xs : List String) (k : String) → index_from i xs k ≡ position i xs k
unfolding index_from position
index_from-eq-position i [] k = refl
index_from-eq-position i (x ∷ xs) k = rw (index_from-eq-position (suc i) xs k) refl

position-append_absent :
    (i : ℕ) (xs ys : List String) (k : String)
    → occurs xs k ≡ 0
    → position i (xs ++ ys) k ≡ position (i + length xs) ys k
unfolding position
position-append_absent i [] ys k h = ap (λ n. position n ys k) (omega arith)
position-append_absent i (x ∷ xs) ys k h = elim (Bool-cases (x == k)) [
  | inl e ↦ absurd (ground (arith, h, e))
  | inr e ↦ rw e (
      position-append_absent (suc i) xs ys k (ground (arith, h, e))
      ∙ ap (λ n. position n ys k) (omega arith))
]

position-append_hit :
    (i : ℕ) (xs ys : List String) (k : String) (j : ℕ)
    → position i xs k ≡ some j
    → position i (xs ++ ys) k ≡ some j
unfolding position
position-append_hit i [] ys k j h = cc
position-append_hit i (x ∷ xs) ys k j h = ground (arith, position-append_hit (suc i) xs ys k j)

position-bound :
    (i : ℕ) (xs : List String) (k : String) (n : ℕ)
    → position i xs k ≡ some n
    → (i ≤ n) × (suc n ≤ i + length xs)
unfolding position
position-bound i [] k n h = cc
position-bound i (x ∷ xs) k n h = elim (Bool-cases (x == k)) [
  | inl e ↦ ground (arith, h, e)
  | inr e ↦ ground (arith, h, e, position-bound (suc i) xs k n)
]

position-take :
    (i m : ℕ) (xs : List String) (k : String) (n : ℕ)
    → position i xs k ≡ some n
    → suc n ≤ i + m
    → position i (take m xs) k ≡ some n
unfolding position
position-take i zero xs k n h le = absurd (omega (arith, le, position-bound i xs k n h))
position-take i (suc m) [] k n h le = cc
position-take i (suc m) (x ∷ xs) k n h le = elim (Bool-cases (x == k)) [
  | inl e ↦ rw e (ground (arith, h, e))
  | inr e ↦ rw e (position-take (suc i) m xs k n (ground (arith, h, e)) (omega (arith, le)))
]

length-take : (m : ℕ) (xs : List String) → m ≤ length xs → length (take m xs) ≡ m
length-take zero xs le = refl
length-take (suc m) [] le = absurd (omega (arith, le))
length-take (suc m) (x ∷ xs) le = ap suc (length-take m xs (omega (arith, le)))

occurs-split :
    (m : ℕ) (xs : List String) (k : String)
    → occurs (take m xs) k + occurs (drop m xs) k ≡ occurs xs k
occurs-split zero xs k = omega arith
occurs-split (suc m) [] k = omega arith
occurs-split (suc m) (x ∷ xs) k = ground (arith, occurs-split m xs k)

occurs-insert :
    (others ids : List String) (m : ℕ) (k : String)
    → occurs (insert_task_ids others ids m) k ≡ occurs others k + occurs ids k
unfolding insert_task_ids
occurs-insert others ids m k = omega (
  arith,
  count-append (λ id. id == k) (take m others ++ ids) (drop m others),
  count-append (λ id. id == k) (take m others) ids,
  occurs-split m others k,
)

-- An asked ID stands behind the position that the asked ones are inserted at.
pub inserted-position :
    (others ids : List String) (p k : String) (before j : ℕ)
    → index_from 0 others p ≡ some before
    → occurs others k ≡ 0
    → occurs ids k ≤ 1
    → position (suc before) ids k ≡ some j
    → last_position 0 (insert_task_ids others ids (suc before)) k ≡ some j
unfolding insert_task_ids
inserted-position others ids p k before j at out once h =
    let m = suc before in
    let bound : m ≤ length others = omega (
      arith,
      (position-bound 0 others p before (sym (index_from-eq-position 0 others p) ∙ at)).1,
    ) in
    last_position-position 0 (insert_task_ids others ids m) k
      (omega (arith, occurs-insert others ids m k, out, once))
    ∙ position-append_hit 0 (take m others ++ ids) (drop m others) k j (
        position-append_absent 0 (take m others) ids k (omega (arith, occurs-split m others k, out))
        ∙ ap (λ n. position n ids k) (omega (arith, length-take m others bound))
        ∙ h)

-- The ID that they are inserted behind stays where it is.
pub anchor-position :
    (others ids : List String) (p : String) (before : ℕ)
    → index_from 0 others p ≡ some before
    → occurs others p ≤ 1
    → occurs ids p ≡ 0
    → last_position 0 (insert_task_ids others ids (suc before)) p ≡ some before
unfolding insert_task_ids
anchor-position others ids p before at once out =
    let m = suc before in
    let here = sym (index_from-eq-position 0 others p) ∙ at in
    last_position-position 0 (insert_task_ids others ids m) p
      (omega (arith, occurs-insert others ids m p, out, once))
    ∙ position-append_hit 0 (take m others ++ ids) (drop m others) p before (
        position-append_hit 0 (take m others) ids p before
          (position-take 0 m others p before here (omega arith)))

pub occurs-of_position :
    (i : ℕ) (xs : List String) (k : String) (j : ℕ) → position i xs k ≡ some j → 1 ≤ occurs xs k
unfolding position
occurs-of_position i [] k j h = cc
occurs-of_position i (x ∷ xs) k j h = ground (arith, occurs-of_position (suc i) xs k j)

-- What removed IDs leave of an order.
pub occurs-removed :
    (xs removed : List String) (k : String)
    → occurs (remove_task_ids xs removed) k ≡ (if has removed k then 0 else occurs xs k)
unfolding remove_task_ids
occurs-removed xs removed k = occurs-keep removed xs k

pub add_lists-has :
    (lists more : List String) (k : String)
    → has lists k ≡ true
    → has (add_lists lists more) k ≡ true
unfolding add_lists
add_lists-has lists [] k h = h
add_lists-has lists (b ∷ more) k h = elim (Bool-cases (has lists b)) [
  | inl e ↦ rw e (add_lists-has lists more k h)
  | inr e ↦ rw e (add_lists-has (b ∷ lists) more k (ground (arith, h)))
]
