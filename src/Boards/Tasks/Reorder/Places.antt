-- ===== src/Boards/Tasks/Reorder/Places.antt =====
-- Where the writes of orders, of ReorderSubtasks in server/internal/boards/store.go, put one row.
use slate_do.Prelude.{
  ℕ, suc, ◌≤◌, String, ◌≡◌, refl, Bool, true, false, Option, none, some, List, [], ◌∷◌, ◌==◌,
  string_eq, nat_eq, find, find-test, if◌then◌else◌, arith, text_iff, Bool-cases, inl, inr, ◌∙◌, ap,
}
use slate_do.Prelude.Int.{ℤ, pos}
use slate_do.Boards.Types.{Task}
use slate_do.Boards.Buckets.Reorder.{has}
use slate_do.Boards.Buckets.Reorder.Order.{occurs, position}
use slate_do.Boards.Tasks.Positions.{write_task_order}
use slate_do.Boards.Tasks.Move.Found.{find-update}
use slate_do.Boards.Tasks.Reorder.{write_orders}
use slate_do.Boards.Tasks.Reorder.Listed.{last_position}

abbrev pub has_id : String → Task → Bool
has_id k t = t.id == k

abbrev reseated : Option ℕ → Task → Task
reseated none t = t
reseated (some i) t = record t { sort_order = pos i }

-- An order puts the row that it mentions at the last mention, and no other.
find-write_task_order :
    (k : String) (i : ℕ) (ids : List String) (tasks : List Task) (t : Task)
    → find (has_id k) tasks ≡ some t
    → find (has_id k) (write_task_order i ids tasks) ≡ some (reseated (last_position i ids k) t)
unfolding write_task_order last_position
find-write_task_order k i [] tasks t found = found
find-write_task_order k i (id ∷ ids) tasks t found =
    let hit = find-test (has_id k) tasks t found in
    let step =
      find-update k (λ x. x.id == id) (λ x. record x { sort_order = pos i }) tasks t (λ x. refl)
        found in
    elim (Bool-cases (id == k)) [
      | inl e ↦
          let same : (t.id == id) ≡ true =
            ground (arith, hit, e, text_iff t.id id, text_iff id k, text_iff t.id k) in
          find-write_task_order k (suc i) ids _ (record t { sort_order = pos i })
            (step ∙ rw same refl)
          ∙ again e (last_position (suc i) ids k)
      | inr e ↦
          let other : (t.id == id) ≡ false =
            ground (arith, hit, e, text_iff t.id id, text_iff id k, text_iff t.id k) in
          find-write_task_order k (suc i) ids _ t (step ∙ rw other refl)
          ∙ kept e (last_position (suc i) ids k)
    ]
  where
    last : Option ℕ → Option ℕ
    last p = elim p [ some j ↦ some j | none ↦ if id == k then some i else none ]

    again :
        (id == k) ≡ true
        → (p : Option ℕ)
        → some (reseated p (record t { sort_order = pos i })) ≡ some (reseated (last p) t)
    again e none = rw e refl
    again e (some j) = refl

    kept : (id == k) ≡ false → (p : Option ℕ) → some (reseated p t) ≡ some (reseated (last p) t)
    kept e none = rw e refl
    kept e (some j) = refl

pub last_position-absent :
    (i : ℕ) (ids : List String) (k : String) → occurs ids k ≡ 0 → last_position i ids k ≡ none
unfolding last_position
last_position-absent i [] k h = refl
last_position-absent i (id ∷ ids) k h = elim (Bool-cases (id == k)) [
  | inl e ↦ absurd (ground (arith, h, e))
  | inr e ↦ rw (last_position-absent (suc i) ids k (ground (arith, h, e)), e) refl
]

-- An ID that is mentioned once is mentioned last where it is mentioned first.
pub last_position-position :
    (i : ℕ) (ids : List String) (k : String)
    → occurs ids k ≤ 1
    → last_position i ids k ≡ position i ids k
unfolding last_position position
last_position-position i [] k once = refl
last_position-position i (id ∷ ids) k once = elim (Bool-cases (id == k)) [
  | inl e ↦ rw (last_position-absent (suc i) ids k (ground (arith, once, e)), e) refl
  | inr e ↦
      ap (λ p. elim p [ some j ↦ some j | none ↦ if id == k then some i else none ])
        (last_position-position (suc i) ids k (ground (arith, once, e)))
      ∙ same e (position (suc i) ids k)
]
  where
    same :
        (id == k) ≡ false
        → (p : Option ℕ)
        → elim p [ some j ↦ some j | none ↦ if id == k then some i else none ]
          ≡ (if id == k then some i else p)
    same e none = refl
    same e (some j) = rw e refl

-- The order of the home list decides; the orders of other lists do not mention the row.
pub find-write_orders :
    (order : String → List String) (home k : String) (j : ℕ)
    → last_position 0 (order home) k ≡ some j
    → ((b : String) → (b == home) ≡ false → last_position 0 (order b) k ≡ none)
    → (lists : List String) (tasks : List Task) (t : Task) → find (has_id k) tasks ≡ some t
    → find (has_id k) (write_orders order lists tasks)
      ≡ some (if has lists home then record t { sort_order = pos j } else t)
unfolding write_orders
find-write_orders order home k j here away [] tasks t found = found
find-write_orders order home k j here away (b ∷ lists) tasks t found =
    let step = find-write_task_order k 0 (order b) tasks t found in
    elim (Bool-cases (b == home)) [
      | inl e ↦
          let same : last_position 0 (order b) k ≡ some j =
            ap (λ l. last_position 0 (order l) k) ((text_iff b home).0 e) ∙ here in
          find-write_orders order home k j here away lists _ (record t { sort_order = pos j })
            (step ∙ rw same refl)
          ∙ rw e (either (has lists home))
      | inr e ↦
          find-write_orders order home k j here away lists _ t (step ∙ rw (away b e) refl)
          ∙ rw e refl
    ]
  where
    either :
        (c : Bool)
        → some (if c then record t { sort_order = pos j } else record t { sort_order = pos j })
          ≡ some (record t { sort_order = pos j })
    either true = refl
    either false = refl

-- Whatever the orders are, a row keeps all but its position.
pub find-write_orders_kept :
    (order : String → List String) (k : String) (lists : List String) (tasks : List Task) (t : Task)
    → find (has_id k) tasks ≡ some t
    → (z : ℤ) × (find (has_id k) (write_orders order lists tasks)
        ≡ some (record t { sort_order = z }))
unfolding write_orders
find-write_orders_kept order k [] tasks t found = (t.sort_order, found)
find-write_orders_kept order k (b ∷ lists) tasks t found =
    let next = write_task_order 0 (order b) tasks in
    seated (last_position 0 (order b) k) (λ u e. find-write_orders_kept order k lists next u e)
      (find-write_task_order k 0 (order b) tasks t found)
  where
    seated :
        (p : Option ℕ)
        → ((u : Task)
            → find (has_id k) (write_task_order 0 (order b) tasks) ≡ some u
            → (z : ℤ) × (find
                  (has_id k)
                  (write_orders order lists (write_task_order 0 (order b) tasks))
                ≡ some (record u { sort_order = z })))
        → find (has_id k) (write_task_order 0 (order b) tasks) ≡ some (reseated p t)
        → (z : ℤ) × (find (has_id k) (write_orders order lists (write_task_order 0 (order b) tasks))
            ≡ some (record t { sort_order = z }))
    seated none rest e = rest t e
    seated (some i) rest e = rest (record t { sort_order = pos i }) e
