-- ===== src/Boards/Tasks/Move/Found.antt =====
-- Where the statements of MoveTask in server/internal/boards/store.go put the row that they move.
use slate_do.Prelude.{
  ℕ, suc, String, ◌≡◌, refl, Bool, true, false, some, List, [], ◌∷◌, ◌==◌, string_eq, find,
  find-test, update_where, if◌then◌else◌, arith, text_iff, Bool-cases, inl, inr, ◌∙◌, ap, subst,
}
use slate_do.Prelude.Int.{ℤ, pos}
use slate_do.Boards.Types.{Task, status_eq}
use slate_do.Boards.Tasks.Positions.{write_task_order, child_of}
use slate_do.Boards.Tasks.Move.{Plan, restated, relocated, write_move}

abbrev pub has_id : String → Task → Bool
has_id k t = t.id == k

-- An update that leaves IDs alone changes what is found under an ID, and nothing else of it.
pub find-update :
    (k : String) (p : Task → Bool) (f : Task → Task) (tasks : List Task) (t : Task)
    → ((x : Task) → (f x).id ≡ x.id)
    → find (has_id k) tasks ≡ some t
    → find (has_id k) (update_where p f tasks) ≡ some (if p t then f t else t)
find-update k p f [] t same found = cc
find-update k p f (x ∷ tasks) t same found = elim (Bool-cases (x.id == k)) [
  | inl e ↦
      let first : x ≡ t = ground (arith, found, e) in
      subst (λ y. find (has_id k) (update_where p f (x ∷ tasks)) ≡ some (if p y then f y else y))
        first
        (elim (Bool-cases (p x)) [ inl q ↦ rw q (rw (same x, e) refl) | inr q ↦ rw q (rw e refl) ])
  | inr e ↦
      let rest = find-update k p f tasks t same (ground (arith, found, e)) in
      elim (Bool-cases (p x)) [ inl q ↦ rw q (rw (same x, e) rest) | inr q ↦ rw q (rw e rest) ]
]

-- Writing an order gives a row a position, and changes nothing else of it.
find-order :
    (k : String) (i : ℕ) (ids : List String) (tasks : List Task) (t : Task)
    → find (has_id k) tasks ≡ some t
    → (z : ℤ) × (find (has_id k) (write_task_order i ids tasks)
        ≡ some (record t { sort_order = z }))
unfolding write_task_order
find-order k i [] tasks t found = (t.sort_order, found)
find-order k i (id ∷ ids) tasks t found = elim (Bool-cases (t.id == id)) [
  | inl e ↦
      find-order k (suc i) ids _ (record t { sort_order = pos i })
        (find-update k (λ x. x.id == id) (λ x. record x { sort_order = pos i }) tasks t (λ x. refl)
            found
          ∙ rw e refl)
  | inr e ↦ find-order k (suc i) ids _ t (
      find-update k (λ x. x.id == id) (λ x. record x { sort_order = pos i }) tasks t (λ x. refl)
        found
      ∙ rw e refl)
]

-- A row in a list, at some position and time, and otherwise as it was.
abbrev pub at_place : Task → String → ℤ → ℕ → Task
at_place t bucket_id z now = record t { bucket_id = bucket_id; sort_order = z; updated_at = now }

relocated-found :
    (plan : Plan) (now : ℕ) (tasks : List Task) (t : Task)
    → find (has_id plan.task.id) tasks ≡ some t
    → t.bucket_id ≡ plan.task.bucket_id
    → (z : ℤ) × (find (has_id plan.task.id) (relocated plan now tasks)
        ≡ some (at_place t plan.bucket_id z now))
unfolding relocated
relocated-found plan now tasks t found home =
    let hit = find-test (has_id plan.task.id) tasks t found in
    elim (Bool-cases (plan.task.bucket_id == plan.bucket_id)) [
      | inl e ↦
          let here : t.bucket_id ≡ plan.bucket_id =
            home ∙ (text_iff plan.task.bucket_id plan.bucket_id).0 e in
          (
            t.sort_order,
            rw e (
                find-update plan.task.id (λ x. x.id == plan.task.id)
                  (λ x. record x { updated_at = now }) tasks t (λ x. refl) found
                ∙ rw hit (ap (λ b. some (at_place t b t.sort_order now)) here)),
          )
      | inr e ↦
          let put = record t {
            bucket_id = plan.bucket_id;
            sort_order = pos plan.position;
            updated_at = now;
          } in
          let step1 =
            find-update plan.task.id (λ x. x.id == plan.task.id)
              (λ x. record x {
                bucket_id = plan.bucket_id;
                sort_order = pos plan.position;
                updated_at = now;
              })
              tasks t (λ x. refl) found
            ∙ rw hit refl in
          let step2 =
            find-update plan.task.id (child_of plan.task.id)
              (λ x. record x { bucket_id = plan.bucket_id; updated_at = now }) _ put (λ x. refl)
              step1
            ∙ either (child_of plan.task.id put) put in
          let (z, step3) = find-order plan.task.id 0 plan.source_ids _ put step2 in (z, rw e step3)
    ]
  where
    either :
        (b : Bool) (u : Task)
        → some (if b then record u { bucket_id = u.bucket_id; updated_at = u.updated_at } else u)
          ≡ some u
    either true u = refl
    either false u = refl

pub written-found :
    (plan : Plan) (status : String) (now : ℕ) (tasks : List Task) (t : Task)
    → find (has_id plan.task.id) tasks ≡ some t
    → t.bucket_id ≡ plan.task.bucket_id
    → (z : ℤ) × (find (has_id plan.task.id) (write_move plan status now tasks)
        ≡ some (
            if status == ""
            then at_place t plan.bucket_id z now
            else restated plan.task.status now (at_place t plan.bucket_id z now)))
unfolding write_move
written-found plan status now tasks t found home =
    let hit = find-test (has_id plan.task.id) tasks t found in
    let (y, step1) = relocated-found plan now tasks t found home in
    let (z, step2) =
      find-order plan.task.id 0 plan.destination_ids _ (at_place t plan.bucket_id y now) step1 in
    elim (Bool-cases (status == "")) [
      | inl e ↦ (z, rw e step2)
      | inr e ↦ (
        z,
        rw e (
            find-update plan.task.id (λ x. x.id == plan.task.id) (restated plan.task.status now) _
              (at_place t plan.bucket_id z now) (λ x. refl) step2
            ∙ rw hit refl),
      )
    ]
