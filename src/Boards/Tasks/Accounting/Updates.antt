-- ===== src/Boards/Tasks/Accounting/Updates.antt =====
-- The counters when updateTask of server/internal/boards/store.go rewrites a task.
use slate_do.Prelude.{
  ℕ, suc, ◌+◌, String, ◌≡◌, ◌≤◌, ◌≢◌, refl, Bool, true, false, ◌||◌, List, [], ◌∷◌, some, ◌==◌,
  string_eq, find, find-test, update_where, count_where, sum_where, sum_where-update_where,
  count_where-eq-sum_where, if◌then◌else◌, ok, arith, text_iff, sym, ◌∙◌, ap, subst, Bool-cases,
  inl, inr,
}
use slate_do.Prelude.Int.{ℤ, pos, ◌+ℤ◌, negate}
use slate_do.Prelude.Counting.{count-implies-le}
use slate_do.Prelude.Keyed.{IsKeyed, sum-update-one, find-keyed}
use slate_do.Boards.Types.{Task, Entry, UpdateTaskInput}
use slate_do.Boards.Database.{Database, stored_bytes, task_content_bytes}
use slate_do.Boards.Quota.{usage_of}
use slate_do.Boards.Tasks.{owned, named}
use slate_do.Boards.Tasks.Positions.{write_task_order, update_child_task_locations, child_of}
use slate_do.Boards.Tasks.Accounting.{bytes_of, Accounted}
use slate_do.Boards.Tasks.Update.{
  given, Move, rewritten, rearranged, with_content, relisted, move_to, with_workflow, update_task,
}
use slate_do.Boards.Validation.{apply_task_status}
use slate_do.Boards.Tasks.Update.Parts.{update_task-Updated}
use slate_do.Boards.Tasks.Update.Written.{Updated, addressed}
use slate_do.Boards.Tasks.Update.Outcome.{Revised, revised-Revised}

module _ (w : Task → ℕ) (q : Task → Bool)
    (order : (t : Task) (z : ℤ)
      → (q (record t { sort_order = z }) ≡ q t) × (w (record t { sort_order = z }) ≡ w t))
    (place : (t : Task) (b : String) (now : ℕ)
      → (q (record t { bucket_id = b; updated_at = now }) ≡ q t)
        × (w (record t { bucket_id = b; updated_at = now }) ≡ w t)) where
  pub ordered-sum :
      (i : ℕ) (ids : List String) (tasks : List Task)
      → sum_where q w (write_task_order i ids tasks) ≡ sum_where q w tasks
  unfolding write_task_order
  ordered-sum i [] tasks = refl
  ordered-sum i (id ∷ ids) tasks =
      ordered-sum (suc i) ids
        (update_where (λ t. t.id == id) (λ t. record t { sort_order = pos i }) tasks)
      ∙ sum_where-update_where q (λ t. t.id == id) w (λ t. record t { sort_order = pos i }) tasks
          (λ t p. order t (pos i))

  rearranged-sum :
      (move : Move) (now : ℕ) (tasks : List Task)
      → sum_where q w (rearranged move now tasks) ≡ sum_where q w tasks
  unfolding rearranged
  rearranged-sum move now tasks =
      ordered-sum 0 move.destination_order _
      ∙ ordered-sum 0 move.source_order _
      ∙ children move.move_children
    where
      children :
          (b : Bool)
          → sum_where q w (
              if b
              then update_child_task_locations move.task.id move.task.bucket_id now tasks
              else tasks)
            ≡ sum_where q w tasks
      children false = refl
      children true =
          sum_where-update_where q (child_of move.task.id) w
            (λ t. record t { bucket_id = move.task.bucket_id; updated_at = now }) tasks
            (λ t p. place t move.task.bucket_id now)

-- No statement of an update changes how many rows pass a test that reads what none of them writes.
updated-count :
    (q : Task → Bool)
    → ((t : Task) (z : ℤ) → q (record t { sort_order = z }) ≡ q t)
    → ((t : Task) (b : String) (now : ℕ) → q (record t { bucket_id = b; updated_at = now }) ≡ q t)
    → (user_id id : String) (move : Move) (current : Task) (now : ℕ) (tasks : List Task)
    → ((t : Task) → q (rewritten current now t) ≡ q t)
    → count_where q
        (rearranged move now (update_where (named user_id id) (rewritten current now) tasks))
      ≡ count_where q tasks
updated-count q order place user_id id move current now tasks same =
    count_where-eq-sum_where q _
    ∙ rearranged-sum (λ _. 1) q (λ t z. (order t z, refl)) (λ t b n. (place t b n, refl)) move now _
    ∙ sum_where-update_where q (named user_id id) (λ _. 1) (rewritten current now) tasks
        (λ t p. (same t, refl))
    ∙ sym (count_where-eq-sum_where q tasks)

rewritten-owned :
    (u : String) (current : Task) (now : ℕ) (t : Task)
    → owned u (rewritten current now t) ≡ owned u t
unfolding rewritten
rewritten-owned u current now t = refl

rewritten-id : (current : Task) (now : ℕ) (t : Task) → (rewritten current now t).id ≡ t.id
unfolding rewritten
rewritten-id current now t = refl

-- The sum of an account's bytes moves by the bytes of the row that is rewritten.
updated-bytes :
    (entries : List Entry) (user_id id u : String) (move : Move) (current original : Task) (now : ℕ)
    (tasks : List Task)
    → IsKeyed (λ t. t.id) tasks
    → find (named user_id id) tasks ≡ some original
    → bytes_of entries
          (rearranged move now (update_where (named user_id id) (rewritten current now) tasks))
          u
        + (if owned u original then task_content_bytes original else 0)
      ≡ bytes_of entries tasks u + (if owned u original then task_content_bytes current else 0)
unfolding rewritten
updated-bytes entries user_id id u move current original now tasks keyed found =
    let same =
      rearranged-sum (stored_bytes entries) (owned u) (λ t z. (refl, refl)) (λ t b n. (refl, refl))
        move now (update_where (named user_id id) (rewritten current now) tasks) in
    let one =
      sum-update-one (owned u) (named user_id id) (stored_bytes entries) (rewritten current now)
        tasks original
        (omega (
          arith,
          keyed id,
          count-implies-le (named user_id id) (λ t. t.id == id) tasks (λ t p. ground (arith, p)),
        ))
        found in
    elim (Bool-cases (owned u original)) [
      | inl e ↦ ground (arith, same, rw (e) at one, e)
      | inr e ↦ ground (arith, same, rw (e) at one, e)
    ]

content-kept :
    (t : Task) (input : UpdateTaskInput) (u : Task)
    → (given input.title || given input.description) ≡ false
    → with_content t input ≡ ok u
    → task_content_bytes u ≡ task_content_bytes t
unfolding with_content
content-kept t input u quiet h = ground arith

workflow-content :
    (db : Database) (user_id : String) (t : Task) (input : UpdateTaskInput) (allow : Bool)
    (u : Task)
    → with_workflow db user_id t input allow ≡ ok u
    → task_content_bytes u ≡ task_content_bytes t
unfolding with_workflow apply_task_status
workflow-content db user_id t input allow u h = ground arith

relisted-content :
    (db : Database) (user_id : String) (t : Task) (input : UpdateTaskInput) (move : Move)
    → relisted db user_id t input ≡ ok move
    → task_content_bytes move.task ≡ task_content_bytes t
unfolding relisted move_to
relisted-content db user_id t input move h = ground arith

-- Without a title, a description or a list in the input, the lock is not taken and the bytes stay.
Revised-content :
    (db : Database) (user_id : String) (original : Task) (input : UpdateTaskInput) (allow : Bool)
    (move : Move) (current : Task)
    → (given input.title || given input.description) ≡ false
    → Revised db user_id original input allow move current
    → task_content_bytes current ≡ task_content_bytes original
Revised-content db user_id original input allow move current quiet r =
    ap task_content_bytes r.settled
    ∙ workflow-content db user_id move.task input allow r.worked r.workflow
    ∙ relisted-content db user_id r.edited input move r.listed
    ∙ content-kept original input r.edited quiet r.content

moved-by : (a b n o : ℕ) → pos a ≡ pos b +ℤ (pos n +ℤ negate o) → a + o ≡ b + n
moved-by a b n o h = ground (arith, h)

module _ (db : Database) (user_id agent_id id : String) (input : UpdateTaskInput) (allow : Bool)
    (now : ℕ) (t : Task) (after : Database) (keyed : IsKeyed (λ x. x.id) db.tasks)
    (up : Updated db user_id agent_id id input allow now t after) where
  named-original : find (named user_id id) db.tasks ≡ some up.original
  named-original =
      find-keyed (λ x. x.id) id (addressed user_id agent_id id) (named user_id id) db.tasks
        up.original (keyed id) (λ x p. ground (arith, p)) (λ x p. ground (arith, p)) up.found
        (ground (arith, find-test (addressed user_id agent_id id) db.tasks up.original up.found))

  original-owned : owned user_id up.original ≡ true
  original-owned = ground (arith, find-test (named user_id id) db.tasks up.original named-original)

  counter-moved :
      (usage_of after user_id).content_bytes + task_content_bytes up.original
      ≡ (usage_of db user_id).content_bytes + task_content_bytes up.current
  counter-moved =
      elim (Bool-cases (given input.title || given input.description || given input.bucket_id)) [
        | inl e ↦ moved-by _ _ _ _ (up.bytes e)
        | inr e ↦ omega (
          arith,
          same_usage (up.untouched e),
          Revised-content up.locked user_id up.original input allow up.move up.current (quiet e) (
              revised-Revised up.locked user_id up.original input allow up.move up.current
                up.revision),
        )
      ]
    where
      quiet :
          (given input.title || given input.description || given input.bucket_id) ≡ false
          → (given input.title || given input.description) ≡ false
      quiet e = ground (arith, e)

      same_usage :
          after.usage ≡ db.usage
          → (usage_of after user_id).content_bytes ≡ (usage_of db user_id).content_bytes
      same_usage e = rw (usage_of, e) refl

  rows-moved :
      (u : String)
      → bytes_of after.entries after.tasks u
          + (if owned u up.original then task_content_bytes up.original else 0)
        ≡ bytes_of db.entries db.tasks u
          + (if owned u up.original then task_content_bytes up.current else 0)
  rows-moved u =
      ap
        (λ es.
          bytes_of es after.tasks u
          + (if owned u up.original then task_content_bytes up.original else 0))
        up.entries
      ∙ ap
          (λ ts.
            bytes_of db.entries ts u
            + (if owned u up.original then task_content_bytes up.original else 0))
          up.tasks
      ∙ updated-bytes db.entries user_id id u up.move up.current up.original now db.tasks keyed
          named-original

  rows-count : (u : String) → count_where (owned u) after.tasks ≡ count_where (owned u) db.tasks
  rows-count u =
      ap (count_where (owned u)) up.tasks
      ∙ updated-count (owned u) (λ t z. refl) (λ t b n. refl) user_id id up.move up.current now
          db.tasks (rewritten-owned u up.current now)

  updated-Accounted : (u : String) → Accounted db u → Accounted after u
  updated-Accounted u acc = elim (Bool-cases (user_id == u)) [
    | inl e ↦ subst (λ v. Accounted db v → Accounted after v) ((text_iff user_id u).0 e) own acc
    | inr e ↦ other u (λ q. cc (e, (text_iff user_id u).1 q)) acc
  ]
    where
      own : Accounted db user_id → Accounted after user_id
      own acc = record {
        count = up.count ∙ acc.count ∙ sym (rows-count user_id);
        bytes = omega (arith, counter-moved, acc.bytes, rw original-owned at (rows-moved user_id));
      }

      other : (u : String) → user_id ≢ u → Accounted db u → Accounted after u
      other u ne acc =
          let foreign : owned u up.original ≡ false = ground (
            arith,
            original-owned,
            text_iff up.original.owner_user_id user_id,
            text_iff up.original.owner_user_id u,
          ) in
          record {
            count = ap (λ x. x.tasks) (up.others u ne) ∙ acc.count ∙ sym (rows-count u);
            bytes =
                ap (λ x. x.content_bytes) (up.others u ne)
                ∙ omega (arith, acc.bytes, rw foreign at (rows-moved u));
          }

-- An update of a task keeps every account's counters equal to what its rows store.
pub update_task-Accounted :
    (db : Database) (user_id agent_id id : String) (input : UpdateTaskInput) (allow : Bool)
    (now : ℕ) (t : Task) (after : Database) (u : String)
    → IsKeyed (λ x. x.id) db.tasks
    → update_task db user_id agent_id id input allow now ≡ ok (t, after)
    → Accounted db u
    → Accounted after u
update_task-Accounted db user_id agent_id id input allow now t after u keyed h =
    updated-Accounted db user_id agent_id id input allow now t after keyed
      (update_task-Updated db user_id agent_id id input allow now t after keyed h) u

-- An update leaves distinct IDs distinct.
pub update_task-IsKeyed :
    (db : Database) (user_id agent_id id : String) (input : UpdateTaskInput) (allow : Bool)
    (now : ℕ) (t : Task) (after : Database)
    → update_task db user_id agent_id id input allow now ≡ ok (t, after)
    → IsKeyed (λ x. x.id) db.tasks
    → IsKeyed (λ x. x.id) after.tasks
update_task-IsKeyed db user_id agent_id id input allow now t after h keyed k =
    let up = update_task-Updated db user_id agent_id id input allow now t after keyed h in
    subst (λ n. n ≤ 1)
      (sym (
        ap (count_where (λ x. x.id == k)) up.tasks
        ∙ updated-count (λ x. x.id == k) (λ x z. refl) (λ x b n. refl) user_id id up.move up.current
            now db.tasks (λ x. ap (λ i. i == k) (rewritten-id up.current now x))))
      (keyed k)
