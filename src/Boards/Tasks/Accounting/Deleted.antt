-- ===== src/Boards/Tasks/Accounting/Deleted.antt =====
-- What DeleteTask of server/internal/boards/store.go removes, and what it counts.
use slate_do.Prelude.{
  ℕ, ◌+◌, ◌≤◌, String, ◌≡◌, ◌≢◌, refl, Bool, true, false, not, ◌&&◌, ◌||◌, List, [], ◌∷◌, some,
  ◌==◌, string_eq, find, find-test, keep, any, count_where, sum_where, sum_where-split, length, All,
  ok, arith, text_iff, text_refl, >>=-eq-ok, ok-injective, sym, ◌∙◌, ap, Bool-cases, inl, inr,
}
use slate_do.Prelude.Int.{pos, ◌+ℤ◌, negate}
use slate_do.Prelude.Counting.{All-imp, count-of_any}
use slate_do.Prelude.Keyed.{IsKeyed, IsKeyed-find, All-members, keep-same}
use slate_do.Boards.Tasks.Update.Written.{addressed, locked_task_for_agent-found}
use slate_do.Boards.Types.{Task, Entry}
use slate_do.Boards.Database.{Database, locked_task, stored_bytes, entry_bytes}
use slate_do.Boards.Quota.{lock_storage_quota, apply, usage_of}
use slate_do.Boards.Quota.Check.{lock_storage_quota-Locked, lock-apply-Moved}
use slate_do.Boards.Buckets.Change.{cascade, delete_tasks}
use slate_do.Boards.Tasks.{owned}
use slate_do.Boards.Tasks.Delete.{with_children, delete_task}
use slate_do.Boards.Tasks.Accounting.Cascade.{seeded, Childless, exactly}

keep-same-All :
    (p q : Task → Bool) (tasks : List Task)
    → All (λ t. p t ≡ q t) tasks
    → keep p tasks ≡ keep q tasks
keep-same-All p q [] h = refl
keep-same-All p q (x ∷ tasks) h = rw (h.0, keep-same-All p q tasks h.1) refl

any-same-All :
    (p q : Task → Bool) (tasks : List Task) → All (λ t. p t ≡ q t) tasks → any p tasks ≡ any q tasks
any-same-All p q [] h = refl
any-same-All p q (x ∷ tasks) h = rw (h.0, any-same-All p q tasks h.1) refl

-- The sum over the rows that are dropped, where those are all of the account.
dropped-sum :
    (p d : Task → Bool) (w : Task → ℕ) (tasks : List Task)
    → All (λ t. d t ≡ true → p t ≡ true) tasks
    → sum_where p w (keep (λ t. not (not (d t))) tasks) ≡ sum_where d w tasks
dropped-sum p d w [] h = refl
dropped-sum p d w (x ∷ tasks) h = ground (arith, h.0, dropped-sum p d w tasks h.1)

-- The sum of the rows that stay is what the dropped rows leave of the whole.
pub kept-sum :
    (p d : Task → Bool) (w : Task → ℕ) (tasks : List Task)
    → All (λ t. d t ≡ true → p t ≡ true) tasks
    → sum_where p w tasks ≡ sum_where p w (keep (λ t. not (d t)) tasks) + sum_where d w tasks
kept-sum p d w tasks h =
    omega (arith, sum_where-split p (λ t. not (d t)) w tasks, dropped-sum p d w tasks h)

-- An entry of a row that stays is not dropped with another's.
pub kept-entries :
    (r : String → Bool) (entries : List Entry) (k : String)
    → r k ≡ false
    → entry_bytes (keep (λ e. not (r e.task_id)) entries) k ≡ entry_bytes entries k
kept-entries r [] k h = refl
kept-entries r (e ∷ entries) k h = elim (Bool-cases (e.task_id == k)) [
  | inl q ↦
      let stays : r e.task_id ≡ false = ap r ((text_iff e.task_id k).0 q) ∙ h in
      ground (arith, q, stays, kept-entries r entries k h)
  | inr q ↦ ground (arith, q, kept-entries r entries k h)
]

pub same-weights :
    (p d : Task → Bool) (w w' : Task → ℕ) (tasks : List Task)
    → All (λ t. d t ≡ false → w' t ≡ w t) tasks
    → sum_where p w' (keep (λ t. not (d t)) tasks) ≡ sum_where p w (keep (λ t. not (d t)) tasks)
same-weights p d w w' [] h = refl
same-weights p d w w' (x ∷ tasks) h = ground (arith, h.0, same-weights p d w w' tasks h.1)

-- A row that stays shares its ID with no dropped row.
pub apart :
    (d : Task → Bool) (tasks : List Task)
    → IsKeyed (λ t. t.id) tasks
    → All (λ t. d t ≡ false → any (λ x. d x && x.id == t.id) tasks ≡ false) tasks
apart d tasks keyed =
    All-members (λ t. d t ≡ false → any (λ x. d x && x.id == t.id) tasks ≡ false)
      (λ t x. x.id == t.id && (d t || not (d x))) tasks (λ t. ground (arith, text_refl t.id))
      (λ t there stays. elim (Bool-cases (any (λ x. d x && x.id == t.id) tasks)) [
        | inr e ↦ e
        | inl e ↦ absurd (
            omega (
              arith,
              keyed t.id,
              there,
              count-of_any (λ x. d x && x.id == t.id) tasks e,
              split t stays tasks,
            ))
      ])
  where
    split :
        (t : Task)
        → d t ≡ false
        → (rows : List Task)
        → count_where (λ x. d x && x.id == t.id) rows
            + count_where (λ x. x.id == t.id && (d t || not (d x))) rows
          ≤ count_where (λ x. x.id == t.id) rows
    split t stays [] = omega arith
    split t stays (x ∷ rows) = ground (arith, stays, split t stays rows)

abbrev pub left_tasks : List Task → (Task → Bool) → List Task
left_tasks tasks d = keep (λ t. not (d t)) tasks

abbrev pub left_entries : List Task → List Entry → (Task → Bool) → List Entry
left_entries tasks entries d = keep (λ e. not (any (λ t. d t && t.id == e.task_id) tasks)) entries

pub taken : (a b c : ℕ) → pos a ≡ pos b +ℤ negate c → a + c ≡ b
taken a b c h = ground (arith, h)

addressed-owned :
    (user_id id : String) (t : Task) → addressed user_id "" id t ≡ true → owned user_id t ≡ true
addressed-owned user_id id t p = ground (arith, p)

found-any :
    (user_id id : String) (tasks : List Task) (t : Task)
    → find (addressed user_id "" id) tasks ≡ some t
    → any (seeded id) tasks ≡ true
found-any user_id id [] t h = cc
found-any user_id id (x ∷ tasks) t h = ground (arith, h, found-any user_id id tasks t)

-- What a deletion did, the rows written with the task and its children.
pub record Deleted (db : Database) (user_id id : String) (after : Database) : Type 0 where
  pub tasks : after.tasks ≡ left_tasks db.tasks (with_children id)
  pub entries : after.entries ≡ left_entries db.tasks db.entries (with_children id)
  pub owner : All (λ t. (t.id == id) ≡ true → owned user_id t ≡ true) db.tasks
  pub counts :
      (usage_of after user_id).tasks + count_where (with_children id) db.tasks
      ≡ (usage_of db user_id).tasks
  pub bytes :
      (usage_of after user_id).content_bytes
        + sum_where (with_children id) (stored_bytes db.entries) db.tasks
      ≡ (usage_of db user_id).content_bytes
  pub others : (other : String) → user_id ≢ other → usage_of after other ≡ usage_of db other

pub delete_task-Deleted :
    (db : Database) (user_id id : String) (after : Database)
    → IsKeyed (λ t. t.id) db.tasks
    → (id == "") ≡ false
    → All (Childless db.tasks id) db.tasks
    → delete_task db user_id id ≡ ok after
    → Deleted db user_id id after
unfolding delete_task delete_tasks
delete_task-Deleted db user_id id after keyed named flat h =
    let ((quota, locked), e1, h1) = >>=-eq-ok (lock_storage_quota db user_id) _ h in
    let (task, e2, h2) = >>=-eq-ok (locked_task locked user_id id) _ h1 in
    let n = count_where (with_children task.id) locked.tasks in
    let b = sum_where (with_children task.id) (stored_bytes locked.entries) locked.tasks in
    let (counted, e3, h3) = >>=-eq-ok (apply quota locked (negate n) (negate b)) _ h2 in
    let l = lock_storage_quota-Locked db user_id quota locked e1 in
    let m = lock-apply-Moved db user_id (negate n) (negate b) quota locked counted e1 e3 in
    let same = ok-injective h3 in
    let hit : find (addressed user_id "" id) db.tasks ≡ some task =
      ap (find (addressed user_id "" id)) (sym l.rows.tasks)
      ∙ locked_task_for_agent-found locked user_id "" id task e2 in
    let test = find-test (addressed user_id "" id) db.tasks task hit in
    let is_id : task.id ≡ id = ground (arith, test, text_iff task.id id) in
    let there : any (seeded id) db.tasks ≡ true = found-any user_id id db.tasks task hit in
    let same_rows : All (λ t. cascade (length db.tasks) db.tasks (seeded id) t ≡ with_children id t)
        db.tasks =
      All-imp _ _ db.tasks (λ t g. exactly db.tasks id t named there flat g) flat in
    record {
      tasks =
          sym (ap (λ (d : Database). d.tasks) same)
          ∙ ap (λ ts. left_tasks ts (cascade (length ts) ts (seeded task.id))) m.rows.tasks
          ∙ ap (λ k. left_tasks db.tasks (cascade (length db.tasks) db.tasks (seeded k))) is_id
          ∙ keep-same-All (λ t. not (cascade (length db.tasks) db.tasks (seeded id) t))
              (λ t. not (with_children id t)) db.tasks
              (All-imp _ _ db.tasks (λ t q. ap not q) same_rows);
      entries =
          sym (ap (λ (d : Database). d.entries) same)
          ∙ ap (λ ts. left_entries ts counted.entries (cascade (length ts) ts (seeded task.id)))
              m.rows.tasks
          ∙ ap
              (λ es. left_entries db.tasks es (cascade (length db.tasks) db.tasks (seeded task.id)))
              m.rows.entries
          ∙ ap
              (λ k.
                left_entries db.tasks db.entries (cascade (length db.tasks) db.tasks (seeded k)))
              is_id
          ∙ keep-same
              (λ e. not (
                any (λ t. cascade (length db.tasks) db.tasks (seeded id) t && t.id == e.task_id)
                  db.tasks))
              (λ e. not (any (λ t. with_children id t && t.id == e.task_id) db.tasks)) db.entries
              (λ e. ap not (
                any-same-All
                  (λ t. cascade (length db.tasks) db.tasks (seeded id) t && t.id == e.task_id)
                  (λ t. with_children id t && t.id == e.task_id) db.tasks
                  (All-imp _ _ db.tasks (λ t q. ap (λ f. f && t.id == e.task_id) q) same_rows)));
      owner =
          All-imp _ _ db.tasks
            (λ t only q.
              ap (λ (x : Task). owned user_id x) (only q) ∙ addressed-owned user_id id task test)
            (IsKeyed-find (λ x. x.id) id (addressed user_id "" id) db.tasks task (keyed id)
              (λ x p. ground (arith, p)) hit);
      counts =
          ap (λ c. (usage_of after user_id).tasks + c)
            (sym (ap (λ ts. count_where (with_children id) ts) l.rows.tasks)
              ∙ ap (λ k. count_where (with_children k) locked.tasks) (sym is_id))
          ∙ ap (λ c. c + n) (sym (ap (λ d. (usage_of d user_id).tasks) same))
          ∙ taken _ _ n m.tasks;
      bytes =
          ap (λ c. (usage_of after user_id).content_bytes + c)
            (sym (ap (λ ts. sum_where (with_children id) (stored_bytes db.entries) ts) l.rows.tasks)
              ∙ sym (
                  ap (λ es. sum_where (with_children id) (stored_bytes es) locked.tasks)
                    l.rows.entries)
              ∙ ap (λ k. sum_where (with_children k) (stored_bytes locked.entries) locked.tasks)
                  (sym is_id))
          ∙ ap (λ c. c + b) (sym (ap (λ d. (usage_of d user_id).content_bytes) same))
          ∙ taken _ _ b m.bytes;
      others = λ o ne. sym (ap (λ d. usage_of d o) same) ∙ m.others o ne;
    }
