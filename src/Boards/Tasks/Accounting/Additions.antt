-- ===== src/Boards/Tasks/Accounting/Additions.antt =====
-- The counters when CreateTaskEntry of server/internal/boards/store.go adds an entry.
use slate_do.Prelude.{
  Bool, ℕ, ◌+◌, ◌*◌, ◌≤◌, String, len, ◌≡◌, ◌≢◌, refl, ◌&&◌, List, [], ◌∷◌, ◌++◌, ◌==◌, string_eq,
  update_where, count_where, sum_where-append, sum_where-update_where, if◌then◌else◌, ok, arith,
  text_iff, sym, ◌∙◌, ap, subst, Bool-cases, inl, inr,
}
use slate_do.Prelude.Int.{pos, ◌+ℤ◌}
use slate_do.Prelude.Counting.{count-update-same, count-of_find-some, count-implies-le}
use slate_do.Prelude.Keyed.{IsKeyed, sum-reweigh}
use slate_do.Boards.Types.{Task, Entry, TaskEntry}
use slate_do.Boards.Database.{Database, stored_bytes}
use slate_do.Boards.Quota.{usage_of}
use slate_do.Boards.Tasks.{owned}
use slate_do.Boards.Tasks.Accounting.{bytes_of, Accounted}
use slate_do.Boards.Tasks.Update.Written.{addressed}
use slate_do.Boards.Tasks.Entries.{
  Request, send_to_review, reviewable, in_review, entry_row, add_entry,
}
use slate_do.Boards.Tasks.Entries.Added.{Added, add_entry-Added}

-- The statement on the task changes no owner, no ID and no text.
sent-count :
    (r : Request) (now : ℕ) (tasks tasks' : List Task) (q : Task → Bool)
    → ((t : Task) → q (in_review now t) ≡ q t)
    → send_to_review r now tasks ≡ ok tasks'
    → count_where q tasks' ≡ count_where q tasks
unfolding send_to_review
sent-count r now tasks tasks' q keeps h = elim (Bool-cases (r.kind == "output")) [
  | inr e ↦ let same : tasks' ≡ tasks = ground (arith, h, e) in rw same refl
  | inl e ↦
      let same : tasks' ≡ update_where (reviewable r) (in_review now) tasks =
        ground (arith, h, e) in
      rw same (count-update-same q (reviewable r) (in_review now) tasks (λ x p. keeps x))
]

sent-bytes :
    (r : Request) (now : ℕ) (entries : List Entry) (tasks tasks' : List Task) (user_id : String)
    → send_to_review r now tasks ≡ ok tasks'
    → bytes_of entries tasks' user_id ≡ bytes_of entries tasks user_id
unfolding send_to_review
sent-bytes r now entries tasks tasks' user_id h = elim (Bool-cases (r.kind == "output")) [
  | inr e ↦ let same : tasks' ≡ tasks = ground (arith, h, e) in rw same refl
  | inl e ↦
      let same : tasks' ≡ update_where (reviewable r) (in_review now) tasks =
        ground (arith, h, e) in
      rw same (
        sum_where-update_where (owned user_id) (reviewable r) (stored_bytes entries) (in_review now)
          tasks (λ x p. (refl, refl)))
]

-- One more entry adds its bytes once for each row with the task's ID.
appended-bytes :
    (entries : List Entry) (e : Entry) (tasks : List Task) (user_id : String)
    → bytes_of (entries ++ e ∷ []) tasks user_id
      ≡ bytes_of entries tasks user_id
        + count_where (λ t. owned user_id t && t.id == e.task_id) tasks * len e.body
appended-bytes entries e tasks user_id =
    sum-reweigh (owned user_id) (λ t. t.id == e.task_id) (stored_bytes entries)
      (stored_bytes (entries ++ e ∷ [])) (len e.body) tasks
      (λ t o. omega (
        arith,
        sum_where-append (λ x. x.task_id == t.id) (λ x. len x.body) entries (e ∷ []),
        one t,
      ))
  where
    one :
        (t : Task)
        → (if e.task_id == t.id then len e.body else 0)
          ≡ (if t.id == e.task_id then len e.body else 0)
    one t = ground (arith, text_iff t.id e.task_id, text_iff e.task_id t.id)

module _ (db : Database) (user_id agent_id : String) (r : Request) (now : ℕ) (id : String)
    (answer : TaskEntry) (after : Database) (keyed : IsKeyed (λ t. t.id) db.tasks)
    (a : Added db user_id agent_id r now id answer after) where
  -- The account that owns the task counts the entry, once.
  owner-once : count_where (λ t. owned user_id t && t.id == r.task_id) db.tasks ≡ 1
  owner-once = omega (
    arith,
    keyed r.task_id,
    count-of_find-some (addressed user_id agent_id r.task_id) db.tasks a.task a.found,
    count-implies-le (addressed user_id agent_id r.task_id)
        (λ t. owned user_id t && t.id == r.task_id) db.tasks (λ t p. ground (arith, p)),
    count-implies-le (λ t. owned user_id t && t.id == r.task_id) (λ t. t.id == r.task_id) db.tasks
        (λ t p. ground (arith, p)),
  )

  -- No other account owns a row with the task's ID.
  other-none :
      (other : String)
      → user_id ≢ other
      → count_where (λ t. owned other t && t.id == r.task_id) db.tasks ≡ 0
  other-none other ne = omega (arith, keyed r.task_id, owner-once, both other ne db.tasks)
    where
      both :
          (other : String)
          → user_id ≢ other
          → (tasks : List Task)
          → count_where (λ t. owned user_id t && t.id == r.task_id) tasks
              + count_where (λ t. owned other t && t.id == r.task_id) tasks
            ≤ count_where (λ t. t.id == r.task_id) tasks
      both other ne [] = omega arith
      both other ne (t ∷ tasks) = ground (
        arith,
        both other ne tasks,
        text_iff t.owner_user_id user_id,
        text_iff t.owner_user_id other,
      )

  added-bytes :
      (u : String)
      → bytes_of after.entries after.tasks u
        ≡ bytes_of db.entries db.tasks u
          + count_where (λ t. owned u t && t.id == r.task_id) db.tasks * len r.body
  added-bytes u =
      sent-bytes r now after.entries db.tasks after.tasks u a.tasks
      ∙ ap (λ es. bytes_of es db.tasks u) a.entries
      ∙ appended-bytes db.entries (entry_row id now a.author_name r) db.tasks u

  added-Accounted : (u : String) → Accounted db u → Accounted after u
  added-Accounted u acc = elim (Bool-cases (user_id == u)) [
    | inl e ↦ subst (λ v. Accounted db v → Accounted after v) ((text_iff user_id u).0 e) own acc
    | inr e ↦ other u (λ q. cc (e, (text_iff user_id u).1 q)) acc
  ]
    where
      pos_sum : (a b c : ℕ) → pos a ≡ pos b +ℤ pos c → a ≡ b + c
      pos_sum a b c h = ground (arith, h)

      own_bytes :
          Accounted db user_id
          → (usage_of after user_id).content_bytes ≡ bytes_of after.entries after.tasks user_id
      own_bytes acc =
          let moved : (usage_of after user_id).content_bytes
              ≡ (usage_of db user_id).content_bytes + len r.body =
            pos_sum _ _ _ a.bytes in
          let scaled : count_where (λ t. owned user_id t && t.id == r.task_id) db.tasks * len r.body
              ≡ len r.body =
            rw owner-once (omega arith) in
          omega (arith, moved, acc.bytes, added-bytes user_id, scaled)

      own : Accounted db user_id → Accounted after user_id
      own acc = record {
        count =
            a.counts
            ∙ acc.count
            ∙ sym (sent-count r now db.tasks after.tasks (owned user_id) (λ x. refl) a.tasks);
        bytes = own_bytes acc;
      }

      other : (u : String) → user_id ≢ u → Accounted db u → Accounted after u
      other u ne acc = record {
        count =
            ap (λ x. x.tasks) (a.others u ne)
            ∙ acc.count
            ∙ sym (sent-count r now db.tasks after.tasks (owned u) (λ x. refl) a.tasks);
        bytes =
            ap (λ x. x.content_bytes) (a.others u ne)
            ∙ acc.bytes
            ∙ sym (added-bytes u ∙ rw (other-none u ne) (omega arith));
      }

-- Adding an entry keeps every account's counters equal to what its rows store.
pub add_entry-Accounted :
    (db : Database) (user_id agent_id given_name : String) (r : Request) (now : ℕ) (id : String)
    (answer : TaskEntry) (after : Database) (u : String)
    → IsKeyed (λ t. t.id) db.tasks
    → add_entry db user_id agent_id given_name r now id ≡ ok (answer, after)
    → Accounted db u
    → Accounted after u
add_entry-Accounted db user_id agent_id given_name r now id answer after u keyed h =
    added-Accounted db user_id agent_id r now id answer after keyed
      (add_entry-Added db user_id agent_id given_name r now id answer after h) u

-- An entry leaves distinct IDs distinct.
pub add_entry-IsKeyed :
    (db : Database) (user_id agent_id given_name : String) (r : Request) (now : ℕ) (id : String)
    (answer : TaskEntry) (after : Database)
    → add_entry db user_id agent_id given_name r now id ≡ ok (answer, after)
    → IsKeyed (λ t. t.id) db.tasks
    → IsKeyed (λ t. t.id) after.tasks
add_entry-IsKeyed db user_id agent_id given_name r now id answer after h keyed k =
    let a = add_entry-Added db user_id agent_id given_name r now id answer after h in
    subst (λ n. n ≤ 1)
      (sym (sent-count r now db.tasks after.tasks (λ t. t.id == k) (λ x. refl) a.tasks)) (keyed k)
