-- ===== src/Boards/Tasks/Create/Inserted.antt =====
-- What CreateTask of server/internal/boards/store.go has done when it adds a task.
use slate_do.Prelude.{
  ℕ, ◌+◌, String, len, ◌≡◌, ◌≢◌, refl, ◌&&◌, List, [], ◌∷◌, ◌++◌, ◌==◌, string_eq, find, find-test,
  count_where, sum_where-append, if◌then◌else◌, ok, or_fail-eq-ok, arith, text_iff, >>=-eq-ok,
  ok-injective, Bool-cases, inl, inr, sym, ◌∙◌, ap, subst,
}
use slate_do.Prelude.Int.{pos, ◌+ℤ◌}
use slate_do.Prelude.Counting.{count-append}
use slate_do.Boards.Types.{Task, Bucket, Entry, not_found}
use slate_do.Boards.Database.{
  Database, locked_bucket, active_agent_assignment, stored_bytes, entry_bytes, task_content_bytes,
}
use slate_do.Boards.Quota.{lock_storage_quota, apply, usage_of}
use slate_do.Boards.Quota.Check.{lock-apply-Moved}
use slate_do.Boards.Tasks.{owned}
use slate_do.Boards.Tasks.Accounting.{bytes_of, Accounted}
use slate_do.Boards.Tasks.Create.{
  Encodings, Prepared, target_list, task_row, key_row, insert_created, add_task,
}

pub record Inserted (e : Encodings) (db : Database) (user_id : String) (p : Prepared) (id : String)
    (t : Task) (after : Database) : Type 0 where
  pub owner : t.owner_user_id ≡ user_id
  pub id_drawn : t.id ≡ id
  pub text : task_content_bytes t ≡ len p.fields.title + len p.fields.description
  pub tasks : after.tasks ≡ db.tasks ++ t ∷ []
  pub entries : after.entries ≡ db.entries
  pub keys :
      after.keys ≡ (if p.key == "" then db.keys else db.keys ++ key_row e user_id p t.id ∷ [])
  pub counts : pos (usage_of after user_id).tasks ≡ pos (usage_of db user_id).tasks +ℤ pos 1
  pub bytes :
      pos (usage_of after user_id).content_bytes
      ≡ pos (usage_of db user_id).content_bytes
        +ℤ pos (len p.fields.title + len p.fields.description)
  pub others : (other : String) → user_id ≢ other → usage_of after other ≡ usage_of db other

bucket-owner :
    (db : Database) (user_id id : String) (b : Bucket)
    → locked_bucket db user_id id ≡ ok b
    → b.user_id ≡ user_id
unfolding locked_bucket
bucket-owner db user_id id b h =
    let hit =
      or_fail-eq-ok (find (λ x. x.user_id == user_id && x.id == id) db.buckets) not_found h in
    ground (
      arith,
      find-test (λ x. x.user_id == user_id && x.id == id) db.buckets b hit,
      text_iff b.user_id user_id,
    )

module _ (e : Encodings) (counted : Database) (user_id : String) (bucket : Bucket) (p : Prepared)
    (assignee : String) (now : ℕ) (id : String) where
  row-owner : (task_row counted bucket p assignee now id).owner_user_id ≡ bucket.user_id
  unfolding task_row
  row-owner = refl

  row-id : (task_row counted bucket p assignee now id).id ≡ id
  unfolding task_row
  row-id = refl

  row-text :
      task_content_bytes (task_row counted bucket p assignee now id)
      ≡ len p.fields.title + len p.fields.description
  unfolding task_row
  row-text = refl

pub add_task-Inserted :
    (e : Encodings) (db : Database) (user_id bucket_id : String) (p : Prepared) (now : ℕ)
    (id : String) (t : Task) (after : Database)
    → add_task e db user_id bucket_id p now id ≡ ok (t, after)
    → Inserted e db user_id p id t after
unfolding add_task insert_created
add_task-Inserted e db user_id bucket_id p now id t after h =
    let ((quota, locked), e1, h1) = >>=-eq-ok (lock_storage_quota db user_id) _ h in
    let (list, e2, h2) = >>=-eq-ok (target_list locked user_id p bucket_id) _ h1 in
    let (bucket, e3, h3) = >>=-eq-ok (locked_bucket locked user_id list) _ h2 in
    let delta = pos (len p.fields.title + len p.fields.description) in
    let (counted, e4, h4) = >>=-eq-ok (apply quota locked (pos 1) delta) _ h3 in
    let (assignee, e5, h5) =
      >>=-eq-ok (active_agent_assignment counted user_id p.fields.assignee_agent_id) _ h4 in
    let m = lock-apply-Moved db user_id (pos 1) delta quota locked counted e1 e4 in
    let same = ok-injective h5 in
    let row = ap (λ r. r.0) same in
    record {
      owner =
          ap (λ (x : Task). x.owner_user_id) (sym row)
          ∙ row-owner e counted user_id bucket p assignee now id
          ∙ bucket-owner locked user_id list bucket e3;
      id_drawn =
          ap (λ (x : Task). x.id) (sym row) ∙ row-id e counted user_id bucket p assignee now id;
      text = ap task_content_bytes (sym row) ∙ row-text e counted user_id bucket p assignee now id;
      tasks =
          sym (ap (λ r. r.1.tasks) same)
          ∙ ap (λ ts. ts ++ task_row counted bucket p assignee now id ∷ []) m.rows.tasks
          ∙ ap (λ x. db.tasks ++ x ∷ []) row;
      entries = sym (ap (λ r. r.1.entries) same) ∙ m.rows.entries;
      keys =
          sym (ap (λ r. r.1.keys) same)
          ∙ ap
              (λ ks.
                if p.key == ""
                then ks
                else ks ++ key_row e user_id p (task_row counted bucket p assignee now id).id ∷ [])
              m.rows.keys
          ∙ ap
              (λ (x : Task).
                if p.key == "" then db.keys else db.keys ++ key_row e user_id p x.id ∷ [])
              row;
      counts = sym (ap (λ r. pos (usage_of r.1 user_id).tasks) same) ∙ m.tasks;
      bytes = sym (ap (λ r. pos (usage_of r.1 user_id).content_bytes) same) ∙ m.bytes;
      others = λ o ne. sym (ap (λ r. usage_of r.1 o) same) ∙ m.others o ne;
    }

no-entries :
    (entries : List Entry) (id : String)
    → count_where (λ x. x.task_id == id) entries ≡ 0
    → entry_bytes entries id ≡ 0
no-entries [] id h = refl
no-entries (x ∷ entries) id h = ground (arith, h, no-entries entries id)

plus : (a b c : ℕ) → pos a ≡ pos b +ℤ pos c → a ≡ b + c
plus a b c h = ground (arith, h)

-- A new task under a drawn ID that no entry names keeps every account's counters equal to what its
-- rows store.
pub add_task-Accounted :
    (e : Encodings) (db : Database) (user_id bucket_id : String) (p : Prepared) (now : ℕ)
    (id : String) (t : Task) (after : Database) (u : String)
    → count_where (λ x. x.task_id == id) db.entries ≡ 0
    → add_task e db user_id bucket_id p now id ≡ ok (t, after)
    → Accounted db u
    → Accounted after u
add_task-Accounted e db user_id bucket_id p now id t after u fresh h acc =
    let i : Inserted e db user_id p id t after =
      add_task-Inserted e db user_id bucket_id p now id t after h in
    let counted = ap (count_where (owned u)) i.tasks ∙ count-append (owned u) db.tasks (t ∷ []) in
    let stored =
      ap (λ es. bytes_of es after.tasks u) i.entries
      ∙ ap (λ ts. bytes_of db.entries ts u) i.tasks
      ∙ sum_where-append (owned u) (stored_bytes db.entries) db.tasks (t ∷ []) in
    let silent : entry_bytes db.entries t.id ≡ 0 =
      ap (entry_bytes db.entries) i.id_drawn ∙ no-entries db.entries id fresh in
    elim (Bool-cases (owned u t)) [
      | inl o ↦
          let mine : user_id ≡ u = sym i.owner ∙ (text_iff t.owner_user_id u).0 o in
          let moved_count =
            subst (λ v. (usage_of after v).tasks ≡ (usage_of db v).tasks + 1) mine
              (plus _ _ _ i.counts) in
          let moved_bytes =
            subst
              (λ v.
                (usage_of after v).content_bytes
                ≡ (usage_of db v).content_bytes + (len p.fields.title + len p.fields.description))
              mine (plus _ _ _ i.bytes) in
          record {
            count = omega (arith, moved_count, acc.count, rw o at counted);
            bytes = omega (arith, moved_bytes, acc.bytes, rw o at stored, silent, i.text);
          }
      | inr o ↦
          let foreign : user_id ≢ u = λ q. cc (o, (text_iff t.owner_user_id u).1 (i.owner ∙ q)) in
          record {
            count =
                ap (λ x. x.tasks) (i.others u foreign) ∙ omega (arith, acc.count, rw o at counted);
            bytes =
                ap (λ x. x.content_bytes) (i.others u foreign)
                ∙ omega (arith, acc.bytes, rw o at stored);
          }
    ]
