-- ===== src/Boards/Tasks/Update/Written.antt =====
-- What updateTask of server/internal/boards/store.go writes and counts.
use slate_do.Prelude.{
  ℕ, String, ◌≡◌, ◌≢◌, refl, Bool, true, false, ◌&&◌, ◌||◌, Option, none, some, ◌==◌, string_eq,
  find, update_where, if◌then◌else◌, ok, or_fail, arith, >>=-eq-ok, ok-injective, or_fail-eq-ok,
  sym, ap, subst,
}
use slate_do.Prelude.Int.{ℤ, pos, ◌+ℤ◌, negate}
use slate_do.Boards.Types.{Task, Store, UpdateTaskInput, not_found}
use slate_do.Boards.Database.{Database, locked_task_for_agent, assigned_to, task_content_bytes}
use slate_do.Boards.Quota.{StorageQuota, lock_storage_quota, apply, usage_of}
use slate_do.Boards.Quota.Check.{lock_storage_quota-Locked, SameRows, lock-apply-Moved}
use slate_do.Boards.Tasks.{named}
use slate_do.Boards.Tasks.Update.{
  given, managed_run_fence, Move, rewritten, revised, rearranged, write_task, lock_quota_if,
  counted,
}

-- The row that an operation of an agent, or of a person, addresses.
abbrev pub addressed : String → String → String → Task → Bool
addressed user_id agent_id id t = t.owner_user_id == user_id && t.id == id && assigned_to agent_id t

pub record Updated (db : Database) (user_id agent_id id : String) (input : UpdateTaskInput)
    (allow : Bool) (now : ℕ) (t : Task) (after : Database) : Type 0 where
  pub original : Task
  pub found : find (addressed user_id agent_id id) db.tasks ≡ some original
  pub fenced : (agent_id == "") ≡ false → managed_run_fence original input ≡ ok tt
  pub locked : Database
  pub locked_rows : SameRows db locked
  pub move : Move
  pub current : Task
  pub revision : revised locked user_id original input allow ≡ ok (move, current)
  pub answer : t ≡ rewritten current now original
  pub tasks :
      after.tasks
      ≡ rearranged move now (update_where (named user_id id) (rewritten current now) db.tasks)
  pub entries : after.entries ≡ db.entries
  pub bytes :
      (given input.title || given input.description || given input.bucket_id) ≡ true
      → pos (usage_of after user_id).content_bytes
        ≡ pos (usage_of db user_id).content_bytes
          +ℤ (pos (task_content_bytes current) +ℤ negate (task_content_bytes original))
  pub count : (usage_of after user_id).tasks ≡ (usage_of db user_id).tasks
  pub untouched :
      (given input.title || given input.description || given input.bucket_id) ≡ false
      → after.usage ≡ db.usage
  pub others : (other : String) → user_id ≢ other → usage_of after other ≡ usage_of db other

-- What the lock and the count have done to the counters.
pub record Tallied (db : Database) (user_id : String) (locks : Bool) (delta : ℤ) (after : Database)
    : Type 0 where
  pub rows : SameRows db after
  pub bytes :
      locks ≡ true
      → pos (usage_of after user_id).content_bytes
        ≡ pos (usage_of db user_id).content_bytes +ℤ delta
  pub count : (usage_of after user_id).tasks ≡ (usage_of db user_id).tasks
  pub untouched : locks ≡ false → after.usage ≡ db.usage
  pub others : (other : String) → user_id ≢ other → usage_of after other ≡ usage_of db other

pub tallied :
    (db : Database) (user_id : String) (locks : Bool) (delta : ℤ) (quota : Option StorageQuota)
    (locked after : Database)
    → lock_quota_if locks db user_id ≡ ok (quota, locked)
    → counted quota locked delta ≡ ok after
    → SameRows db locked × Tallied db user_id locks delta after
tallied db user_id false delta quota locked after h k =
    let same : locked ≡ db = ground arith in
    let none_quota : quota ≡ none = ground arith in
    let same_after : after ≡ db = ground arith in
    (
      rw same (record {
        users = refl;
        agents = refl;
        buckets = refl;
        tasks = refl;
        entries = refl;
        keys = refl;
      }),
      rw same_after (record {
        rows = record {
          users = refl;
          agents = refl;
          buckets = refl;
          tasks = refl;
          entries = refl;
          keys = refl;
        };
        bytes = λ e. cc e;
        count = refl;
        untouched = λ _. refl;
        others = λ o ne. refl;
      }),
    )
tallied db user_id true delta quota locked after h k =
    let (read, e, h1) = >>=-eq-ok (lock_storage_quota db user_id) _ h in
    let facts = lock_storage_quota-Locked db user_id read.0 read.1 e in
    let same : locked ≡ read.1 = ground arith in
    let the_quota : quota ≡ some read.0 = ground arith in
    let applied : apply read.0 read.1 (pos 0) delta ≡ ok after =
      ground (arith, same, the_quota, k) in
    let moved = lock-apply-Moved db user_id (pos 0) delta read.0 read.1 after e applied in
    (
      rw same facts.rows,
      record {
        rows = moved.rows;
        bytes = λ _. moved.bytes;
        count = ground (arith, moved.tasks);
        untouched = λ e. cc e;
        others = moved.others;
      },
    )

pub locked_task_for_agent-found :
    (db : Database) (user_id agent_id id : String) (t : Task)
    → locked_task_for_agent db user_id agent_id id ≡ ok t
    → find (addressed user_id agent_id id) db.tasks ≡ some t
unfolding locked_task_for_agent
locked_task_for_agent-found db user_id agent_id id t h =
    or_fail-eq-ok (find (addressed user_id agent_id id) db.tasks) not_found h

pub lock_quota_if-rows :
    (db : Database) (user_id : String) (locks : Bool) (quota : Option StorageQuota)
    (locked : Database)
    → lock_quota_if locks db user_id ≡ ok (quota, locked)
    → SameRows db locked
lock_quota_if-rows db user_id false quota locked h = record {
  users = ap (λ (p : Option StorageQuota × Database). p.1.users) (sym (ok-injective h));
  agents = ap (λ (p : Option StorageQuota × Database). p.1.agents) (sym (ok-injective h));
  buckets = ap (λ (p : Option StorageQuota × Database). p.1.buckets) (sym (ok-injective h));
  tasks = ap (λ (p : Option StorageQuota × Database). p.1.tasks) (sym (ok-injective h));
  entries = ap (λ (p : Option StorageQuota × Database). p.1.entries) (sym (ok-injective h));
  keys = ap (λ (p : Option StorageQuota × Database). p.1.keys) (sym (ok-injective h));
}
lock_quota_if-rows db user_id true quota locked h =
    let (read, e, h1) = >>=-eq-ok (lock_storage_quota db user_id) _ h in
    subst (SameRows db) (ap (λ (p : Option StorageQuota × Database). p.1) (ok-injective h1))
      (lock_storage_quota-Locked db user_id read.0 read.1 e).rows

pub fence-passed :
    (agent_id : String) (m : Store (Unit {0})) (u : Unit {0})
    → (if agent_id == "" then ok tt else m) ≡ ok u
    → (agent_id == "") ≡ false
    → m ≡ ok tt
fence-passed agent_id m u h a = ground (arith, h, a)

-- What the UPDATE has written, for the row that it found.
pub record Written (db : Database) (user_id id : String) (move : Move) (current : Task) (now : ℕ)
    (t : Task) (after : Database) : Type 0 where
  pub row : Task
  pub found : find (named user_id id) db.tasks ≡ some row
  pub answer : t ≡ rewritten current now row
  pub rows : after ≡ record db {
    tasks = rearranged move now (update_where (named user_id id) (rewritten current now) db.tasks);
  }

pub write_task-Written :
    (db : Database) (user_id id : String) (move : Move) (current : Task) (now : ℕ) (t : Task)
    (after : Database)
    → write_task db user_id id move current now ≡ ok (t, after)
    → Written db user_id id move current now t after
unfolding write_task
write_task-Written db user_id id move current now t after h =
    let (row, e, h1) = >>=-eq-ok (or_fail (find (named user_id id) db.tasks) not_found) _ h in
    let same = ok-injective h1 in
    record {
      row = row;
      found = or_fail-eq-ok (find (named user_id id) db.tasks) not_found e;
      answer = sym (ap (λ p. p.0) same);
      rows = sym (ap (λ p. p.1) same);
    }
