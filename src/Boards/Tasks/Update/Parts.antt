-- ===== src/Boards/Tasks/Update/Parts.antt =====
-- The parts of a successful updateTask of server/internal/boards/store.go.
use slate_do.Prelude.{
  ℕ, String, ◌≡◌, ◌≢◌, Bool, true, false, ◌||◌, Option, some, List, ◌==◌, string_eq, find,
  find-test, update_where, if◌then◌else◌, ok, All-find, arith, >>=-eq-ok, sym, ◌∙◌, ap,
}
use slate_do.Prelude.Int.{ℤ, pos, ◌+ℤ◌, negate}
use slate_do.Prelude.Keyed.{IsKeyed, IsKeyed-find}
use slate_do.Boards.Types.{Task, UpdateTaskInput}
use slate_do.Boards.Database.{Database, locked_task_for_agent, task_content_bytes}
use slate_do.Boards.Quota.{StorageQuota, usage_of}
use slate_do.Boards.Tasks.{named}
use slate_do.Boards.Tasks.Update.{
  given, managed_run_fence, Move, rewritten, revised, rearranged, capacity_checked, write_task,
  save_task, update_task, lock_quota_if, counted,
}
use slate_do.Boards.Tasks.Update.Written.{
  addressed, Updated, tallied, locked_task_for_agent-found, lock_quota_if-rows, fence-passed,
  write_task-Written,
}

-- What the statements from the quota check on have done.
record Saved (db : Database) (user_id id : String) (locks : Bool) (original : Task) (move : Move)
    (current : Task) (now : ℕ) (t : Task) (after : Database) : Type 0 where
  row : Task
  found : find (named user_id id) db.tasks ≡ some row
  answer : t ≡ rewritten current now row
  tasks :
      after.tasks
      ≡ rearranged move now (update_where (named user_id id) (rewritten current now) db.tasks)
  entries : after.entries ≡ db.entries
  bytes :
      locks ≡ true
      → pos (usage_of after user_id).content_bytes
        ≡ pos (usage_of db user_id).content_bytes
          +ℤ (pos (task_content_bytes current) +ℤ negate (task_content_bytes original))
  count : (usage_of after user_id).tasks ≡ (usage_of db user_id).tasks
  untouched : locks ≡ false → after.usage ≡ db.usage
  others : (other : String) → user_id ≢ other → usage_of after other ≡ usage_of db other

module _ (db : Database) (user_id id : String) (locks : Bool) (quota : Option StorageQuota)
    (locked : Database) (locking : lock_quota_if locks db user_id ≡ ok (quota, locked))
    (original : Task) (move : Move) (current : Task) (now : ℕ) (t : Task) (after : Database) where
  delta : ℤ
  delta = pos (task_content_bytes current) +ℤ negate (task_content_bytes original)

  save-tallied :
      (counted_db : Database)
      → counted quota locked delta ≡ ok counted_db
      → write_task counted_db user_id id move current now ≡ ok (t, after)
      → Saved db user_id id locks original move current now t after
  unfolding delta
  save-tallied counted_db e h =
      let tally = (tallied db user_id locks delta quota locked counted_db locking e).1 in
      let w = write_task-Written counted_db user_id id move current now t after h in
      record {
        row = w.row;
        found = ap (λ rows. find (named user_id id) rows) (sym tally.rows.tasks) ∙ w.found;
        answer = w.answer;
        tasks =
            ap (λ d. d.tasks) w.rows
            ∙ ap
                (λ rows.
                  rearranged move now
                    (update_where (named user_id id) (rewritten current now) rows))
                tally.rows.tasks;
        entries = ap (λ d. d.entries) w.rows ∙ tally.rows.entries;
        bytes = λ l. ap (λ d. pos (usage_of d user_id).content_bytes) w.rows ∙ tally.bytes l;
        count = ap (λ d. (usage_of d user_id).tasks) w.rows ∙ tally.count;
        untouched = λ l. ap (λ d. d.usage) w.rows ∙ tally.untouched l;
        others = λ o ne. ap (λ d. usage_of d o) w.rows ∙ tally.others o ne;
      }

  save_task-Saved :
      save_task quota locked user_id id original move current now ≡ ok (t, after)
      → Saved db user_id id locks original move current now t after
  unfolding save_task delta
  save_task-Saved h =
      let (counted_db, e1, h1) = >>=-eq-ok (counted quota locked delta) _ h in
      let (unit, e2, h2) = >>=-eq-ok (capacity_checked counted_db user_id original current) _ h1 in
      save-tallied counted_db e1 h2

module _ (user_id agent_id id : String) where
  only_row :
      (rows : List Task) (row original : Task)
      → IsKeyed (λ x. x.id) rows
      → find (named user_id id) rows ≡ some row
      → find (addressed user_id agent_id id) rows ≡ some original
      → row ≡ original
  only_row rows row original keyed row_hit hit =
      let test = find-test (named user_id id) rows row row_hit in
      All-find (λ x. (x.id == id) ≡ true → x ≡ original) (named user_id id) rows row
        (IsKeyed-find (λ x. x.id) id (addressed user_id agent_id id) rows original (keyed id)
          (λ x p. ground arith) hit)
        row_hit (ground (arith, test))

pub update_task-Updated :
    (db : Database) (user_id agent_id id : String) (input : UpdateTaskInput) (allow : Bool)
    (now : ℕ) (t : Task) (after : Database)
    → IsKeyed (λ x. x.id) db.tasks
    → update_task db user_id agent_id id input allow now ≡ ok (t, after)
    → Updated db user_id agent_id id input allow now t after
unfolding update_task
update_task-Updated db user_id agent_id id input allow now t after keyed h =
    let locks = given input.title || given input.description || given input.bucket_id in
    let ((quota, locked), e1, h1) = >>=-eq-ok (lock_quota_if locks db user_id) _ h in
    let (original, e2, h2) = >>=-eq-ok (locked_task_for_agent locked user_id agent_id id) _ h1 in
    let (unit, e3, h3) =
      >>=-eq-ok (if agent_id == "" then ok tt else managed_run_fence original input) _ h2 in
    let ((move, current), e4, h4) = >>=-eq-ok (revised locked user_id original input allow) _ h3 in
    let rows = lock_quota_if-rows db user_id locks quota locked e1 in
    let saved =
      save_task-Saved db user_id id locks quota locked e1 original move current now t after h4 in
    let hit : find (addressed user_id agent_id id) db.tasks ≡ some original =
      ap (λ rows. find (addressed user_id agent_id id) rows) (sym rows.tasks)
      ∙ locked_task_for_agent-found locked user_id agent_id id original e2 in
    let same : saved.row ≡ original =
      only_row user_id agent_id id db.tasks saved.row original keyed saved.found hit in
    record {
      original = original;
      found = hit;
      fenced = fence-passed agent_id (managed_run_fence original input) unit e3;
      locked = locked;
      locked_rows = rows;
      move = move;
      current = current;
      revision = e4;
      answer = saved.answer ∙ ap (rewritten current now) same;
      tasks = saved.tasks;
      entries = saved.entries;
      bytes = saved.bytes;
      count = saved.count;
      untouched = saved.untouched;
      others = saved.others;
    }
