-- ===== src/Boards/Tasks/Entries/Added.antt =====
-- What CreateTaskEntry of server/internal/boards/store.go has done when it adds an entry.
use slate_do.Prelude.{
  ℕ, String, len, ◌≡◌, ◌≢◌, refl, Bool, true, false, some, [], ◌∷◌, ◌++◌, ◌==◌, string_eq, nat_eq,
  find, count_where, leb, ok, refuse_if, arith, >>=-eq-ok, ok-injective, sym, ◌∙◌, ap,
}
use slate_do.Prelude.Int.{pos, ◌+ℤ◌}
use slate_do.Boards.Types.{Task, TaskEntry, status_eq, invalid_data}
use slate_do.Boards.Database.{Database, locked_task_for_agent}
use slate_do.Boards.Quota.{lock_storage_quota, apply, usage_of}
use slate_do.Boards.Quota.Check.{lock_storage_quota-Locked, lock-apply-Moved}
use slate_do.Boards.Tasks.Update.Written.{addressed, locked_task_for_agent-found}
use slate_do.Boards.Tasks.Entries.{
  Request, run_fence, author_name_of, entry_row, send_to_review, entry_answer, add_entry,
  max_task_entries,
}

pub record Added (db : Database) (user_id agent_id : String) (r : Request) (now : ℕ) (id : String)
    (answer : TaskEntry) (after : Database) : Type 0 where
  pub task : Task
  pub found : find (addressed user_id agent_id r.task_id) db.tasks ≡ some task
  pub fenced : run_fence agent_id r task ≡ ok tt
  pub author_name : String
  pub room : leb max_task_entries (count_where (λ e. e.task_id == r.task_id) db.entries) ≡ false
  pub answered : answer ≡ entry_answer (entry_row id now author_name r) task
  pub entries : after.entries ≡ db.entries ++ entry_row id now author_name r ∷ []
  pub tasks : send_to_review r now db.tasks ≡ ok after.tasks
  pub counts : (usage_of after user_id).tasks ≡ (usage_of db user_id).tasks
  pub bytes :
      pos (usage_of after user_id).content_bytes
      ≡ pos (usage_of db user_id).content_bytes +ℤ pos (len r.body)
  pub others : (other : String) → user_id ≢ other → usage_of after other ≡ usage_of db other

refused-not :
    (b : Bool) (u : Unit {0}) (text : String) → refuse_if b (invalid_data text) ≡ ok u → b ≡ false
refused-not true u text h = cc
refused-not false u text h = refl

pub add_entry-Added :
    (db : Database) (user_id agent_id given_name : String) (r : Request) (now : ℕ) (id : String)
    (answer : TaskEntry) (after : Database)
    → add_entry db user_id agent_id given_name r now id ≡ ok (answer, after)
    → Added db user_id agent_id r now id answer after
unfolding add_entry
add_entry-Added db user_id agent_id given_name r now id answer after h =
    let ((quota, locked), e1, h1) = >>=-eq-ok (lock_storage_quota db user_id) _ h in
    let (task, e2, h2) = >>=-eq-ok (locked_task_for_agent locked user_id agent_id r.task_id) _ h1 in
    let (unit, e3, h3) = >>=-eq-ok (run_fence agent_id r task) _ h2 in
    let (name, e4, h4) = >>=-eq-ok (author_name_of locked user_id agent_id given_name) _ h3 in
    let full = leb max_task_entries (count_where (λ e. e.task_id == r.task_id) locked.entries) in
    let (unit', e5, h5) =
      >>=-eq-ok (refuse_if full (invalid_data "tasks can contain at most 200 conversation entries"))
        _ h4 in
    let (counted, e6, h6) = >>=-eq-ok (apply quota locked (pos 0) (pos (len r.body))) _ h5 in
    let (tasks, e7, h7) = >>=-eq-ok (send_to_review r now counted.tasks) _ h6 in
    let read = lock_storage_quota-Locked db user_id quota locked e1 in
    let moved = lock-apply-Moved db user_id (pos 0) (pos (len r.body)) quota locked counted e1 e6 in
    let same = ok-injective h7 in
    record {
      task = task;
      found =
          ap (find (addressed user_id agent_id r.task_id)) (sym read.rows.tasks)
          ∙ locked_task_for_agent-found locked user_id agent_id r.task_id task e2;
      fenced = e3;
      author_name = name;
      room =
          ap (λ rows. leb max_task_entries (count_where (λ e. e.task_id == r.task_id) rows))
            (sym read.rows.entries)
          ∙ refused-not full unit' _ e5;
      answered = sym (ap (λ p. p.0) same);
      entries =
          sym (ap (λ p. p.1.entries) same)
          ∙ ap (λ rows. rows ++ entry_row id now name r ∷ []) moved.rows.entries;
      tasks = ap (send_to_review r now) (sym moved.rows.tasks) ∙ e7 ∙ ap (λ p. ok p.1.tasks) same;
      counts = ground (arith, sym (ap (λ p. (usage_of p.1 user_id).tasks) same), moved.tasks);
      bytes = sym (ap (λ p. pos (usage_of p.1 user_id).content_bytes) same) ∙ moved.bytes;
      others = λ o ne. sym (ap (λ p. usage_of p.1 o) same) ∙ moved.others o ne;
    }
