-- ===== src/Boards/Tasks/Entries/Stored.antt =====
-- What CreateTaskEntry of server/internal/boards/store.go finds stored when its request is
-- repeated.
use slate_do.Prelude.{
  ℕ, ◌≤◌, String, ◌≡◌, refl, true, false, not, ◌||◌, none, some, List, ◌==◌, string_eq, nat_eq,
  find, find-test, update_where, count_where, if◌then◌else◌, ok, err, arith, text_iff, Bool-cases,
  Option-cases, inl, inr, sym, ◌∙◌, ap, All-find,
}
use slate_do.Prelude.Keyed.{IsKeyed, IsKeyed-find, find-update_keyed, find-of_count}
use slate_do.Boards.Types.{
  Task, Entry, working, needs_review, status_eq, status_eqb_iff, CreateTaskEntryInput,
  idempotency_key,
}
use slate_do.Boards.Database.{Database}
use slate_do.Boards.Validation.{clean}
use slate_do.Boards.Tasks.Update.Written.{addressed}
use slate_do.Boards.Tasks.Entries.{
  Request, prepare_entry, replay_task, same_key, replayed, replay, run_fence, entry_row, reviewable,
  in_review, send_to_review, entry_answer,
}

-- The one row with the task's ID is the one that an output moves to review.
reviewable-found :
    (user_id agent_id : String) (r : Request) (tasks : List Task) (t : Task)
    → IsKeyed (λ x. x.id) tasks
    → find (replay_task user_id agent_id r) tasks ≡ some t
    → 1 ≤ count_where (reviewable r) tasks
    → find (reviewable r) tasks ≡ some t
reviewable-found user_id agent_id r tasks t keyed hit one =
    let (y, e) = find-of_count (reviewable r) tasks one in
    let test = find-test (reviewable r) tasks y e in
    let same : y ≡ t =
      All-find (λ x. (x.id == r.task_id) ≡ true → x ≡ t) (reviewable r) tasks y
        (IsKeyed-find (λ x. x.id) r.task_id (replay_task user_id agent_id r) tasks t
          (keyed r.task_id) (λ x p. ground arith) hit)
        e (ground (arith, test)) in
    e ∙ ap (λ x. some x) same

-- After the statement on the task, the replay query still finds it, and how.
pub record Sent (user_id agent_id : String) (r : Request) (t : Task) (tasks : List Task)
    : Type 0 where
  pub row : Task
  pub found : find (replay_task user_id agent_id r) tasks ≡ some row
  pub output :
      (r.kind == "output") ≡ true → (row.status ≡ needs_review) × (row.review_reason ≡ "output")
  pub comment : (r.kind == "output") ≡ false → row ≡ t

pub sent :
    (user_id agent_id : String) (r : Request) (now : ℕ) (tasks tasks' : List Task) (t : Task)
    → IsKeyed (λ x. x.id) tasks
    → find (replay_task user_id agent_id r) tasks ≡ some t
    → send_to_review r now tasks ≡ ok tasks'
    → Sent user_id agent_id r t tasks'
unfolding send_to_review
sent user_id agent_id r now tasks tasks' t keyed hit h = elim (Bool-cases (r.kind == "output")) [
  | inr e ↦
      let same : tasks' ≡ tasks = ground (arith, h, e) in
      record { row = t; found = rw same hit; output = λ o. cc (e, o); comment = λ _. refl }
  | inl e ↦
      let same : tasks' ≡ update_where (reviewable r) (in_review now) tasks =
        ground (arith, h, e) in
      let one : 1 ≤ count_where (reviewable r) tasks = ground (arith, h, e) in
      record {
        row = in_review now t;
        found = rw same (
            find-update_keyed (λ x. x.id) r.task_id (reviewable r) (replay_task user_id agent_id r)
              (in_review now) tasks t (keyed r.task_id) (λ x p. ground arith) (λ x p. ground arith)
              (reviewable-found user_id agent_id r tasks t keyed hit one)
              (find-test (replay_task user_id agent_id r) tasks t hit));
        output = λ _. (refl, refl);
        comment = λ o. cc (e, o);
      }
]

-- The fence lets an agent write only for the run that the replay query asks for.
pub fence-replay_task :
    (user_id agent_id : String) (r : Request) (t : Task)
    → addressed user_id agent_id r.task_id t ≡ true
    → run_fence agent_id r t ≡ ok tt
    → replay_task user_id agent_id r t ≡ true
unfolding run_fence
fence-replay_task user_id agent_id r t h f = ground (
  arith,
  h,
  f,
  text_iff r.run_id t.execution_run_id,
  text_iff t.execution_run_id r.run_id,
  text_iff t.execution_run_id "",
  text_iff r.run_id "",
)

fence-working :
    (agent_id : String) (r : Request) (t : Task)
    → run_fence agent_id r t ≡ ok tt
    → (agent_id == "") ≡ false
    → (r.run_id == "") ≡ false
    → t.status ≡ working
unfolding run_fence
fence-working agent_id r t f a b =
    ground (arith, f, a, b, status_eqb_iff t.status working, text_iff r.run_id "")

-- An entry that is stored for a request is what the replay query answers with.
pub replay-stored :
    (db : Database) (user_id agent_id : String) (r : Request) (t : Task) (e : Entry)
    → (r.key == "") ≡ false
    → find (replay_task user_id agent_id r) db.tasks ≡ some t
    → find (same_key r) db.entries ≡ some e
    → replay db user_id agent_id r ≡ (
        if not (e.request_hash == r.request_hash) || not (e.run_id == r.run_id)
        then err idempotency_key
        else ok (some (replayed e t)))
unfolding replay
replay-stored db user_id agent_id r t e key task entry = rw (key, task, entry) refl

pub replay-none :
    (db : Database) (user_id agent_id : String) (r : Request) (t : Task)
    → (r.key == "") ≡ false
    → find (replay_task user_id agent_id r) db.tasks ≡ some t
    → replay db user_id agent_id r ≡ ok none
    → find (same_key r) db.entries ≡ none
unfolding replay
replay-none db user_id agent_id r t key task h =
    elim (Option-cases (find (same_key r) db.entries)) [
      | inl e ↦ e
      | inr (e, found) ↦
          absurd (contra e (sym (replay-stored db user_id agent_id r t e key task found) ∙ h))
    ]
  where
    contra :
        (e : Entry)
        → (if not (e.request_hash == r.request_hash) || not (e.run_id == r.run_id)
            then err idempotency_key
            else ok (some (replayed e t)))
          ≡ ok none
        → ⊥
    contra e h = ground arith

pub answers-agree :
    (agent_id : String) (r : Request) (id : String) (now : ℕ) (name : String) (t : Task)
    (tasks : List Task) (user_id : String)
    → run_fence agent_id r t ≡ ok tt
    → (agent_id == "") ≡ false
    → (s : Sent user_id agent_id r t tasks)
    → (replayed (entry_row id now name r) s.row).task_status
      ≡ (entry_answer (entry_row id now name r) t).task_status
answers-agree agent_id r id now name t tasks user_id fence agent s =
    elim (Bool-cases (r.run_id == "")) [
      | inl n ↦ elim (Bool-cases (r.kind == "output")) [
        | inl o ↦ ground (arith, n, o, s.output o)
        | inr o ↦ ground (arith, n, o, ap (λ (x : Task). x.status) (s.comment o))
      ]
      | inr n ↦ ground (arith, n, fence-working agent_id r t fence agent n)
    ]

pub reasons-agree :
    (agent_id : String) (r : Request) (id : String) (now : ℕ) (name : String) (t : Task)
    (tasks : List Task) (user_id : String)
    → run_fence agent_id r t ≡ ok tt
    → (agent_id == "") ≡ false
    → ((t.status == needs_review) ≡ false → t.review_reason ≡ "")
    → (s : Sent user_id agent_id r t tasks)
    → (replayed (entry_row id now name r) s.row).task_review_reason
      ≡ (entry_answer (entry_row id now name r) t).task_review_reason
reasons-agree agent_id r id now name t tasks user_id fence agent plain s =
    elim (Bool-cases (r.run_id == "")) [
      | inl n ↦ elim (Bool-cases (r.kind == "output")) [
        | inl o ↦ ground (arith, n, o, s.output o)
        | inr o ↦ ground (arith, n, o, ap (λ (x : Task). x.review_reason) (s.comment o))
      ]
      | inr n ↦
          let at_work : t.status ≡ working = fence-working agent_id r t fence agent n in
          let no_reason : t.review_reason ≡ "" = plain (ap (λ x. x == needs_review) at_work) in
          ground (arith, n, no_reason)
    ]

pub prepared-key :
    (fingerprint : String → String → String) (user_id agent_id task_id : String)
    (input : CreateTaskEntryInput) (r : Request)
    → prepare_entry fingerprint user_id agent_id task_id input ≡ ok r
    → r.key ≡ clean input.idempotency_key
unfolding prepare_entry
prepared-key fingerprint user_id agent_id task_id input r h = ground arith
