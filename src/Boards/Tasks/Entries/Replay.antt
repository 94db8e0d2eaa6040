-- ===== src/Boards/Tasks/Entries/Replay.antt =====
-- A repeated CreateTaskEntry of server/internal/boards/store.go.
use slate_do.Prelude.{
  ℕ, String, ◌≡◌, refl, false, not, ◌||◌, Option, none, some, ◌==◌, string_eq, nat_eq, find,
  find-test, if◌then◌else◌, ok, err, arith, text_refl, >>=-eq-ok, ok-injective, sym, ◌∙◌, ap, subst,
  All, All-find,
}
use slate_do.Prelude.Keyed.{IsKeyed, find-append_none, find-keyed}
use slate_do.Boards.Types.{
  Entry, TaskEntry, needs_review, status_eq, CreateTaskEntryInput, idempotency_key,
}
use slate_do.Boards.Database.{Database}
use slate_do.Boards.Validation.{clean}
use slate_do.Boards.Tasks.Update.Written.{addressed}
use slate_do.Boards.Tasks.Entries.{
  Request, prepare_entry, replay_task, same_key, replayed, replay, entry_row, entry_answer,
  add_entry, create_task_entry,
}
use slate_do.Boards.Tasks.Entries.Added.{Added, add_entry-Added}
use slate_do.Boards.Tasks.Entries.Stored.{
  Sent, sent, fence-replay_task, replay-stored, replay-none, answers-agree, reasons-agree,
  prepared-key,
}

-- The second answer to a request: the stored entry, and for an agent the same status and the same
-- review reason.
pub record Again (agent_id : String) (answer again : TaskEntry) : Type 0 where
  pub entry : again.entry ≡ answer.entry
  pub status : (agent_id == "") ≡ false → again.task_status ≡ answer.task_status
  pub reason : (agent_id == "") ≡ false → again.task_review_reason ≡ answer.task_review_reason

module _ (db : Database) (user_id agent_id : String) (r : Request) (now : ℕ) (id : String)
    (answer : TaskEntry) (after : Database) (keyed : IsKeyed (λ x. x.id) db.tasks)
    (reasons : All (λ x. (x.status == needs_review) ≡ false → x.review_reason ≡ "") db.tasks)
    (key : (r.key == "") ≡ false) (first : replay db user_id agent_id r ≡ ok none)
    (a : Added db user_id agent_id r now id answer after) where
  row : Entry
  row = entry_row id now a.author_name r

  first-found : find (replay_task user_id agent_id r) db.tasks ≡ some a.task
  first-found =
      find-keyed (λ x. x.id) r.task_id (addressed user_id agent_id r.task_id)
        (replay_task user_id agent_id r) db.tasks a.task (keyed r.task_id) (λ x p. ground arith)
        (λ x p. ground arith) a.found
        (fence-replay_task user_id agent_id r a.task
          (find-test (addressed user_id agent_id r.task_id) db.tasks a.task a.found) a.fenced)

  stored : find (same_key r) after.entries ≡ some row
  unfolding row
  stored =
      ap (find (same_key r)) a.entries
      ∙ find-append_none (same_key r) db.entries row
          (replay-none db user_id agent_id r a.task key first-found first)
          (ground (
            arith,
            text_refl r.task_id,
            text_refl r.author_kind,
            text_refl r.author_id,
            text_refl r.key,
          ))

  second :
      (again : TaskEntry) × (replay after user_id agent_id r ≡ ok (some again))
      × Again agent_id answer again
  unfolding row
  second =
      let s = sent user_id agent_id r now db.tasks after.tasks a.task keyed first-found a.tasks in
      (
        replayed row s.row,
        replay-stored after user_id agent_id r s.row row key s.found stored ∙ answers s,
        record {
          entry = entries_same s ∙ sym (ap (λ (x : TaskEntry). x.entry) a.answered);
          status = λ agent.
              answers-agree agent_id r id now a.author_name a.task after.tasks user_id a.fenced
                agent s
              ∙ sym (ap (λ (x : TaskEntry). x.task_status) a.answered);
          reason = λ agent.
              reasons-agree agent_id r id now a.author_name a.task after.tasks user_id a.fenced
                agent
                (All-find (λ x. (x.status == needs_review) ≡ false → x.review_reason ≡ "")
                  (addressed user_id agent_id r.task_id) db.tasks a.task reasons a.found)
                s
              ∙ sym (ap (λ (x : TaskEntry). x.task_review_reason) a.answered);
        },
      )
    where
      answers :
          (s : Sent user_id agent_id r a.task after.tasks)
          → (if not (row.request_hash == r.request_hash) || not (row.run_id == r.run_id)
              then err idempotency_key
              else ok (some (replayed row s.row)))
            ≡ ok (some (replayed row s.row))
      answers s = rw (text_refl r.request_hash, text_refl r.run_id) refl

      entries_same :
          (s : Sent user_id agent_id r a.task after.tasks)
          → (replayed row s.row).entry ≡ (entry_answer row a.task).entry
      entries_same s = ground arith

-- When task IDs are distinct and only tasks in review have a review reason, a request with a key
-- that was answered is answered again with the same entry, whatever the time and the ID that the
-- second call would draw, and the second call changes nothing; an agent is told the same status and
-- the same review reason of the task again.
pub create_task_entry-replayed :
    (fingerprint : String → String → String) (db : Database)
    (user_id agent_id name task_id : String) (input : CreateTaskEntryInput) (now now' : ℕ)
    (id id' : String) (answer : TaskEntry) (after : Database)
    → IsKeyed (λ x. x.id) db.tasks
    → All (λ x. (x.status == needs_review) ≡ false → x.review_reason ≡ "") db.tasks
    → (clean input.idempotency_key == "") ≡ false
    → create_task_entry fingerprint db user_id agent_id name task_id input now id
      ≡ ok (answer, after)
    → (again : TaskEntry) × (create_task_entry fingerprint after user_id agent_id name task_id input
          now' id'
        ≡ ok (again, after))
      × Again agent_id answer again
unfolding create_task_entry
create_task_entry-replayed fingerprint db user_id agent_id name task_id input now now' id id' answer
      after keyed reasons key h =
    let (r, e1, h1) = >>=-eq-ok (prepare_entry fingerprint user_id agent_id task_id input) _ h in
    let (existing, e2, h2) = >>=-eq-ok (replay db user_id agent_id r) _ h1 in
    let key_r : (r.key == "") ≡ false =
      ap (λ k. k == "") (prepared-key fingerprint user_id agent_id task_id input r e1) ∙ key in
    by_replay r e1 key_r existing e2 h2
  where
    again_from :
        (r : Request) (again : TaskEntry)
        → prepare_entry fingerprint user_id agent_id task_id input ≡ ok r
        → replay after user_id agent_id r ≡ ok (some again)
        → create_task_entry fingerprint after user_id agent_id name task_id input now' id'
          ≡ ok (again, after)
    again_from r again e1 e2 = rw (create_task_entry, e1, e2) refl

    by_replay :
        (r : Request)
        → prepare_entry fingerprint user_id agent_id task_id input ≡ ok r
        → (r.key == "") ≡ false
        → (existing : Option TaskEntry) → replay db user_id agent_id r ≡ ok existing
        → (elim existing [
          | some answer ↦ ok (answer, db)
          | none ↦ add_entry db user_id agent_id name r now id
        ])
          ≡ ok (answer, after)
        → (again : TaskEntry) × (create_task_entry fingerprint after user_id agent_id name task_id
              input now' id'
            ≡ ok (again, after))
          × Again agent_id answer again
    by_replay r e1 key_r (some old) e2 h =
        let same_db : db ≡ after = ap (λ p. p.1) (ok-injective h) in
        let same : old ≡ answer = ap (λ p. p.0) (ok-injective h) in
        (
          old,
          again_from r old e1 (subst (λ d. replay d user_id agent_id r ≡ ok (some old)) same_db e2),
          record {
            entry = ap (λ (x : TaskEntry). x.entry) same;
            status = λ _. ap (λ (x : TaskEntry). x.task_status) same;
            reason = λ _. ap (λ (x : TaskEntry). x.task_review_reason) same;
          },
        )
    by_replay r e1 key_r none e2 h =
        let a : Added db user_id agent_id r now id answer after =
          add_entry-Added db user_id agent_id name r now id answer after h in
        let (again, e, facts) =
          second db user_id agent_id r now id answer after keyed reasons key_r e2 a in
        (again, again_from r again e1 e, facts)
