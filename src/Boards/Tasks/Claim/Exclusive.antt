-- ===== src/Boards/Tasks/Claim/Exclusive.antt =====
-- Claims of one task exclude each other.
use slate_do.Prelude.{
  ℕ, ◌≤◌, String, ◌≡◌, refl, Bool, true, false, none, some, List, [], ◌∷◌, ◌==◌, string_eq, find,
  find-test, update_where, count_where, ok, err, or_fail, arith, text_iff, >>=-eq-ok, inl, inr,
  Result-cases,
}
use slate_do.Prelude.{not, keep, ◌&&◌}
use slate_do.Prelude.Counting.{All-imp, count-of_find-some, count-implies-le}
use slate_do.Prelude.Keyed.{
  IsKeyed, All-of_keyed, count-update-zero-All, find-none-of_count, find-update_keyed, find-keyed,
  keep-update_out,
}
use slate_do.Boards.Types.{Task, queued, working, status_eq, status_eqb_iff, task_unavailable}
use slate_do.Boards.Database.{Database}
use slate_do.Boards.Tasks.Claim.{claimable, claimed_by, claim_task}

-- A claimer: its agent ID, its run ID and its time.
pub record Claimer : Type 0 where
  pub agent_id : String
  pub run_id : String
  pub now : ℕ

-- No row of the account with the ID waits for a claim.
abbrev waits : String → String → Task → Bool
waits user_id id t = claimable user_id "" id t

claimable-waits :
    (user_id agent_id id : String) (t : Task)
    → claimable user_id agent_id id t ≡ true
    → waits user_id id t ≡ true
claimable-waits user_id agent_id id t h = ground arith

-- The claims of a task, one after the other, with the answers that the claimers get.
unfoldable pub claims : Database → String → String → List Claimer → List Bool × Database
claims db user_id id [] = ([], db)
claims db user_id id (c ∷ cs) = elim (claim_task db user_id c.agent_id id c.run_id c.now) [
  | ok (t, after) ↦ (true ∷ (claims after user_id id cs).0, (claims after user_id id cs).1)
  | err e ↦ (false ∷ (claims db user_id id cs).0, (claims db user_id id cs).1)
]

abbrev pub wins : List Bool → ℕ
wins answers = count_where (λ b. b) answers

none-waits :
    (db : Database) (user_id agent_id id run_id : String) (now : ℕ) (t : Task) (after : Database)
    → IsKeyed (λ x. x.id) db.tasks
    → claim_task db user_id agent_id id run_id now ≡ ok (t, after)
    → count_where (waits user_id id) after.tasks ≡ 0
unfolding claim_task
none-waits db user_id agent_id id run_id now t after keyed h =
    let (found, e, h1) =
      >>=-eq-ok (or_fail (find (claimable user_id agent_id id) db.tasks) task_unavailable) _ h in
    let hit : find (claimable user_id agent_id id) db.tasks ≡ some found = ground arith in
    let rows : after.tasks
        ≡ update_where (claimable user_id agent_id id) (claimed_by run_id now) db.tasks =
      ground arith in
    rw rows (
      count-update-zero-All (waits user_id id) (claimable user_id agent_id id)
        (claimed_by run_id now) db.tasks (λ x p. ground arith)
        (All-imp _ _ db.tasks (λ x m no. ground (arith, m))
          (All-of_keyed (λ x. x.id) id (claimable user_id agent_id id) (waits user_id id) db.tasks
            keyed (claimable-waits user_id agent_id id) (λ x p. ground arith)
            (count-of_find-some (claimable user_id agent_id id) db.tasks found hit))))

loses :
    (db : Database) (user_id agent_id id run_id : String) (now : ℕ)
    → count_where (waits user_id id) db.tasks ≡ 0
    → claim_task db user_id agent_id id run_id now ≡ err task_unavailable
unfolding claim_task
loses db user_id agent_id id run_id now h =
    let absent_row : find (claimable user_id agent_id id) db.tasks ≡ none =
      find-none-of_count (claimable user_id agent_id id) db.tasks (
        omega (
          arith,
          h,
          count-implies-le (claimable user_id agent_id id) (waits user_id id) db.tasks
              (claimable-waits user_id agent_id id),
        )) in
    rw absent_row refl

all-lose :
    (db : Database) (user_id id : String) (cs : List Claimer)
    → count_where (waits user_id id) db.tasks ≡ 0
    → wins (claims db user_id id cs).0 ≡ 0
unfolding claims
all-lose db user_id id [] h = refl
all-lose db user_id id (c ∷ cs) h =
    rw (claims, loses db user_id c.agent_id id c.run_id c.now h)
      (omega (arith, all-lose db user_id id cs h))

-- Of any sequence of claims of one task, by whatever agents and runs, at most one is answered with
-- the task, when task IDs are distinct.
pub claims-exclusive :
    (db : Database) (user_id id : String) (cs : List Claimer)
    → IsKeyed (λ t. t.id) db.tasks
    → wins (claims db user_id id cs).0 ≤ 1
unfolding claims
claims-exclusive db user_id id [] keyed = omega arith
claims-exclusive db user_id id (c ∷ cs) keyed =
    elim (Result-cases (claim_task db user_id c.agent_id id c.run_id c.now)) [
      | inl ((t, after), e) ↦
          rw (claims, e)
            (omega (
              arith,
              all-lose after user_id id cs
                  (none-waits db user_id c.agent_id id c.run_id c.now t after keyed e),
            ))
      | inr (x, e) ↦ rw (claims, e) (omega (arith, claims-exclusive db user_id id cs keyed))
    ]

-- What a claim that succeeds has done: the row was queued, the agent's own where an agent claims; it is now the run's, and no other task has changed.
pub record Claimed (db : Database) (user_id agent_id id run_id : String) (t : Task)
    (after : Database) : Type 0 where
  pub was : Task
  pub found : find (λ x. x.owner_user_id == user_id && x.id == id) db.tasks ≡ some was
  pub waited : was.status ≡ queued
  pub its_agent : (agent_id == "") ≡ false → was.assignee_agent_id ≡ agent_id
  pub working_now : t.status ≡ working
  pub run : t.execution_run_id ≡ run_id
  pub same_task :
      (t.id ≡ id)
      × (t.owner_user_id ≡ user_id)
      × (t.bucket_id ≡ was.bucket_id)
      × (t.parent_task_id ≡ was.parent_task_id)
      × (t.assignee_agent_id ≡ was.assignee_agent_id)
      × (t.title ≡ was.title)
      × (t.description ≡ was.description)
  pub written : find (λ x. x.owner_user_id == user_id && x.id == id) after.tasks ≡ some t
  pub others : keep (λ x. not (x.id == id)) after.tasks ≡ keep (λ x. not (x.id == id)) db.tasks

-- When task IDs are distinct, a claim that is answered took the account's row with the ID, which was
-- queued, and was assigned to the agent where an agent claims; the answer is that row at
-- work for the run, in its list and with its agent, parent and texts; it is what the table now holds
-- under the ID, and no row with another ID has changed.
pub claim_task-Claimed :
    (db : Database) (user_id agent_id id run_id : String) (now : ℕ) (t : Task) (after : Database)
    → IsKeyed (λ x. x.id) db.tasks
    → claim_task db user_id agent_id id run_id now ≡ ok (t, after)
    → Claimed db user_id agent_id id run_id t after
unfolding claim_task
claim_task-Claimed db user_id agent_id id run_id now t after keyed h =
    let (was, e, h1) =
      >>=-eq-ok (or_fail (find (claimable user_id agent_id id) db.tasks) task_unavailable) _ h in
    let hit : find (claimable user_id agent_id id) db.tasks ≡ some was = ground arith in
    let rows : after.tasks
        ≡ update_where (claimable user_id agent_id id) (claimed_by run_id now) db.tasks =
      ground arith in
    let answer : t ≡ claimed_by run_id now was = ground arith in
    let test = find-test (claimable user_id agent_id id) db.tasks was hit in
    record {
      was = was;
      found =
          find-keyed (λ x. x.id) id (claimable user_id agent_id id)
            (λ x. x.owner_user_id == user_id && x.id == id) db.tasks was (keyed id)
            (λ x p. ground arith) (λ x p. ground arith) hit (ground (arith, test));
      waited = ground (arith, test, status_eqb_iff was.status queued);
      its_agent = λ agent. ground (arith, test, agent, text_iff was.assignee_agent_id agent_id);
      working_now = rw answer refl;
      run = rw answer refl;
      same_task = rw answer (
        ground (arith, test, text_iff was.id id),
        ground (arith, test, text_iff was.owner_user_id user_id),
        refl,
        refl,
        refl,
        refl,
        refl,
      );
      written =
          rw (rows, answer)
            (find-update_keyed (λ x. x.id) id (claimable user_id agent_id id)
              (λ x. x.owner_user_id == user_id && x.id == id) (claimed_by run_id now) db.tasks was
              (keyed id) (λ x p. ground arith) (λ x p. ground arith) hit (ground arith));
      others = rw rows (
          keep-update_out (λ x. not (x.id == id)) (claimable user_id agent_id id)
            (claimed_by run_id now) db.tasks (λ x p. ground arith) (λ x p. ground arith));
    }
