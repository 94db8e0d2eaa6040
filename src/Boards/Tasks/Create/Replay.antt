-- ===== src/Boards/Tasks/Create/Replay.antt =====
-- A repeated CreateTask of server/internal/boards/store.go.
use slate_do.Prelude.{
  ℕ, String, ◌≡◌, refl, true, false, not, Option, none, some, [], ◌∷◌, ◌++◌, ◌==◌, string_eq, find,
  count_where, if◌then◌else◌, ok, err, or_fail, ◌>>=◌, arith, text_refl, >>=-eq-ok, ok-injective,
  Option-cases, inl, inr, ◌∙◌, ap, subst,
}
use slate_do.Prelude.Keyed.{find-append_none, find-none-of_count}
use slate_do.Boards.Types.{Task, idempotency_key, idempotency_gone}
use slate_do.Boards.Validation.{clean}
use slate_do.Boards.Database.{Database, IdempotencyKey}
use slate_do.Boards.Tasks.Create.{
  Encodings, CreateTaskInput, Prepared, prepare_task_create, keyed_by, key_matches, replayed_task,
  key_row, add_task, create_prepared, create_task,
}
use slate_do.Boards.Tasks.Create.Inserted.{Inserted, add_task-Inserted}

-- The stored key of a request is for the request.
own-matches :
    (e : Encodings) (db : Database) (user_id : String) (p : Prepared) (task_id : String)
    → (e.data_hash p.request_data == "") ≡ false
    → key_matches e db p (key_row e user_id p task_id) ≡ true
unfolding key_matches
own-matches e db user_id p task_id hashed =
    rw (text_refl p.fingerprint, text_refl (e.data_hash p.request_data), hashed) (ground arith)

-- An answer `none` means that no key is stored.
no_key :
    (e : Encodings) (db : Database) (user_id : String) (p : Prepared)
    → (p.key == "") ≡ false
    → replayed_task e db user_id p ≡ ok none
    → find (keyed_by user_id p.key) db.keys ≡ none
unfolding replayed_task
no_key e db user_id p key h = elim (Option-cases (find (keyed_by user_id p.key) db.keys)) [
  | inl n ↦ n
  | inr (k, found) ↦ absurd (contra k (rw (key, found) at h))
]
  where
    contra :
        (k : IdempotencyKey)
        → (if not (key_matches e db p k)
            then err idempotency_key
            else if k.task_id == ""
            then err idempotency_gone
            else or_fail (find (λ t. t.id == k.task_id) db.tasks) idempotency_gone >>= λ t.
                ok (some t))
          ≡ ok none
        → ⊥
    contra k h = ground arith

-- A stored key of the request, whose task is there, answers with the task.
answered :
    (e : Encodings) (db : Database) (user_id : String) (p : Prepared) (t : Task)
    → (p.key == "") ≡ false
    → (e.data_hash p.request_data == "") ≡ false
    → (t.id == "") ≡ false
    → find (keyed_by user_id p.key) db.keys ≡ some (key_row e user_id p t.id)
    → find (λ x. x.id == t.id) db.tasks ≡ some t
    → replayed_task e db user_id p ≡ ok (some t)
unfolding replayed_task
answered e db user_id p t key hashed drawn stored there =
    rw (key, stored, own-matches e db user_id p t.id hashed, drawn, there) refl

prepared-key :
    (e : Encodings) (input : CreateTaskInput) (target : String) (p : Prepared)
    → prepare_task_create e input target ≡ ok p
    → p.key ≡ clean input.idempotency_key
unfolding prepare_task_create
prepared-key e input target p h = ground arith

create_prepared-replayed :
    (e : Encodings) (db : Database) (user_id bucket_id : String) (p : Prepared) (now now' : ℕ)
    (id id' : String) (t : Task) (after : Database)
    → ((s : String) → (e.data_hash s == "") ≡ false)
    → count_where (λ x. x.id == id) db.tasks ≡ 0
    → (id == "") ≡ false
    → (p.key == "") ≡ false
    → create_prepared e db user_id bucket_id p now id ≡ ok (t, after)
    → create_prepared e after user_id bucket_id p now' id' ≡ ok (t, after)
unfolding create_prepared
create_prepared-replayed e db user_id bucket_id p now now' id id' t after hashed fresh drawn key h =
    let (existing, e1, h1) = >>=-eq-ok (replayed_task e db user_id p) _ h in
    by_replay existing e1 h1
  where
    from_answer :
        replayed_task e after user_id p ≡ ok (some t)
        → create_prepared e after user_id bucket_id p now' id' ≡ ok (t, after)
    from_answer a = rw (create_prepared, a) refl

    by_replay :
        (existing : Option Task)
        → replayed_task e db user_id p ≡ ok existing
        → (elim existing [
          | some task ↦ ok (task, db)
          | none ↦ add_task e db user_id bucket_id p now id
        ])
          ≡ ok (t, after)
        → create_prepared e after user_id bucket_id p now' id' ≡ ok (t, after)
    by_replay (some old) e1 h =
        let same : old ≡ t = ap (λ r. r.0) (ok-injective h) in
        let kept : db ≡ after = ap (λ r. r.1) (ok-injective h) in
        from_answer (
          subst (λ d. replayed_task e d user_id p ≡ ok (some t)) kept
            (subst (λ x. replayed_task e db user_id p ≡ ok (some x)) same e1))
    by_replay none e1 h =
        let i : Inserted e db user_id p id t after =
          add_task-Inserted e db user_id bucket_id p now id t after h in
        let stored : after.keys ≡ db.keys ++ key_row e user_id p t.id ∷ [] = i.keys ∙ rw key refl in
        from_answer (
          answered e after user_id p t key (hashed p.request_data)
            (ap (λ x. x == "") i.id_drawn ∙ drawn)
            (ap (find (keyed_by user_id p.key)) stored
              ∙ find-append_none (keyed_by user_id p.key) db.keys (key_row e user_id p t.id)
                  (no_key e db user_id p key e1) (rw (text_refl user_id, text_refl p.key) refl))
            (ap (find (λ x. x.id == t.id)) i.tasks
              ∙ find-append_none (λ x. x.id == t.id) db.tasks t
                  (find-none-of_count (λ x. x.id == t.id) db.tasks
                    (ap (λ k. count_where (λ x. x.id == k) db.tasks) i.id_drawn ∙ fresh))
                  (text_refl t.id)))

-- A creation with a key that was answered, under a drawn ID that is new and not empty and with a
-- hash that is never empty, is answered again with the same task, whatever the time and the ID
-- that the second call would draw, and the second call changes nothing.
pub create_task-replayed :
    (e : Encodings) (db : Database) (user_id bucket_id : String) (input : CreateTaskInput)
    (now now' : ℕ) (id id' : String) (t : Task) (after : Database)
    → ((s : String) → (e.data_hash s == "") ≡ false)
    → count_where (λ x. x.id == id) db.tasks ≡ 0
    → (id == "") ≡ false
    → (clean input.idempotency_key == "") ≡ false
    → create_task e db user_id bucket_id input now id ≡ ok (t, after)
    → create_task e after user_id bucket_id input now' id' ≡ ok (t, after)
unfolding create_task
create_task-replayed e db user_id bucket_id input now now' id id' t after hashed fresh drawn key h =
    let (p, e1, h1) = >>=-eq-ok (prepare_task_create e input bucket_id) _ h in
    let key_p = ap (λ k. k == "") (prepared-key e input bucket_id p e1) ∙ key in
    rw (create_task, e1)
      (create_prepared-replayed e db user_id bucket_id p now now' id id' t after hashed fresh drawn
        key_p h1)
