-- ===== src/Boards/Tasks/Accounting/Rearranged.antt =====
-- Operations of server/internal/boards/store.go that only move rows and change their workflow: what
-- they keep of the counters and of the IDs.
use slate_do.Prelude.{
  ℕ, String, ◌≡◌, ◌≤◌, refl, Bool, List, ◌==◌, string_eq, count_where, sum_where,
  count_where-eq-sum_where, ok, sym, ◌∙◌, ap, subst,
}
use slate_do.Prelude.Int.{ℤ}
use slate_do.Prelude.Keyed.{IsKeyed}
use slate_do.Boards.Types.{Task, Status}
use slate_do.Boards.Database.{Database, stored_bytes}
use slate_do.Boards.Quota.{StorageQuota, lock_storage_quota}
use slate_do.Boards.Quota.Check.{lock_storage_quota-Locked}
use slate_do.Boards.Tasks.{owned}
use slate_do.Boards.Tasks.Accounting.{bytes_of, Accounted}
use slate_do.Boards.Tasks.Move.{restated}

-- A measure of the rows that reads neither their place nor their workflow.
abbrev pub IsBlind : (Task → ℕ) → (Task → Bool) → Type 0
IsBlind w q =
    ((t : Task) (z : ℤ)
      → (q (record t { sort_order = z }) ≡ q t) × (w (record t { sort_order = z }) ≡ w t))
    × ((t : Task) (b : String) (now : ℕ)
        → (q (record t { bucket_id = b; updated_at = now }) ≡ q t)
          × (w (record t { bucket_id = b; updated_at = now }) ≡ w t))
    × ((t : Task) (s : Status) (now : ℕ)
        → (q (restated s now t) ≡ q t) × (w (restated s now t) ≡ w t))

-- The database after the quota's lock, with the rows of its tasks rearranged.
pub record Rearranged (db : Database) (user_id : String) (after : Database) : Type 0 where
  pub quota : StorageQuota
  pub locked : Database
  pub locking : lock_storage_quota db user_id ≡ ok (quota, locked)
  pub tasks : List Task
  pub result : record locked { tasks = tasks } ≡ after
  pub sums :
      (w : Task → ℕ) (q : Task → Bool)
      → IsBlind w q
      → sum_where q w tasks ≡ sum_where q w locked.tasks

module _ (db : Database) (user_id : String) (after : Database)
    (r : Rearranged db user_id after) where
  rearranged-count :
      (q : Task → Bool) → IsBlind (λ _. 1) q → count_where q r.tasks ≡ count_where q r.locked.tasks
  rearranged-count q blind =
      count_where-eq-sum_where q _
      ∙ r.sums (λ _. 1) q blind
      ∙ sym (count_where-eq-sum_where q r.locked.tasks)

  pub Rearranged-Accounted : (u : String) → Accounted db u → Accounted after u
  Rearranged-Accounted u acc =
      let l = lock_storage_quota-Locked db user_id r.quota r.locked r.locking in
      let kept =
        r.sums (stored_bytes r.locked.entries) (owned u)
          (λ t z. (refl, refl), λ t b n. (refl, refl), λ t s n. (refl, refl)) in
      subst (λ d. Accounted d u) r.result
        (record {
          count =
              ap (λ x. x.tasks) (l.usage u)
              ∙ acc.count
              ∙ ap (count_where (owned u)) (sym l.rows.tasks)
              ∙ sym (
                  rearranged-count (owned u)
                    (λ t z. (refl, refl), λ t b n. (refl, refl), λ t s n. (refl, refl)));
          bytes =
              ap (λ x. x.content_bytes) (l.usage u)
              ∙ acc.bytes
              ∙ ap (λ ts. bytes_of db.entries ts u) (sym l.rows.tasks)
              ∙ ap (λ es. bytes_of es r.locked.tasks u) (sym l.rows.entries)
              ∙ sym kept;
        })

  pub Rearranged-IsKeyed : IsKeyed (λ t. t.id) db.tasks → IsKeyed (λ t. t.id) after.tasks
  Rearranged-IsKeyed keyed k =
      let l = lock_storage_quota-Locked db user_id r.quota r.locked r.locking in
      subst (λ n. n ≤ 1)
        (sym (
          ap (λ (d : Database). count_where (λ t. t.id == k) d.tasks) (sym r.result)
          ∙ rearranged-count (λ t. t.id == k)
              (λ t z. (refl, refl), λ t b n. (refl, refl), λ t s n. (refl, refl))
          ∙ ap (count_where (λ t. t.id == k)) l.rows.tasks))
        (keyed k)
