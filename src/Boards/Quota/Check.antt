-- ===== src/Boards/Quota/Check.antt =====
-- What the quota check accepts, what it refuses, and what it leaves in the counters.
use slate_do.Prelude.{
  sym, ◌∙◌, ap, String, ◌≡◌, ◌≢◌, inl, inr, string_eq, ok, err, arith, text_iff, text_refl,
  Result-cases,
}
use slate_do.Prelude.Int.{ℤ, pos, negsuc, ◌+ℤ◌, ◌≤ℤ◌}
use slate_do.Boards.Types.{Error}
use slate_do.Boards.Database.{Database, StorageUsage}
use slate_do.Boards.Quota.{StorageQuota, usage_of, lock_storage_quota, apply}

-- A change fits when what it adds stays within the plan, and what it takes off was counted.
pub record Fits (q : StorageQuota) (task_delta content_delta : ℤ) : Type 0 where
  pub tasks_within :
      pos 1 ≤ℤ task_delta → (pos q.usage.tasks +ℤ task_delta) ≤ℤ pos q.limits.stored_tasks
  pub bytes_within :
      pos 1 ≤ℤ content_delta
      → (pos q.usage.content_bytes +ℤ content_delta) ≤ℤ pos q.limits.stored_content_bytes
  pub tasks_counted : pos 0 ≤ℤ (pos q.usage.tasks +ℤ task_delta)
  pub bytes_counted : pos 0 ≤ℤ (pos q.usage.content_bytes +ℤ content_delta)

-- The counters after a change, for the account and for any other.
pub record Counted (q : StorageQuota) (db after : Database) (task_delta content_delta : ℤ)
    : Type 0 where
  pub tasks : pos (usage_of after q.user_id).tasks ≡ pos q.usage.tasks +ℤ task_delta
  pub bytes :
      pos (usage_of after q.user_id).content_bytes ≡ pos q.usage.content_bytes +ℤ content_delta
  pub others : (other : String) → q.user_id ≢ other → usage_of after other ≡ usage_of db other

pub apply-Fits :
    (q : StorageQuota) (db after : Database) (task_delta content_delta : ℤ)
    → apply q db task_delta content_delta ≡ ok after
    → Fits q task_delta content_delta
unfolding apply
apply-Fits q db after (pos a) (pos b) h = ground arith
apply-Fits q db after (pos a) (negsuc b) h = ground arith
apply-Fits q db after (negsuc a) (pos b) h = ground arith
apply-Fits q db after (negsuc a) (negsuc b) h = ground arith

-- The tables other than the counters are the same.
pub record SameRows (db after : Database) : Type 0 where
  pub users : after.users ≡ db.users
  pub agents : after.agents ≡ db.agents
  pub buckets : after.buckets ≡ db.buckets
  pub tasks : after.tasks ≡ db.tasks
  pub entries : after.entries ≡ db.entries
  pub keys : after.keys ≡ db.keys

module _ (q : StorageQuota) (db : Database) (read : usage_of db q.user_id ≡ q.usage) where
  apply-Counted-tasks :
      (after : Database) (a b : ℤ)
      → apply q db a b ≡ ok after
      → pos (usage_of after q.user_id).tasks ≡ pos q.usage.tasks +ℤ a
  unfolding apply
  apply-Counted-tasks after (pos a) b h = ground (arith, text_refl q.user_id)
  apply-Counted-tasks after (negsuc a) b h = ground (arith, text_refl q.user_id)

  apply-Counted-bytes :
      (after : Database) (a b : ℤ)
      → apply q db a b ≡ ok after
      → pos (usage_of after q.user_id).content_bytes ≡ pos q.usage.content_bytes +ℤ b
  unfolding apply
  apply-Counted-bytes after a (pos b) h = ground (arith, text_refl q.user_id)
  apply-Counted-bytes after a (negsuc b) h = ground (arith, text_refl q.user_id)

  apply-others :
      (after : Database) (a b : ℤ) (other : String)
      → apply q db a b ≡ ok after
      → q.user_id ≢ other
      → usage_of after other ≡ usage_of db other
  unfolding apply
  apply-others after a b other h ne = ground (arith, text_iff q.user_id other)

  -- A change that is let through is in the counters of the account, and in no other's.
  pub apply-Counted :
      (after : Database) (a b : ℤ) → apply q db a b ≡ ok after → Counted q db after a b
  apply-Counted after a b h = record {
    tasks = apply-Counted-tasks after a b h;
    bytes = apply-Counted-bytes after a b h;
    others = λ other ne. apply-others after a b other h ne;
  }

pub apply-SameRows :
    (q : StorageQuota) (db after : Database) (a b : ℤ)
    → apply q db a b ≡ ok after
    → SameRows db after
unfolding apply
apply-SameRows q db after a b h = ground arith

no_error-of_Fits :
    (q : StorageQuota) (db : Database) (a b : ℤ) (e : Error) → Fits q a b → apply q db a b ≢ err e
unfolding apply
no_error-of_Fits q db (pos a) (pos b) e fits h = ground arith
no_error-of_Fits q db (pos a) (negsuc b) e fits h = ground arith
no_error-of_Fits q db (negsuc a) (pos b) e fits h = ground arith
no_error-of_Fits q db (negsuc a) (negsuc b) e fits h = ground arith

-- What fits is let through.
apply-of_Fits :
    (q : StorageQuota) (db : Database) (a b : ℤ)
    → Fits q a b
    → (after : Database) × (apply q db a b ≡ ok after)
apply-of_Fits q db a b fits = elim (Result-cases (apply q db a b)) [
  | inl (after, e) ↦ (after, e)
  | inr (e, h) ↦ absurd (no_error-of_Fits q db a b e fits h)
]

-- On the counters that the lock has read, a change is let through exactly when it fits the plan;
-- then the account's counters move by the change, no other account's counters move, and no other
-- table is touched.
pub apply_exact :
    (q : StorageQuota) (db : Database) (a b : ℤ)
    → usage_of db q.user_id ≡ q.usage
    → (Fits q a b → (after : Database) × (apply q db a b ≡ ok after))
      × ((after : Database)
          → apply q db a b ≡ ok after
          → Fits q a b × Counted q db after a b × SameRows db after)
apply_exact q db a b read = (
  apply-of_Fits q db a b,
  λ after h. (
    apply-Fits q db after a b h,
    apply-Counted q db read after a b h,
    apply-SameRows q db after a b h,
  ),
)

-- What the lock has read: the account's own counters, which it leaves as they were.
pub record Locked (db : Database) (user_id : String) (q : StorageQuota) (after : Database)
    : Type 0 where
  pub user : q.user_id ≡ user_id
  pub read : usage_of after q.user_id ≡ q.usage
  pub usage : (other : String) → usage_of after other ≡ usage_of db other
  pub rows : SameRows db after

pub lock_storage_quota-Locked :
    (db : Database) (user_id : String) (q : StorageQuota) (after : Database)
    → lock_storage_quota db user_id ≡ ok (q, after)
    → Locked db user_id q after
unfolding lock_storage_quota
lock_storage_quota-Locked db user_id q after h = record {
  user = ground arith;
  read = ground (arith, text_refl user_id);
  usage = λ other. ground (arith, text_iff user_id other);
  rows = ground arith;
}

pub SameRows-trans : (a b c : Database) → SameRows a b → SameRows b c → SameRows a c
SameRows-trans a b c f g = record {
  users = g.users ∙ f.users;
  agents = g.agents ∙ f.agents;
  buckets = g.buckets ∙ f.buckets;
  tasks = g.tasks ∙ f.tasks;
  entries = g.entries ∙ f.entries;
  keys = g.keys ∙ f.keys;
}

-- What the lock and then the count have done: the account's counters have moved by the change, no
-- other account's have, and the rows are the same.
pub record Moved (db : Database) (user_id : String) (a b : ℤ) (after : Database) : Type 0 where
  pub rows : SameRows db after
  pub tasks : pos (usage_of after user_id).tasks ≡ pos (usage_of db user_id).tasks +ℤ a
  pub bytes :
      pos (usage_of after user_id).content_bytes ≡ pos (usage_of db user_id).content_bytes +ℤ b
  pub others : (other : String) → user_id ≢ other → usage_of after other ≡ usage_of db other

pub lock-apply-Moved :
    (db : Database) (user_id : String) (a b : ℤ) (q : StorageQuota) (locked after : Database)
    → lock_storage_quota db user_id ≡ ok (q, locked)
    → apply q locked a b ≡ ok after
    → Moved db user_id a b after
lock-apply-Moved db user_id a b q locked after h k =
    let l = lock_storage_quota-Locked db user_id q locked h in
    let c = apply-Counted q locked l.read after a b k in
    let before : q.usage ≡ usage_of db user_id =
      sym l.read ∙ ap (λ u. usage_of locked u) l.user ∙ l.usage user_id in
    record {
      rows = SameRows-trans db locked after l.rows (apply-SameRows q locked after a b k);
      tasks =
          ap (λ u. pos (usage_of after u).tasks) (sym l.user)
          ∙ c.tasks
          ∙ ap (λ (u : StorageUsage). pos u.tasks +ℤ a) before;
      bytes =
          ap (λ u. pos (usage_of after u).content_bytes) (sym l.user)
          ∙ c.bytes
          ∙ ap (λ (u : StorageUsage). pos u.content_bytes +ℤ b) before;
      others = λ o ne. c.others o (λ e. ne (sym l.user ∙ e)) ∙ l.usage o;
    }
