-- ===== src/Boards/Buckets/Removal.antt =====
-- The Inbox marker when a list is deleted and when an account's Inbox is repaired.
use slate_do.Prelude.{
  sym, ◌∙◌, ap, ◌≤◌, String, ◌≡◌, true, false, not, ◌&&◌, some, List, ◌==◌, string_eq, nat_eq, find,
  find-test, keep, any, if◌then◌else◌, ok, arith, text_iff, ap, Bool-cases, >>=-eq-ok, ok-injective,
  inl, inr,
}
use slate_do.Prelude.Counting.{
  All-imp, All-everywhere, count-of_any, count-keep-le, count-keep-from,
}
use slate_do.Boards.Types.{Bucket}
use slate_do.Boards.Database.{Database, locked_bucket}
use slate_do.Boards.Quota.{lock_storage_quota, apply}
use slate_do.Boards.Quota.Check.{lock_storage_quota-Locked, apply-SameRows}
use slate_do.Boards.Buckets.{is_inbox_of, other_inbox, ensure_inbox_survives}
use slate_do.Boards.Buckets.Change.{delete_bucket, delete_tasks, named}
use slate_do.Boards.Buckets.Inbox.{found-alone, found-id, inboxes, IsMarked, Keeps}

-- What a successful deletion did to the lists.
record Removed (db : Database) (user_id id : String) (after : Database) : Type 0 where
  was : Bucket
  found : find (named user_id id) db.buckets ≡ some was
  survives : was.is_inbox ≡ true → any (other_inbox user_id id) db.buckets ≡ true
  rows : after.buckets ≡ keep (λ b. not (b.id == id)) db.buckets

named-id : (user_id id : String) (b : Bucket) → named user_id id b ≡ true → b.id ≡ id
named-id user_id id b h = ground (arith, h, text_iff b.id id)

delete_bucket-Removed :
    (db : Database) (user_id id : String) (after : Database)
    → delete_bucket db user_id id ≡ ok after
    → Removed db user_id id after
unfolding delete_bucket delete_tasks locked_bucket ensure_inbox_survives
delete_bucket-Removed db user_id id after h =
    let (locked, e1, h1) = >>=-eq-ok (lock_storage_quota db user_id) _ h in
    let facts = lock_storage_quota-Locked db user_id locked.0 locked.1 e1 in
    let (was, e2, h2) = >>=-eq-ok (locked_bucket locked.1 user_id id) _ h1 in
    let (unit, e3, h3) =
      >>=-eq-ok (if was.is_inbox then ensure_inbox_survives locked.1 user_id was.id else ok tt) _
        h2 in
    let (counted, e4, h4) = >>=-eq-ok (apply locked.0 locked.1 _ _) _ h3 in
    let same_rows = apply-SameRows locked.0 locked.1 counted _ _ e4 in
    let hit : find (named user_id id) db.buckets ≡ some was = ground arith in
    let same = named-id user_id id was (find-test (named user_id id) db.buckets was hit) in
    record {
      was = was;
      found = hit;
      survives = λ m. ground arith;
      rows =
          sym (ap (λ (d : Database). d.buckets) (ok-injective h4))
          ∙ ap (keep (λ b. not (b.id == was.id))) (same_rows.buckets ∙ facts.rows.buckets)
          ∙ ap (λ k. keep (λ b. not (b.id == k)) db.buckets) same;
    }

module _ (before : List Bucket) (user_id id : String) (was : Bucket) (m : IsMarked before)
    (found : find (named user_id id) before ≡ some was) where
  removed : List Bucket
  removed = keep (λ b. not (b.id == id)) before

  plain :
      (b : Bucket) (u : String)
      → (was.is_inbox && user_id == u) ≡ false
      → ((b.id == id) ≡ true → b ≡ was)
      → is_inbox_of u b ≡ true
      → (not (b.id == id) && is_inbox_of u b) ≡ true
  plain b u e alone h = elim (Bool-cases (b.id == id)) [
    | inl k ↦ ground (
      arith,
      k,
      ap (λ (x : Bucket). x.is_inbox) (alone k),
      ap (λ (x : Bucket). x.user_id) (alone k),
      find-test (named user_id id) before was found,
      text_iff was.user_id user_id,
      text_iff b.user_id u,
      text_iff user_id u,
    )
    | inr k ↦ ground (arith, k)
  ]

  removed-survives :
      (was.is_inbox ≡ true → any (other_inbox user_id id) before ≡ true)
      → (u : String) → inboxes before u ≡ 1
      → 1 ≤ inboxes removed u
  unfolding removed
  removed-survives other u one = elim (Bool-cases (was.is_inbox && user_id == u)) [
    | inl e ↦ omega (
      arith,
      count-of_any (other_inbox user_id id) before (other (ground arith)),
      count-keep-from (other_inbox user_id id) (is_inbox_of u) (λ b. not (b.id == id)) before
          (All-everywhere _ before
            (λ b h. ground (arith, e, found-id before user_id id was m found, text_iff user_id u))),
    )
    | inr e ↦ omega (
      arith,
      count-keep-from (is_inbox_of u) (is_inbox_of u) (λ b. not (b.id == id)) before
          (All-imp (λ b. (b.id == id) ≡ true → b ≡ was) _ before (λ b alone h. plain b u e alone h)
            (found-alone before user_id id was m found)),
    )
  ]

  removed-others : (u : String) → inboxes before u ≡ 1 → inboxes removed u ≤ 1
  unfolding removed
  removed-others u one = omega (arith, count-keep-le (is_inbox_of u) (λ b. not (b.id == id)) before)

pub delete_bucket-Keeps :
    (db : Database) (user_id id : String) (after : Database)
    → delete_bucket db user_id id ≡ ok after
    → Keeps db.buckets after.buckets
unfolding removed
delete_bucket-Keeps db user_id id after h =
    let r : Removed db user_id id after = delete_bucket-Removed db user_id id after h in
    rw r.rows (record {
      marked = λ m. record {
        keyed = λ k. omega (arith, m.keyed k, count-keep-le (λ b. b.id == k) _ db.buckets);
        present = omega (arith, m.present, count-keep-le (λ b. b.id == "") _ db.buckets);
        single = λ u. omega (arith, m.single u, count-keep-le (is_inbox_of u) _ db.buckets);
      };
      survives = λ m u one. omega (
        arith,
        removed-survives db.buckets user_id id r.was m r.found r.survives u one,
        removed-others db.buckets user_id id r.was m r.found u one,
      );
    })
