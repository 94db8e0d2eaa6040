-- ===== src/Boards/Buckets/Reorder/Outcome.antt =====
-- What ReorderBuckets of server/internal/boards/store.go leaves behind.
use slate_do.Prelude.{
  ℕ, ◌+◌, ◌≤◌, String, ◌≡◌, refl, true, false, not, ◌&&◌, some, List, [], ◌++◌, map, ◌==◌,
  string_eq, keep, count_where, if◌then◌else◌, ok, arith, text_iff, text_refl, >>=-eq-ok, All,
  subst, ap, ◌∙◌,
}
use slate_do.Prelude.Int.{pos}
use slate_do.Prelude.Sort.{sort_by-count}
use slate_do.Prelude.Counting.{count-implies-le}
use slate_do.Prelude.Keyed.{
  count-keep-both, count-map, count-map-same, keep-same, All-members, IsKeyed,
}
use slate_do.Boards.Types.{Bucket}
use slate_do.Boards.Database.{Database, account_limits_for_update}
use slate_do.Boards.Buckets.{ordered_buckets, owned, is_inbox_of, sorts_before}
use slate_do.Boards.Buckets.Inbox.{Keeps, inboxes}
use slate_do.Boards.Buckets.Reorder.{has, check_order, write_order, reorder_buckets}
use slate_do.Boards.Buckets.Reorder.Order.{
  occurs, position, placed, write_order-eq-map, SameList, placed-SameList, placed-other,
  placed-position, has-occurs, new_order-occurs, position-of_occurs, has-eq-seen,
  check_order-occurs,
}

-- The IDs of an account's lists, in their order.
abbrev pub order_of : Database → String → List String
order_of db user_id = map (λ b. b.id) (ordered_buckets db user_id)

order_of-occurs :
    (db : Database) (user_id k : String)
    → occurs (order_of db user_id) k ≡ count_where (λ b. owned user_id b && b.id == k) db.buckets
unfolding ordered_buckets
order_of-occurs db user_id k =
    count-map (λ (b : Bucket). b.id) (λ id. id == k) (ordered_buckets db user_id)
    ∙ sort_by-count sorts_before (λ b. b.id == k) (keep (owned user_id) db.buckets)
    ∙ count-keep-both (λ b. b.id == k) (owned user_id) db.buckets

once :
    (db : Database) (user_id k : String)
    → IsKeyed (λ b. b.id) db.buckets
    → occurs (order_of db user_id) k ≤ 1
once db user_id k keyed = omega (
  arith,
  order_of-occurs db user_id k,
  keyed k,
  count-implies-le (λ b. owned user_id b && b.id == k) (λ b. b.id == k) db.buckets
      (λ b h. ground arith),
)

-- The rows after a reordering: what each list became, and the new order that it stands in.
pub record Reordered (db : Database) (user_id : String) (ids : List String) (after : Database)
    : Type 0 where
  pub asked_exist : (k : String) → 1 ≤ occurs ids k → 1 ≤ occurs (order_of db user_id) k
  pub asked_once : (k : String) → occurs ids k ≤ 1
  pub change : Bucket → Bucket
  pub rows : after.buckets ≡ map change db.buckets
  pub same : (b : Bucket) → SameList (change b) b
  pub others : (b : Bucket) → (b.user_id == user_id) ≡ false → change b ≡ b
  pub placed_at :
      All
        (λ b.
          (b.user_id == user_id) ≡ true
          → (j : ℕ) × (position 0 (ids ++ keep (λ id. not (has ids id)) (order_of db user_id)) b.id
              ≡ some j)
            × ((change b).sort_order ≡ pos j))
        db.buckets

-- The asked lists are the account's own, each named once; after the call each list of the account
-- stands at its position in the asked order followed by the other lists in the order that they had,
-- and apart from positions and times no list has changed, those of other accounts not at all.
pub reorder_buckets-Reordered :
    (db : Database) (user_id : String) (ids : List String) (now : ℕ) (after : Database)
    → IsKeyed (λ b. b.id) db.buckets
    → reorder_buckets db user_id ids now ≡ ok after
    → Reordered db user_id ids after
unfolding reorder_buckets
reorder_buckets-Reordered db user_id ids now after keyed h =
    let (limits, e1, h1) = >>=-eq-ok (account_limits_for_update db user_id) _ h in
    let (seen, e2, h2) = >>=-eq-ok (check_order (order_of db user_id) [] ids) _ h1 in
    let order = ids ++ keep (λ id. not (has ids id)) (order_of db user_id) in
    let same_order : ids ++ keep (λ id. not (has seen id)) (order_of db user_id) ≡ order =
      ap (λ rest. ids ++ rest)
        (keep-same (λ id. not (has seen id)) (λ id. not (has ids id)) (order_of db user_id)
          (λ id. ap not (has-eq-seen (order_of db user_id) ids seen id e2))) in
    let written : after.buckets ≡ write_order user_id now 0 order db.buckets =
      ground (arith, ap (λ o. write_order user_id now 0 o db.buckets) same_order) in
    let each : (k : String) → occurs order k ≡ occurs (order_of db user_id) k = λ k.
      subst (λ o. occurs o k ≡ occurs (order_of db user_id) k) same_order
        (new_order-occurs (order_of db user_id) ids seen k (once db user_id k keyed) e2) in
    record {
      asked_exist = λ k o.
          has-occurs (order_of db user_id) k
            ((check_order-occurs (order_of db user_id) [] ids seen k e2).1 o);
      asked_once =
          λ k. asked_once_at seen k (check_order-occurs (order_of db user_id) [] ids seen k e2).0;
      change = placed user_id now 0 order;
      rows = written ∙ write_order-eq-map user_id now 0 order db.buckets;
      same = placed-SameList user_id now 0 order;
      others = placed-other user_id now 0 order;
      placed_at =
          All-members _ (λ b c. c.user_id == b.user_id && c.id == b.id) db.buckets
            (λ b. ground (arith, text_refl b.user_id, text_refl b.id))
            (λ b there own.
              let there_own =
                subst (λ u. 1 ≤ count_where (λ c. owned u c && c.id == b.id) db.buckets)
                  ((text_iff b.user_id user_id).0 own) there in
              let (j, at) =
                position-of_occurs 0 order b.id
                  (omega (arith, there_own, order_of-occurs db user_id b.id, each b.id)) in
              (
                j,
                at,
                placed-position user_id now 0 order b j own
                    (omega (arith, each b.id, once db user_id b.id keyed)) at,
              ));
    }
  where
    asked_once_at :
        (seen : List String) (k : String)
        → (if has seen k then 1 else 0) ≡ (if has [] k then 1 else 0) + occurs ids k
        → occurs ids k ≤ 1
    asked_once_at seen k e = ground arith

-- A reordering moves no Inbox marker.
pub reorder_buckets-Keeps :
    (db : Database) (user_id : String) (ids : List String) (now : ℕ) (after : Database)
    → reorder_buckets db user_id ids now ≡ ok after
    → Keeps db.buckets after.buckets
reorder_buckets-Keeps db user_id ids now after h = record {
  marked = λ m.
      let r : Reordered db user_id ids after =
        reorder_buckets-Reordered db user_id ids now after m.keyed h in
      record {
        keyed = λ k. omega (arith, m.keyed k, ids_same r k);
        present = omega (arith, m.present, ids_same r "");
        single = λ u. omega (arith, m.single u, inboxes_same r u);
      };
  survives = λ m u one.
      omega
        (arith, one, inboxes_same (reorder_buckets-Reordered db user_id ids now after m.keyed h) u);
}
  where
    ids_same :
        (r : Reordered db user_id ids after) (k : String)
        → count_where (λ b. b.id == k) after.buckets ≡ count_where (λ b. b.id == k) db.buckets
    ids_same r k =
        rw r.rows (count-map-same (λ b. b.id == k) r.change db.buckets (λ b. rw (r.same b).0 refl))

    inboxes_same :
        (r : Reordered db user_id ids after) (u : String)
        → inboxes after.buckets u ≡ inboxes db.buckets u
    inboxes_same r u = rw r.rows (
        count-map-same (is_inbox_of u) r.change db.buckets
          (λ b. ground (arith, (r.same b).1, (r.same b).5)))
