-- ===== src/Boards/Buckets/Repair.antt =====
-- The repair of an account's Inbox.
use slate_do.Prelude.{
  ℕ, ◌≤◌, String, ◌≡◌, ◌≢◌, refl, true, false, ◌&&◌, none, some, List, [], ◌∷◌, ◌++◌, ◌==◌,
  string_eq, nat_eq, find, find-test, keep, update_where, count_where, if◌then◌else◌, ok, arith,
  text_iff, text_refl, subst, Bool-cases, Option-cases, List-cases, inl, inr, All, All-find,
  All-update_where,
}
use slate_do.Prelude.Counting.{
  All-imp, count-update-same-All, count-implies-le, count-update-among, count-update-same,
  All-of_count_zero, All-of_count_le, count-of_find-none, count-of_find-some, count-update-marks,
}
use slate_do.Prelude.Keyed.{find-of_count, find-append_none, keep-counted}
use slate_do.Prelude.Sort.{sort_by-All}
use slate_do.Prelude.Int.{pos}
use slate_do.Entitlements.{pro_limits}
use slate_do.Boards.Types.{Bucket}
use slate_do.Boards.Database.{Database}
use slate_do.Boards.Buckets.{
  is_inbox_of, owned, marked, ensure_inbox_bucket_id, ordered_buckets, sorts_before, inbox_row,
}
use slate_do.Boards.Buckets.Inbox.{appended-inboxes, appended-Keeps, IsNew, inboxes, IsMarked}

-- The list that is marked when an account with lists has no Inbox.
module _ (before : List Bucket) (user_id : String) (first : Bucket) (now : ℕ)
    (mine : first.user_id ≡ user_id)
    (there : 1 ≤ count_where (λ b. owned user_id b && b.id == first.id) before)
    (m : IsMarked before) where
  marks : List Bucket
  marks = update_where (λ b. b.id == first.id) (marked now) before

  -- Every row with the ID is the account's.
  first-owned :
      All (λ b. (b.id == first.id) ≡ true → (owned user_id b && b.id == first.id) ≡ true) before
  first-owned =
      All-of_count_le (λ b. owned user_id b && b.id == first.id) (λ b. b.id == first.id) before
        (λ b h. ground arith) (omega (arith, m.keyed first.id))

  marks-ids :
      (k : String) → count_where (λ b. b.id == k) marks ≡ count_where (λ b. b.id == k) before
  unfolding marks
  marks-ids k =
      count-update-same (λ b. b.id == k) (λ b. b.id == first.id) (marked now) before (λ b h. refl)

  marks-own : inboxes before user_id ≡ 0 → inboxes marks user_id ≡ 1
  unfolding marks
  marks-own zero_before = omega (
    arith,
    m.keyed first.id,
    count-update-among (is_inbox_of user_id) (λ b. b.id == first.id) (marked now) before
        (All-imp (λ b. is_inbox_of user_id b ≡ false) _ before (λ b h k. h)
          (All-of_count_zero (is_inbox_of user_id) before zero_before)),
    count-update-marks (is_inbox_of user_id) (λ b. b.id == first.id) (marked now) before
        (All-imp _ _ before (λ b h k. ground (arith, h k)) first-owned),
    count-implies-le (λ b. owned user_id b && b.id == first.id) (λ b. b.id == first.id) before
        (λ b h. ground arith),
  )

  marks-others : (u : String) → user_id ≢ u → inboxes marks u ≡ inboxes before u
  unfolding marks
  marks-others u ne =
      count-update-same-All (is_inbox_of u) (λ b. b.id == first.id) (marked now) before
        (All-imp _ _ before
          (λ b h k. ground (arith, h k, text_iff b.user_id user_id, text_iff b.user_id u))
          first-owned)

  -- The list that is found as the Inbox is the one that was marked.
  marks-found :
      inboxes before user_id ≡ 0
      → (b : Bucket) × (find (is_inbox_of user_id) marks ≡ some b) × (b.id ≡ first.id)
  marks-found zero_before =
      let (b, e) =
        find-of_count (is_inbox_of user_id) marks (omega (arith, marks-own zero_before)) in
      (b, e, (text_iff b.id first.id).0 (only b e (find-test (is_inbox_of user_id) marks b e)))
    where
      only :
          (b : Bucket)
          → find (is_inbox_of user_id) marks ≡ some b
          → is_inbox_of user_id b ≡ true
          → (b.id == first.id) ≡ true
      only b e =
          All-find (λ x. is_inbox_of user_id x ≡ true → (x.id == first.id) ≡ true)
            (is_inbox_of user_id) marks b
            (unfold marks in
              All-update_where (λ x. is_inbox_of user_id x ≡ true → (x.id == first.id) ≡ true)
                (λ x. x.id == first.id) (marked now) before (λ x p h k. p)
                (All-imp (λ x. is_inbox_of user_id x ≡ false) _ before (λ x h k. cc (h, k))
                  (All-of_count_zero (is_inbox_of user_id) before zero_before)))
            e

-- The state after a repair, for the account and for the others.
pub record Repaired (before after : List Bucket) (user_id inbox_id : String) : Type 0 where
  pub marked : IsMarked after
  pub one : inboxes after user_id ≡ 1
  pub found : (b : Bucket) × (find (is_inbox_of user_id) after ≡ some b) × (b.id ≡ inbox_id)
  pub idle : inboxes before user_id ≡ 1 → after ≡ before
  pub others : (u : String) → user_id ≢ u → inboxes after u ≡ inboxes before u

abbrev Mine : Database → String → Bucket → Type 0
Mine db user_id b =
    (owned user_id b ≡ true) × (1 ≤ count_where (λ x. owned user_id x && x.id == b.id) db.buckets)

ordered_buckets-Mine :
    (db : Database) (user_id : String) → All (Mine db user_id) (ordered_buckets db user_id)
unfolding ordered_buckets
ordered_buckets-Mine db user_id =
    sort_by-All sorts_before (Mine db user_id) (keep (owned user_id) db.buckets)
      (keep-counted (λ b. b.id) (owned user_id) db.buckets)

first-Repaired :
    (db : Database) (user_id : String) (first : Bucket) (rest : List Bucket) (now : ℕ)
    → IsMarked db.buckets
    → find (is_inbox_of user_id) db.buckets ≡ none
    → ordered_buckets db user_id ≡ first ∷ rest
    → Repaired db.buckets
        (update_where (λ b. b.id == first.id) (marked now) db.buckets)
        user_id
        first.id
unfolding marks
first-Repaired db user_id first rest now m absent_inbox ordered =
    let mine : Mine db user_id first =
      (subst (All (Mine db user_id)) ordered (ordered_buckets-Mine db user_id)).0 in
    let same = (text_iff first.user_id user_id).0 mine.0 in
    let none_before : inboxes db.buckets user_id ≡ 0 =
      count-of_find-none (is_inbox_of user_id) db.buckets absent_inbox in
    let own = marks-own db.buckets user_id first now same mine.1 m none_before in
    record {
      marked = record {
        keyed =
            λ k. omega (arith, m.keyed k, marks-ids db.buckets user_id first now same mine.1 m k);
        present = omega (arith, m.present, marks-ids db.buckets user_id first now same mine.1 m "");
        single = λ u. elim (Bool-cases (user_id == u)) [
          | inl e ↦
              subst (λ v. inboxes (marks db.buckets user_id first now same mine.1 m) v ≤ 1)
                ((text_iff user_id u).0 e) (omega (arith, own))
          | inr e ↦ omega (
            arith,
            m.single u,
            marks-others db.buckets user_id first now same mine.1 m u
                (λ q. cc (e, (text_iff user_id u).1 q)),
          )
        ];
      };
      one = own;
      found = marks-found db.buckets user_id first now same mine.1 m none_before;
      idle = λ h. absurd (omega (arith, h, none_before));
      others = marks-others db.buckets user_id first now same mine.1 m;
    }

appended-Repaired :
    (before : List Bucket) (row : Bucket)
    → IsMarked before
    → IsNew before row.id
    → row.is_inbox ≡ true
    → find (is_inbox_of row.user_id) before ≡ none
    → Repaired before (before ++ row ∷ []) row.user_id row.id
appended-Repaired before row m fresh on absent_inbox =
    let none_before = count-of_find-none (is_inbox_of row.user_id) before absent_inbox in
    let own : inboxes before row.user_id
        ≡ (if row.is_inbox then 0 else inboxes before row.user_id) =
      ground (arith, none_before) in
    let counts = appended-inboxes before before row fresh (λ k. refl) (λ u ne. refl) own in
    record {
      marked = (appended-Keeps before before row fresh (λ k. refl) (λ u ne. refl) own).marked m;
      one = ground (arith, counts row.user_id, text_refl row.user_id);
      found = (
        row,
        find-append_none (is_inbox_of row.user_id) before row absent_inbox
            (ground (arith, text_refl row.user_id)),
        refl,
      );
      idle = λ h. absurd (omega (arith, h, none_before));
      others = λ u ne. ground (arith, counts u, text_iff row.user_id u);
    }

present-Repaired :
    (before : List Bucket) (user_id : String) (inbox : Bucket)
    → IsMarked before
    → find (is_inbox_of user_id) before ≡ some inbox
    → Repaired before before user_id inbox.id
present-Repaired before user_id inbox m there = record {
  marked = m;
  one =
      omega (arith, m.single user_id, count-of_find-some (is_inbox_of user_id) before inbox there);
  found = (inbox, there, refl);
  idle = λ h. refl;
  others = λ u ne. refl;
}

pub ensure_inbox_bucket_id-Repaired :
    (db : Database) (user_id : String) (now : ℕ) (id inbox_id : String) (after : Database)
    → IsMarked db.buckets
    → IsNew db.buckets id
    → ensure_inbox_bucket_id db user_id now id ≡ ok (inbox_id, after)
    → Repaired db.buckets after.buckets user_id inbox_id
unfolding ensure_inbox_bucket_id inbox_row
ensure_inbox_bucket_id-Repaired db user_id now id inbox_id after m fresh h =
    elim (Option-cases (find (is_inbox_of user_id) db.buckets)) [
      | inr (inbox, e) ↦
          let returned : inbox_id ≡ inbox.id = ground arith in
          let rows : after.buckets ≡ db.buckets = ground arith in
          rw (returned, rows) (present-Repaired db.buckets user_id inbox m e)
      | inl e ↦ elim (List-cases (ordered_buckets db user_id)) [
        | inr (first, rest, o) ↦
            let returned : inbox_id ≡ first.id = ground arith in
            let rows : after.buckets
                ≡ update_where (λ b. b.id == first.id) (marked now) db.buckets =
              ground arith in
            rw (returned, rows) (first-Repaired db user_id first rest now m e o)
        | inl o ↦
            let row = inbox_row user_id id (pos pro_limits.active_items_per_list) now in
            let returned : inbox_id ≡ id = ground arith in
            let rows : after.buckets ≡ db.buckets ++ row ∷ [] = ground arith in
            rw (returned, rows) (appended-Repaired db.buckets row m fresh refl e)
      ]
    ]
