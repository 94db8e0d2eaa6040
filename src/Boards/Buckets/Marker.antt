-- ===== src/Boards/Buckets/Marker.antt =====
-- The Inbox marker under UpdateBucket: it moves, it is kept, and it is not given up.
use slate_do.Prelude.{
  ℕ, ◌≤◌, String, ◌≡◌, ◌⊎◌, ◌∙◌, ◌≢◌, refl, true, false, not, ◌&&◌, some, List, ◌==◌, string_eq,
  nat_eq, find, find-test, any, update_where, count_where, if◌then◌else◌, ok, arith, text_iff,
  subst, sym, ap, Bool-cases, >>=-eq-ok, inl, inr,
}
use slate_do.Prelude.Counting.{
  All-imp, All-everywhere, count-update-same-All, count-implies-le, count-update-from, count-of_any,
  count-update-le, count-update-among, count-update-same, count-of_find-some, count-update-marks,
}
use slate_do.Boards.Types.{Bucket, UpdateBucketInput}
use slate_do.Boards.Database.{Database, locked_bucket}
use slate_do.Boards.Quota.{lock_storage_quota}
use slate_do.Boards.Quota.Check.{lock_storage_quota-Locked}
use slate_do.Boards.Buckets.{
  is_inbox_of, other_inbox, unmarked, release_inbox_marker, ensure_inbox_survives,
}
use slate_do.Boards.Buckets.Change.{
  update_bucket, merged, marker_may_move, release_for, write_bucket, named, rewritten,
}
use slate_do.Boards.Buckets.Inbox.{
  inboxes, IsMarked, Keeps, released, released-others, released-keyed, released-left, found-alone,
  found-id,
}

-- What a successful update did to the lists.
record Updated (db : Database) (user_id id : String) (input : UpdateBucketInput) (now : ℕ)
    (after : Database) : Type 0 where
  was : Bucket
  found : find (named user_id id) db.buckets ≡ some was
  may_move :
      (was.is_inbox && not (merged was input).is_inbox) ≡ true
      → any (other_inbox user_id id) db.buckets ≡ true
  rows :
      after.buckets
      ≡ update_where (named user_id id) (rewritten (merged was input) now) (
          if not was.is_inbox && (merged was input).is_inbox
          then released db.buckets user_id id now
          else db.buckets)

update_bucket-Updated :
    (db : Database) (user_id id : String) (input : UpdateBucketInput) (now : ℕ) (b : Bucket)
    (after : Database)
    → update_bucket db user_id id input now ≡ ok (b, after)
    → Updated db user_id id input now after
unfolding update_bucket marker_may_move release_for write_bucket locked_bucket ensure_inbox_survives
    release_inbox_marker released
update_bucket-Updated db user_id id input now b after h =
    let (locked, e1, h1) = >>=-eq-ok (lock_storage_quota db user_id) _ h in
    let facts = lock_storage_quota-Locked db user_id locked.0 locked.1 e1 in
    let (was, e2, h2) = >>=-eq-ok (locked_bucket locked.1 user_id id) _ h1 in
    let hit : find (named user_id id) db.buckets ≡ some was = ground arith in
    let same : was.id ≡ id = ground (arith, find-test _ db.buckets was hit, text_iff was.id id) in
    record { was = was; found = hit; may_move = λ m. ground arith; rows = ground arith }

module _ (before : List Bucket) (user_id id : String) (current : Bucket) (now : ℕ) where
  pub written : List Bucket → List Bucket
  written = update_where (named user_id id) (rewritten current now)

  written-ids :
      (rows : List Bucket) (k : String)
      → count_where (λ b. b.id == k) (written rows) ≡ count_where (λ b. b.id == k) rows
  unfolding written
  written-ids rows k =
      count-update-same (λ b. b.id == k) (named user_id id) (rewritten current now) rows
        (λ b h. refl)

  written-others :
      (rows : List Bucket) (u : String) → user_id ≢ u → inboxes (written rows) u ≡ inboxes rows u
  unfolding written
  written-others rows u ne =
      count-update-same (is_inbox_of u) (named user_id id) (rewritten current now) rows
        (λ b h. ground (arith, text_iff b.user_id user_id, text_iff b.user_id u))

  -- The marker goes to the written list, which is there.
  moved-inboxes :
      (was : Bucket)
      → IsMarked before
      → find (named user_id id) before ≡ some was
      → current.is_inbox ≡ true
      → inboxes (written (released before user_id id now)) user_id ≡ 1
  unfolding written
  moved-inboxes was m found to_inbox = omega (
    arith,
    count-update-among (is_inbox_of user_id) (named user_id id) (rewritten current now)
        (released before user_id id now) (released-left before user_id id now),
    count-update-marks (is_inbox_of user_id) (named user_id id) (rewritten current now)
        (released before user_id id now) (All-everywhere _ _ (λ b h. ground arith)),
    count-implies-le (named user_id id) (λ b. b.id == id) (released before user_id id now)
        (λ b h. ground arith),
    released-keyed before user_id id now id,
    m.keyed id,
    released-named,
    count-of_find-some (named user_id id) before was found,
  )
    where
      released-named :
          count_where (named user_id id) (released before user_id id now)
          ≡ count_where (named user_id id) before
      released-named =
          unfold released in
          count-update-same (named user_id id) (other_inbox user_id id) (unmarked now) before
            (λ b h. refl)

  kept-inboxes :
      (was : Bucket)
      → IsMarked before
      → find (named user_id id) before ≡ some was
      → was.is_inbox ≡ current.is_inbox
      → inboxes (written before) user_id ≡ inboxes before user_id
  unfolding written
  kept-inboxes was m found same =
      count-update-same-All (is_inbox_of user_id) (named user_id id) (rewritten current now) before
        (All-imp (λ b. (b.id == id) ≡ true → b ≡ was) _ before
          (λ b alone named_b.
            ground (arith, ap (λ (x : Bucket). x.is_inbox) (alone (ground arith))))
          (found-alone before user_id id was m found))

  -- A marker is given up only if another list is marked.
  released-inboxes :
      (was : Bucket)
      → IsMarked before
      → find (named user_id id) before ≡ some was
      → any (other_inbox user_id id) before ≡ true
      → current.is_inbox ≡ false
      → (1 ≤ inboxes (written before) user_id)
        × (inboxes (written before) user_id ≤ inboxes before user_id)
  unfolding written
  released-inboxes was m found other off = (
    omega (
      arith,
      count-of_any (other_inbox user_id id) before other,
      count-update-from (other_inbox user_id id) (is_inbox_of user_id) (named user_id id)
          (rewritten current now) before
          (λ b h k. ground (arith, found-id before user_id id was m found)) (λ b h k. ground arith),
    ),
    count-update-le (is_inbox_of user_id) (named user_id id) (rewritten current now) before
        (All-everywhere _ before (λ b h k. ground arith)),
  )

  -- The rows that an update leaves, in its three cases.
  pub updated : (was : Bucket) → List Bucket
  updated was =
      written
        (if not was.is_inbox && current.is_inbox then released before user_id id now else before)

  updated-ids :
      (was : Bucket) (k : String)
      → count_where (λ b. b.id == k) (updated was) ≡ count_where (λ b. b.id == k) before
  unfolding updated
  updated-ids was k = elim (Bool-cases (not was.is_inbox && current.is_inbox)) [
    | inl e ↦
        rw e
          (written-ids (released before user_id id now) k ∙ released-keyed before user_id id now k)
    | inr e ↦ rw e (written-ids before k)
  ]

  updated-others :
      (was : Bucket) (u : String) → user_id ≢ u → inboxes (updated was) u ≡ inboxes before u
  unfolding updated
  updated-others was u ne = elim (Bool-cases (not was.is_inbox && current.is_inbox)) [
    | inl e ↦ rw e (
        written-others (released before user_id id now) u ne
        ∙ released-others before user_id id now u ne)
    | inr e ↦ rw e (written-others before u ne)
  ]

  moves :
      (was : Bucket)
      → was.is_inbox ≡ false
      → current.is_inbox ≡ true
      → inboxes (updated was) user_id ≡ inboxes (written (released before user_id id now)) user_id
  unfolding updated
  moves was w c = ap (λ rows. inboxes (written rows) user_id) (ground arith)

  stays :
      (was : Bucket)
      → (was.is_inbox ≡ true) ⊎ (current.is_inbox ≡ false)
      → inboxes (updated was) user_id ≡ inboxes (written before) user_id
  unfolding updated
  stays was e = ap (λ rows. inboxes (written rows) user_id) (ground arith)

  updated-own :
      (was : Bucket)
      → IsMarked before
      → find (named user_id id) before ≡ some was
      → ((was.is_inbox && not current.is_inbox) ≡ true → any (other_inbox user_id id) before ≡ true)
      → (inboxes (updated was) user_id ≤ 1)
        × (inboxes before user_id ≤ inboxes (updated was) user_id)
  updated-own was m found may_move = elim (Bool-cases was.is_inbox) [
    | inl w ↦ elim (Bool-cases current.is_inbox) [
      | inl c ↦
          omega (arith, m.single user_id, kept-inboxes was m found (w ∙ sym c), stays was (inl w))
      | inr c ↦ omega (
        arith,
        m.single user_id,
        released-inboxes was m found (may_move (ground arith)) c,
        stays was (inl w),
      )
    ]
    | inr w ↦ elim (Bool-cases current.is_inbox) [
      | inl c ↦ omega (arith, m.single user_id, moved-inboxes was m found c, moves was w c)
      | inr c ↦
          omega (arith, m.single user_id, kept-inboxes was m found (w ∙ sym c), stays was (inr c))
    ]
  ]

  pub updated-Keeps :
      (was : Bucket)
      → find (named user_id id) before ≡ some was
      → ((was.is_inbox && not current.is_inbox) ≡ true → any (other_inbox user_id id) before ≡ true)
      → Keeps before (updated was)
  updated-Keeps was found may_move = record {
    marked = λ m. record {
      keyed = λ k. omega (arith, updated-ids was k, m.keyed k);
      present = omega (arith, updated-ids was "", m.present);
      single = λ u. elim (Bool-cases (user_id == u)) [
        | inl e ↦
            subst (λ v. inboxes (updated was) v ≤ 1) ((text_iff user_id u).0 e)
              (updated-own was m found may_move).0
        | inr e ↦
            omega (arith, m.single u, updated-others was u (λ q. cc (e, (text_iff user_id u).1 q)))
      ];
    };
    survives = λ m u one. elim (Bool-cases (user_id == u)) [
      | inl e ↦
          subst (λ v. inboxes before v ≡ 1 → inboxes (updated was) v ≡ 1) ((text_iff user_id u).0 e)
            (λ own. omega (arith, updated-own was m found may_move)) one
      | inr e ↦ omega (arith, updated-others was u (λ q. cc (e, (text_iff user_id u).1 q)))
    ];
  }

pub update_bucket-Keeps :
    (db : Database) (user_id id : String) (input : UpdateBucketInput) (now : ℕ) (b : Bucket)
    (after : Database)
    → update_bucket db user_id id input now ≡ ok (b, after)
    → Keeps db.buckets after.buckets
unfolding updated written
update_bucket-Keeps db user_id id input now b after h =
    let u : Updated db user_id id input now after =
      update_bucket-Updated db user_id id input now b after h in
    rw u.rows
      (updated-Keeps db.buckets user_id id (merged u.was input) now u.was u.found u.may_move)
