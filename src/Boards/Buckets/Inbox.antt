-- ===== src/Boards/Buckets/Inbox.antt =====
-- The Inbox marker of an account under the list operations.
use slate_do.Prelude.{
  ℕ, ◌≤◌, String, ◌≡◌, ◌≢◌, refl, Bool, true, false, some, List, [], ◌∷◌, ◌++◌, ◌==◌, string_eq,
  nat_eq, find, update_where, count_where, if◌then◌else◌, ok, arith, text_iff, text_refl, subst,
  sym, Bool-cases, inl, inr, All,
}
use slate_do.Prelude.Counting.{
  count-implies-le, All-updated, count-update-same, count-update-zero, count-append,
  count-of_find-some,
}
use slate_do.Prelude.Keyed.{IsKeyed, IsKeyed-find}
use slate_do.Boards.Types.{Bucket, CreateBucketInput}
use slate_do.Boards.Database.{Database}
use slate_do.Boards.Buckets.{
  is_inbox_of, other_inbox, unmarked, release_inbox_marker, create_bucket,
}
use slate_do.Boards.Buckets.Change.{named}

-- How many lists of an account are marked as its Inbox.
abbrev pub inboxes : List Bucket → String → ℕ
inboxes buckets user_id = count_where (is_inbox_of user_id) buckets

-- The lists have distinct IDs, and no account has two Inboxes.
pub record IsMarked (buckets : List Bucket) : Type 0 where
  pub keyed : IsKeyed (λ b. b.id) buckets
  pub present : count_where (λ b. b.id == "") buckets ≡ 0
  pub single : (user_id : String) → inboxes buckets user_id ≤ 1

-- From marked lists to marked lists, and an account with an Inbox still has one.
pub record Keeps (before after : List Bucket) : Type 0 where
  pub marked : IsMarked before → IsMarked after
  pub survives :
      IsMarked before → (user_id : String) → inboxes before user_id ≡ 1 → inboxes after user_id ≡ 1

module _ (buckets : List Bucket) (user_id except : String) (now : ℕ) where
  unfoldable pub released : List Bucket
  released = update_where (other_inbox user_id except) (unmarked now) buckets

  pub released-others :
      (other : String) → user_id ≢ other → inboxes released other ≡ inboxes buckets other
  unfolding released
  released-others other ne =
      count-update-same (is_inbox_of other) (other_inbox user_id except) (unmarked now) buckets
        (λ b h. ground (arith, text_iff b.user_id user_id, text_iff b.user_id other))

  pub released-keyed :
      (k : String) → count_where (λ b. b.id == k) released ≡ count_where (λ b. b.id == k) buckets
  unfolding released
  released-keyed k =
      count-update-same (λ b. b.id == k) (other_inbox user_id except) (unmarked now) buckets
        (λ b h. refl)

  -- Only the excepted list can still be marked.
  pub released-left :
      All (λ b. named user_id except b ≡ false → is_inbox_of user_id b ≡ false) released
  unfolding released
  released-left =
      All-updated (λ b. named user_id except b ≡ false → is_inbox_of user_id b ≡ false)
        (other_inbox user_id except) (unmarked now) buckets (λ b h k. ground (arith))
        (λ b h k. ground (arith))

pub released-none :
    (buckets : List Bucket) (user_id : String) (now : ℕ)
    → inboxes (released buckets user_id "" now) user_id ≡ 0
unfolding released
released-none buckets user_id now =
    count-update-zero (is_inbox_of user_id) (other_inbox user_id "") (unmarked now) buckets
      (λ b h. ground (arith)) (λ b h. ground (arith, text_refl ""))

-- What a successful creation did to the lists.
create_bucket-rows :
    (db : Database) (user_id : String) (input : CreateBucketInput) (now : ℕ) (id : String)
    (b : Bucket) (after : Database)
    → create_bucket db user_id input now id ≡ ok (b, after)
    → (b.id ≡ id)
      × (b.user_id ≡ user_id)
      × (b.is_inbox ≡ input.is_inbox)
      × (after.buckets
          ≡ (if input.is_inbox then released db.buckets user_id "" now else db.buckets) ++ b ∷ [])
unfolding create_bucket release_inbox_marker released
create_bucket-rows db user_id input now id b after h =
    (ground arith, ground arith, ground arith, ground arith)

-- An ID that the database draws is not empty, and no other list's.
abbrev pub IsNew : List Bucket → String → Type 0
IsNew buckets id = (count_where (λ b. b.id == id) buckets ≡ 0) × ((id == "") ≡ false)

module _ (before rest : List Bucket) (b : Bucket) (fresh : IsNew before b.id)
    (same : (k : String) → count_where (λ x. x.id == k) rest ≡ count_where (λ x. x.id == k) before)
    (others : (u : String) → b.user_id ≢ u → inboxes rest u ≡ inboxes before u)
    (own : inboxes rest b.user_id ≡ (if b.is_inbox then 0 else inboxes before b.user_id)) where
  appended-IsKeyed : IsMarked before → IsKeyed (λ x. x.id) (rest ++ b ∷ [])
  appended-IsKeyed m k = elim (Bool-cases (b.id == k)) [
    | inl e ↦
        rw (count-append (λ x. x.id == k) rest (b ∷ [])) (ground (arith, e, same k, fresh_at k e))
    | inr e ↦
        rw (count-append (λ x. x.id == k) rest (b ∷ [])) (ground (arith, e, same k, m.keyed k))
  ]
    where
      fresh_at : (k : String) → (b.id == k) ≡ true → count_where (λ x. x.id == k) before ≡ 0
      fresh_at k e =
          subst (λ i. count_where (λ x. x.id == i) before ≡ 0) ((text_iff b.id k).0 e) fresh.0

  pub appended-inboxes :
      (u : String)
      → inboxes (rest ++ b ∷ []) u ≡ (
          if b.user_id == u then (if b.is_inbox then 1 else inboxes before u) else inboxes before u)
  appended-inboxes u = elim (Bool-cases (b.user_id == u)) [
    | inl e ↦ rw (count-append (is_inbox_of u) rest (b ∷ [])) (ground (arith, e, own_at u e))
    | inr e ↦
        rw (count-append (is_inbox_of u) rest (b ∷ []))
          (ground (arith, e, others u (λ q. cc (e, (text_iff b.user_id u).1 q))))
  ]
    where
      own_at :
          (u : String)
          → (b.user_id == u) ≡ true
          → inboxes rest u ≡ (if b.is_inbox then 0 else inboxes before u)
      own_at u e =
          subst (λ v. inboxes rest v ≡ (if b.is_inbox then 0 else inboxes before v))
            ((text_iff b.user_id u).0 e) own

  pub appended-Keeps : Keeps before (rest ++ b ∷ [])
  appended-Keeps = record {
    marked = λ m. record {
      keyed = appended-IsKeyed m;
      present =
          rw (count-append (λ x. x.id == "") rest (b ∷ []))
            (ground (arith, fresh.1, same "", m.present));
      single = λ u. ground (arith, appended-inboxes u, m.single u);
    };
    survives = λ m u one. ground (arith, appended-inboxes u);
  }

made-Keeps :
    (inbox : Bool) (before : List Bucket) (now : ℕ) (b : Bucket)
    → b.is_inbox ≡ inbox
    → IsNew before b.id
    → Keeps before ((if inbox then released before b.user_id "" now else before) ++ b ∷ [])
made-Keeps true before now b e fresh =
    appended-Keeps before (released before b.user_id "" now) b fresh
      (λ k. released-keyed before b.user_id "" now k)
      (λ u ne. released-others before b.user_id "" now u ne)
      (rw e (released-none before b.user_id now))
made-Keeps false before now b e fresh =
    appended-Keeps before before b fresh (λ k. refl) (λ u ne. refl) (rw e refl)

pub create_bucket-Keeps :
    (db : Database) (user_id : String) (input : CreateBucketInput) (now : ℕ) (id : String)
    (b : Bucket) (after : Database)
    → IsNew db.buckets id
    → create_bucket db user_id input now id ≡ ok (b, after)
    → Keeps db.buckets after.buckets
create_bucket-Keeps db user_id input now id b after fresh h =
    let (same_id, same_user, inbox, rows) = create_bucket-rows db user_id input now id b after h in
    rw (rows, ← same_user)
      (made-Keeps input.is_inbox db.buckets now b inbox
        (subst (λ i. IsNew db.buckets i) (sym same_id) fresh))

module _ (before : List Bucket) (user_id id : String) (was : Bucket) (m : IsMarked before)
    (found : find (named user_id id) before ≡ some was) where
  -- Only the list that was found has the ID.
  pub found-alone : All (λ b. (b.id == id) ≡ true → b ≡ was) before
  found-alone =
      IsKeyed-find (λ b. b.id) id (named user_id id) before was (m.keyed id) (λ b h. ground arith)
        found

  pub found-id : (id == "") ≡ false
  found-id = elim (Bool-cases (id == "")) [
    | inr e ↦ e
    | inl e ↦ absurd (
        omega (
          arith,
          m.present,
          count-of_find-some (named user_id id) before was found,
          count-implies-le (named user_id id) (λ b. b.id == "") before
              (λ b h. ground (arith, text_iff b.id id, text_iff b.id "", text_iff id "")),
        ))
  ]
