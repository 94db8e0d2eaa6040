-- ===== src/Ratelimit/Allow/Stored.antt =====
-- The rows that `Allow` of server/internal/ratelimit/ratelimit.go writes.
use slate_do.Prelude.{
  ℕ, ◌≡◌, refl, sym, ◌∙◌, ap, String, true, ◌&&◌, some, List, [], ◌∷◌, ◌++◌, any, All,
  All-update_where, ◌==◌, string_eq, ltb, if◌then◌else◌, Bool-cases, Option-cases, subst, inl, inr,
  arith, ok,
}
use slate_do.Prelude.Counting.{All-imp}
use slate_do.Prelude.Sort.{sort_by}
use slate_do.Ratelimit.Window.{expiry}
use slate_do.Ratelimit.Window.Order.{
  IsSorted, sort_by-IsSorted, expiry-IsLast, expiry-none, expiry-sort_by_append,
}
use slate_do.Ratelimit.Keys.{Key, same_key}
use slate_do.Ratelimit.Tables.{Row, is_row, times_at, write_state, refresh_state, coalesce}
use slate_do.Ratelimit.Tables.Times.{times_at-update, any-update, count-update}
use slate_do.Ratelimit.Tables.Expired.{IsUnique, ExpiresLast}
use slate_do.Ratelimit.Allow.{KeyState, write_admitted, write_refused}

-- What a loop over the states has written: the new times of each key, and no others.
pub record Stored (states : List KeyState) (c : String) (new : Key → List ℕ)
    (rows written : List Row) : Type 0 where
  pub times :
      (k : Key) (d : String)
      → times_at k d written
        ≡ (if any (λ s. same_key k s.key) states && d == c then new k else times_at k d rows)
  pub one : IsUnique rows → IsUnique written
  pub last : All ExpiresLast rows → All ExpiresLast written

-- A write of one key's row that sets sorted times, and an expiry that is theirs or, without
-- times, the old one.
module _ (c : String) (now : ℕ) (new : Key → List ℕ)
    (respects : (j k : Key) → same_key j k ≡ true → new j ≡ new k)
    (sorted : (k : Key) → IsSorted (new k)) where
  stored-one :
      (key : Key) (rows : List Row)
      → any (is_row key c) rows ≡ true
      → (k : Key) (d : String)
      → times_at k d (refresh_state key c (new key) now rows)
        ≡ (if same_key k key && d == c then new k else times_at k d rows)
  unfolding refresh_state
  stored-one key rows there k d = elim (Bool-cases (same_key k key && d == c)) [
    | inl e ↦
        times_at-update key c (new key) (λ r. coalesce (expiry (new key)) r.expires_at) now k d rows
          there
        ∙ rw e (sym (respects k key (ground (arith, e))))
    | inr e ↦
        times_at-update key c (new key) (λ r. coalesce (expiry (new key)) r.expires_at) now k d rows
          there
        ∙ rw e refl
  ]

  refreshed-last :
      (key : Key) (r : Row)
      → ExpiresLast (record r {
        request_times = new key;
        expires_at = coalesce (expiry (new key)) r.expires_at;
        updated_at = now;
      })
  refreshed-last key r = elim (Option-cases (expiry (new key))) [
    | inl e ↦ rw e (subst (All _) (sym (expiry-none (new key) e)) tt)
    | inr (x, e) ↦ rw e (expiry-IsLast (new key) x (sorted key) e)
  ]

  refreshed-IsUnique :
      (key : Key) (rows : List Row)
      → IsUnique rows
      → IsUnique (refresh_state key c (new key) now rows)
  unfolding refresh_state
  refreshed-IsUnique key rows h k d = omega (
    arith,
    h k d,
    count-update key c (new key) (λ r. coalesce (expiry (new key)) r.expires_at) now k d rows,
  )

  refreshed-All :
      (key : Key) (rows : List Row)
      → All ExpiresLast rows
      → All ExpiresLast (refresh_state key c (new key) now rows)
  unfolding refresh_state
  refreshed-All key rows h =
      All-update_where ExpiresLast (is_row key c)
        (λ r. record r {
          request_times = new key;
          expires_at = coalesce (expiry (new key)) r.expires_at;
          updated_at = now;
        })
        rows (λ r e f. refreshed-last key r) h

  Stored-cons :
      (s : KeyState) (states : List KeyState) (rows written : List Row)
      → any (is_row s.key c) rows ≡ true
      → Stored states c new (refresh_state s.key c (new s.key) now rows) written
      → Stored (s ∷ states) c new rows written
  Stored-cons s states rows written there rest = record {
    times = λ k d. rest.times k d ∙ rw (stored-one s.key rows there k d) (ground arith);
    one = λ h. rest.one (refreshed-IsUnique s.key rows h);
    last = λ h. rest.last (refreshed-All s.key rows h);
  }

  refreshed-any :
      (key : Key) (rows : List Row) (k : Key) (d : String)
      → any (is_row k d) rows ≡ true
      → any (is_row k d) (refresh_state key c (new key) now rows) ≡ true
  unfolding refresh_state
  refreshed-any key rows k d h =
      any-update key c (new key) (λ r. coalesce (expiry (new key)) r.expires_at) now k d rows ∙ h

  pub write_refused-Stored :
      (states : List KeyState) (rows : List Row)
      → All (λ s. any (is_row s.key c) rows ≡ true) states
      → All (λ s. s.times ≡ new s.key) states
      → Stored states c new rows (write_refused states c now rows)
  unfolding write_refused
  write_refused-Stored [] rows there are = record {
    times = λ k d. refl;
    one = λ h. h;
    last = λ h. h;
  }
  write_refused-Stored (s ∷ states) rows there are =
      subst
        (λ ts.
          Stored (s ∷ states) c new rows
            (write_refused states c now (refresh_state s.key c ts now rows)))
        (sym are.0)
        (Stored-cons s states rows
          (write_refused states c now (refresh_state s.key c (new s.key) now rows)) there.0
          (write_refused-Stored states (refresh_state s.key c (new s.key) now rows)
            (All-imp _ _ states (λ t h. refreshed-any s.key rows t.key c h) there.1) are.1))

pub write_state-refresh :
    (key : Key) (c : String) (times : List ℕ) (now e : ℕ) (rows : List Row)
    → expiry times ≡ some e
    → write_state key c times now rows ≡ ok (refresh_state key c times now rows)
unfolding write_state refresh_state
write_state-refresh key c times now e rows h = rw h

-- The times of a key that has been admitted.
abbrev pub with_now : ℕ → List ℕ → List ℕ
with_now now times = sort_by ltb (times ++ now ∷ [])

module _ (c : String) (now : ℕ) (old : Key → List ℕ)
    (respects : (j k : Key) → same_key j k ≡ true → old j ≡ old k) where
  -- Admission never fails, and stores what it counts.
  pub write_admitted-Stored :
      (states : List KeyState) (rows : List Row)
      → All (λ s. any (is_row s.key c) rows ≡ true) states
      → All (λ s. s.times ≡ old s.key) states
      → (written : List Row) × (write_admitted states c now rows ≡ ok written)
        × Stored states c (λ k. with_now now (old k)) rows written
  unfolding write_admitted
  write_admitted-Stored [] rows there are =
      (rows, refl, record { times = λ k d. refl; one = λ h. h; last = λ h. h })
  write_admitted-Stored (s ∷ states) rows there are =
      let new : Key → List ℕ = λ k. with_now now (old k) in
      let next = refresh_state s.key c (new s.key) now rows in
      let e = expiry-sort_by_append (old s.key) now in
      let rest =
        write_admitted-Stored states next
          (All-imp _ _ states
            (λ t h.
              refreshed-any c now new (λ j k h. ap (with_now now) (respects j k h))
                (λ k. sort_by-IsSorted (old k ++ now ∷ [])) s.key rows t.key c h)
            there.1)
          are.1 in
      (
        rest.0,
        rw (are.0, write_state-refresh s.key c (new s.key) now e.0 rows e.1) rest.1,
        Stored-cons c now new (λ j k h. ap (with_now now) (respects j k h))
            (λ k. sort_by-IsSorted (old k ++ now ∷ [])) s states rows rest.0 there.0 rest.2,
      )
