-- ===== src/Ratelimit/Tables/Expired.antt =====
-- The clean-up of expired rows, `deleteExpiredState` of server/internal/ratelimit/ratelimit.go:
-- it forgets no active time.
use slate_do.Prelude.{
  ℕ, ◌+◌, ◌≤◌, ◌≡◌, refl, String, Bool, false, List, [], ◌∷◌, keep, count_where, All, All-keep,
  Bool-cases, inl, inr, arith,
}
use slate_do.Prelude.Counting.{count-keep-le}
use slate_do.Ratelimit.Window.{window, is_active}
use slate_do.Ratelimit.Keys.{Key}
use slate_do.Ratelimit.Tables.{Row, is_row, times_at, delete_expired_state}
use slate_do.Ratelimit.Tables.Times.{times_at-cons}

-- One row at most for a key and a class.
abbrev pub IsUnique : List Row → Type 0
IsUnique rows = (k : Key) (c : String) → count_where (is_row k c) rows ≤ 1

-- A row expires no sooner than any of its times.
abbrev pub ExpiresLast : Row → Type 0
ExpiresLast r = All (λ t. t + window ≤ r.expires_at) r.request_times

pub times_at-none :
    (k : Key) (c : String) (rows : List Row)
    → count_where (is_row k c) rows ≡ 0
    → times_at k c rows ≡ []
unfolding times_at
times_at-none k c [] h = refl
times_at-none k c (r ∷ rows) h = ground (arith, times_at-none k c rows)

inactive :
    (m e : ℕ) (times : List ℕ)
    → e ≤ m
    → All (λ t. t + window ≤ e) times
    → count_where (is_active m) times ≡ 0
inactive m e [] h k = refl
inactive m e (t ∷ times) h k = ground (arith, k.0, inactive m e times h k.1)

module _ (p : Row → Bool) (now m : ℕ) (later : now ≤ m)
    (old : (r : Row) → p r ≡ false → r.expires_at ≤ now) where
  recent-keep :
      (k : Key) (c : String) (rows : List Row)
      → count_where (is_row k c) rows ≤ 1
      → All ExpiresLast rows
      → count_where (is_active m) (times_at k c (keep p rows))
        ≡ count_where (is_active m) (times_at k c rows)
  recent-keep k c [] one last = refl
  recent-keep k c (r ∷ rows) one last = elim (Bool-cases (p r)) [
    | inl kept ↦ elim (Bool-cases (is_row k c r)) [
      | inl e ↦ rw (kept, times_at-cons k c, times_at-cons k c r rows, e) refl
      | inr e ↦
          rw (kept, times_at-cons k c, times_at-cons k c r rows, e)
            (recent-keep k c rows (ground (arith, one)) last.1)
    ]
    | inr gone ↦ elim (Bool-cases (is_row k c r)) [
      | inl e ↦
          let none_left : count_where (is_row k c) (keep p rows) ≡ 0 =
            ground (arith, one, e, count-keep-le (is_row k c) p rows) in
          rw (gone, times_at-cons k c r rows, e, times_at-none k c (keep p rows) none_left)
            (ground (arith, inactive m r.expires_at r.request_times, old r gone, last.0))
      | inr e ↦
          rw (gone, times_at-cons k c r rows, e) (recent-keep k c rows (ground (arith, one)) last.1)
    ]
  ]

-- From now on every key has as many active times as without the clean-up.
pub recent-delete_expired_state :
    (now m : ℕ) (held : Row → Bool) (k : Key) (c : String) (rows : List Row)
    → now ≤ m
    → IsUnique rows
    → All ExpiresLast rows
    → count_where (is_active m) (times_at k c (delete_expired_state now held rows))
      ≡ count_where (is_active m) (times_at k c rows)
unfolding delete_expired_state
recent-delete_expired_state now m held k c rows later one last =
    recent-keep _ now m later (λ r gone. ground (arith, gone)) k c rows (one k c) last

pub delete_expired_state-IsUnique :
    (now : ℕ) (held : Row → Bool) (rows : List Row)
    → IsUnique rows
    → IsUnique (delete_expired_state now held rows)
unfolding delete_expired_state
delete_expired_state-IsUnique now held rows one k c =
    omega (arith, one k c, count-keep-le (is_row k c) _ rows)

pub delete_expired_state-ExpiresLast :
    (now : ℕ) (held : Row → Bool) (rows : List Row)
    → All ExpiresLast rows
    → All ExpiresLast (delete_expired_state now held rows)
unfolding delete_expired_state
delete_expired_state-ExpiresLast now held rows last = All-keep ExpiresLast _ rows last
