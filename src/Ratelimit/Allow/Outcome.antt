-- ===== src/Ratelimit/Allow/Outcome.antt =====
-- The answer of `Allow` in server/internal/ratelimit/ratelimit.go, and the times that it leaves,
-- over the times that were active before.
use slate_do.Prelude.{
  ℕ, ◌+◌, ◌≤◌, ◌<◌, ◌≡◌, ◌↔◌, refl, ◌∙◌, ap, String, Bool, true, false, ◌&&◌, List, [], ◌∷◌, map,
  any, length, count_where, All, ◌==◌, string_eq, ltb, if◌then◌else◌, Bool-cases, inl, inr, arith,
}
use slate_do.Prelude.Int.{sub_ℕ, ◌≤ℤ◌}
use slate_do.Prelude.Counting.{count-implies-le}
use slate_do.Ratelimit.Window.{is_active, active_times}
use slate_do.Ratelimit.Window.Order.{count-active_times, length-active_times}
use slate_do.Ratelimit.Keys.{Key, same_key}
use slate_do.Ratelimit.Tables.{Row, Tables, times_at}
use slate_do.Ratelimit.Tables.Expired.{
  IsUnique, ExpiresLast, recent-delete_expired_state, delete_expired_state-IsUnique,
  delete_expired_state-ExpiresLast,
}
use slate_do.Ratelimit.Allow.{Decision, Transaction, KeyState, swept}
use slate_do.Ratelimit.Allow.Decide.{every}

-- How many requests of a key and a class are active at a moment.
abbrev pub recent : Key → String → ℕ → List Row → ℕ
recent k c m rows = count_where (is_active m) (times_at k c rows)

abbrev pub has_room : ℕ → String → ℕ → List Row → Key → Bool
has_room limit c m rows k = ltb (recent k c m rows) limit

pub swept-recent :
    (t : Transaction) (m : ℕ) (k : Key) (c : String) (rows : List Row)
    → t.now ≤ m
    → IsUnique rows
    → All ExpiresLast rows
    → recent k c m (swept t rows) ≡ recent k c m rows
unfolding swept
swept-recent t m k c rows later one last = elim (Bool-cases t.cleanup_expired) [
  | inl e ↦ rw e (recent-delete_expired_state t.now m t.held k c rows later one last)
  | inr e ↦ rw e refl
]

pub swept-IsUnique : (t : Transaction) (rows : List Row) → IsUnique rows → IsUnique (swept t rows)
unfolding swept
swept-IsUnique t rows one = elim (Bool-cases t.cleanup_expired) [
  | inl e ↦ rw e (delete_expired_state-IsUnique t.now t.held rows one)
  | inr e ↦ rw e one
]

pub swept-ExpiresLast :
    (t : Transaction) (rows : List Row) → All ExpiresLast rows → All ExpiresLast (swept t rows)
unfolding swept
swept-ExpiresLast t rows last = elim (Bool-cases t.cleanup_expired) [
  | inl e ↦ rw e (delete_expired_state-ExpiresLast t.now t.held rows last)
  | inr e ↦ rw e last
]

module _ (limit : ℕ) (c : String) (now : ℕ) (rows : List Row) where
  abbrev pub IsActive : KeyState → Type 0
  IsActive s = s.times ≡ active_times now (times_at s.key c rows)

  pub every-states :
      (states : List KeyState)
      → All IsActive states
      → every (λ s. ltb (length s.times) limit) states
        ≡ every (has_room limit c now rows) (map (λ s. s.key) states)
  every-states [] h = refl
  every-states (s ∷ states) h =
      let len : length s.times ≡ recent s.key c now rows =
        ap length h.0 ∙ length-active_times now (times_at s.key c rows) in
      rw (len, every-states states h.1)

  -- The waits that a decision takes the longest of end when every key has room.
  pub waits-states :
      (m : ℕ) (states : List KeyState)
      → now ≤ m
      → All IsActive states
      → All (λ s. limit ≤ length s.times → count_where (is_active m) s.times < limit) states
        ↔ (every (has_room limit c m rows) (map (λ s. s.key) states) ≡ true)
  waits-states m [] later h = (λ _. refl, λ _. tt)
  waits-states m (s ∷ states) later h =
      let len : length s.times ≡ recent s.key c now rows =
        ap length h.0 ∙ length-active_times now (times_at s.key c rows) in
      let fewer : recent s.key c m rows ≤ recent s.key c now rows =
        count-implies-le (is_active m) (is_active now) (times_at s.key c rows)
          (λ t a. ground (arith, a, later)) in
      let same : count_where (is_active m) s.times ≡ recent s.key c m rows =
        ap (count_where (is_active m)) h.0
        ∙ count-active_times now m (times_at s.key c rows) later in
      let rest = waits-states m states later h.1 in
      (
        λ all. ground (arith, all.0, rest.0 all.1, len, fewer, same),
        λ room. ((λ le. ground (arith, room, same)), rest.1 (ground (arith, room))),
      )

-- What `Allow` answers and stores.
pub record Served (limit : ℕ) (t : Transaction) (db : Tables) (keys : List Key) (c : String)
    (d : Decision) (after : Tables) : Type 0 where
  pub decided : d.allowed ≡ every (has_room limit c t.now db.rows) keys
  pub counted :
      (k : Key) (e : String) (m : ℕ)
      → t.now ≤ m
      → recent k e m after.rows
        ≡ recent k e m db.rows
          + (if d.allowed && ((any (same_key k) keys && e == c) && is_active m t.now) then 1 else 0)
  pub waits :
      d.allowed ≡ false
      → (m : ℕ) → t.now ≤ m
      → (d.retry_after ≤ℤ sub_ℕ m t.now) ↔ (every (has_room limit c m db.rows) keys ≡ true)
  pub settings : after.settings ≡ db.settings
  pub one : IsUnique after.rows
  pub last : All ExpiresLast after.rows
