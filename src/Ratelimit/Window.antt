-- ===== src/Ratelimit/Window.antt =====
-- The times that a limiter row holds, of server/internal/ratelimit/ratelimit.go: which are
-- active, when the row expires, and how long a rejected request waits. Times and durations are
-- whole microseconds, as the database keeps them.
pub mod Order
use mathlib.Core.Option.{map as map_option}
use slate_do.Prelude.{
  ℕ, zero, suc, ◌+◌, ◌-◌, ◌/◌, max, Bool, Option, none, some, List, [], ◌∷◌, length, keep, ltb,
  if◌then◌else◌,
}
use slate_do.Prelude.Int.{ℤ, pos, negsuc, sub_ℕ}
use slate_do.Prelude.Sort.{sort_by}

-- `time.Second` and `window`
abbrev pub second : ℕ
second = 1000000

abbrev pub window : ℕ
window = 60000000

-- `requestTime.After(now.Add(-window))`
abbrev pub is_active : ℕ → ℕ → Bool
is_active now t = ltb now (t + window)

-- The active times, oldest first.
unfoldable pub active_times : ℕ → List ℕ → List ℕ
active_times now recorded = sort_by ltb (keep (is_active now) recorded)

abbrev pub get_elem? {ℓ} : {A : Type ℓ} → List A → ℕ → Option A
get_elem? [] i = none
get_elem? (x ∷ xs) zero = some x
get_elem? (x ∷ xs) (suc i) = get_elem? xs i

-- `nil` for no times, or the last time with the window added.
unfoldable pub expiry : List ℕ → Option ℕ
expiry [] = none
expiry (t ∷ []) = some (t + window)
expiry (t ∷ u ∷ times) = expiry (u ∷ times)

-- `none` is an index out of range.
unfoldable pub retry_after : List ℕ → ℕ → ℕ → Option ℤ
retry_after times limit now =
    if ltb (length times) limit
    then none
    else map_option (λ t. sub_ℕ (t + window) now) (get_elem? times (length times - limit))

-- Whole seconds, rounded up, and one at least.
unfoldable pub retry_after_seconds : ℤ → ℕ
retry_after_seconds (pos d) = max 1 ((d + 999999) / 1000000)
retry_after_seconds (negsuc d) = 1
