-- ===== src/Watcher/Backoff.antt =====
-- The waits of cli/cmd/slate/backoff.go, in nanoseconds. The eight bytes that the system draws for
-- the jitter of a wait are an argument. A product of floating-point numbers is taken exactly, and
-- cut off to whole nanoseconds as the source does: rounding moves it by less than one part in 2^50.
pub mod Bounds
use Prim.Native.Char.{code}
use Prim.Native.String
use slate_do.Prelude.{
  ℕ, zero, suc, ◌+◌, ◌-◌, ◌*◌, ◌/◌, ◌%◌, ◌^◌, String, Bool, true, false, ◌&&◌, Option, none, some,
  ltb, leb, ◌==◌, nat_eq, if◌then◌else◌,
}
use slate_do.Watcher.Api.{
  ReadError, canceled, request_build, response_format, unreachable, api, retryable_error,
}

-- A non-negative float64 as a fraction of whole numbers.
pub record Fraction : Type 0 where
  pub over : ℕ
  pub under : ℕ

-- `random` is the function that draws, which is the same everywhere: `random_fraction`.
pub record Backoff : Type 0 where
  pub base : ℕ
  pub ceiling : ℕ
  pub jitter : Fraction
  pub attempts : ℕ

-- `time.Second`
abbrev pub second : ℕ
second = 1000000000

abbrev pub backoff_base : ℕ
backoff_base = 5 * second

abbrev pub backoff_ceiling : ℕ
backoff_ceiling = 60 * second

-- 0.2
abbrev pub backoff_jitter : Fraction
backoff_jitter = record { over = 2; under = 10 }

abbrev pub new_backoff : Backoff
new_backoff = record {
  base = backoff_base;
  ceiling = backoff_ceiling;
  jitter = backoff_jitter;
  attempts = 0;
}

abbrev pub reset : Backoff → Backoff
reset b = record b { attempts = 0 }

-- The loop of `next`: as many doublings as attempts, while the wait is below the ceiling.
unfoldable pub doubled : ℕ → ℕ → ℕ → ℕ
doubled zero wait ceiling = wait
doubled (suc n) wait ceiling = doubled n (if ltb wait ceiling then wait * 2 else wait) ceiling

abbrev pub capped : ℕ → ℕ → ℕ
capped wait ceiling = if ltb ceiling wait then ceiling else wait

-- The wait before jitter.
unfoldable pub base_wait : Backoff → ℕ
unfolding doubled
base_wait b = capped (doubled b.attempts b.base b.ceiling) b.ceiling

-- `randomFraction`, of the eight bytes that were read as one number, or of a read that failed.
abbrev pub random_fraction : Option ℕ → Fraction
random_fraction none = record { over = 0; under = 1 }
random_fraction (some raw) = record { over = raw % 2 ^ 64 / 2 ^ 11; under = 2 ^ 53 }

-- `float64(wait) * jitter * random`, as a duration
unfoldable pub spread_of : ℕ → Fraction → Fraction → ℕ
spread_of wait jitter random = wait * (jitter.over * random.over) / (jitter.under * random.under)

-- `next`
unfoldable pub next : Option ℕ → Backoff → ℕ × Backoff
unfolding base_wait
next drawn b = (
  base_wait b + spread_of (base_wait b) b.jitter (random_fraction drawn),
  record b { attempts = b.attempts + 1 },
)

-- `healthyIdleBounds`
abbrev pub healthy_idle_bounds : ℕ × ℕ
healthy_idle_bounds =
    (backoff_base, backoff_ceiling + backoff_ceiling * backoff_jitter.over / backoff_jitter.under)

abbrev pub max_retry_after : ℕ
max_retry_after = 300 * second

digits : String → ℕ → Option ℕ
digits String.[] n = some n
digits (String.◌∷◌ c s) n =
    let rest = digits s (10 * n + (code c - b'0')) in
    if leb b'0' (code c) && leb (code c) b'9' then rest else none

-- `strconv.Atoi`, where the result is negative, is out of range or is none: no number of seconds.
pub seconds_of : String → Option ℕ
unfolding digits
seconds_of String.[] = none
seconds_of (String.◌∷◌ c String.[]) =
    if leb b'0' (code c) && leb (code c) b'9' then some (code c - b'0') else none
seconds_of (String.◌∷◌ c (String.◌∷◌ d s)) =
    if code c == b'+'
    then digits (String.◌∷◌ d s) 0
    else if code c == b'-'
    then (elim (digits (String.◌∷◌ d s) 0) [
      | none ↦ none
      | some n ↦ if n == 0 then some 0 else none
    ])
    else digits (String.◌∷◌ c (String.◌∷◌ d s)) 0

-- `retryAfterDelay`
abbrev pub delay_of : Option ℕ → Option ℕ
delay_of none = none
delay_of (some seconds) =
    if leb (2 ^ 63) seconds
    then none
    else if ltb 300 seconds
    then some max_retry_after
    else some (seconds * second)

unfoldable pub retry_after_delay : String → Option ℕ
unfolding seconds_of
retry_after_delay value = delay_of (seconds_of value)

-- A hint of the server's that is longer than the wait is kept to.
abbrev pub longer_hint : Option ℕ → ℕ → ℕ
longer_hint none wait = wait
longer_hint (some hinted) wait = if ltb wait hinted then hinted else wait

-- `retryDelay`: no wait where repeating cannot change the answer.
unfoldable pub retry_delay : Option ℕ → ReadError → Backoff → Option ℕ × Backoff
unfolding next retry_after_delay
retry_delay drawn (api status retry_after) failure =
    let (wait, after) = next drawn failure in
    if retryable_error (api status retry_after)
    then (
      some (if status == 429 then longer_hint (retry_after_delay retry_after) wait else wait),
      after,
    )
    else (none, failure)
retry_delay drawn unreachable failure = let (wait, after) = next drawn failure in (some wait, after)
retry_delay drawn canceled failure = (none, failure)
retry_delay drawn request_build failure = (none, failure)
retry_delay drawn response_format failure = (none, failure)
