-- ===== src/Watcher/Backoff/Bounds.antt =====
-- How long the waits of cli/cmd/slate/backoff.go are.
use slate_do.Prelude.{
  ℕ, zero, suc, ◌+◌, ◌*◌, ◌/◌, ◌^◌, ◌≤◌, ◌<◌, min, max, sym, subst, ◌≡◌, refl, ◌∙◌, ap, false,
  Option, none, some, String, ltb, nat_eq, ◌⊎◌, ◌≢◌, Bool-cases, inl, inr, arith,
}
use native.Mathlib.Omega.{pow_step}
use native.Mathlib.Nat.{
  div-mul-le_self, le_of_mul-le-mul_right, mul-le-mul_left, mul_left_comm, mul_assoc,
}
use slate_do.Watcher.Api.{
  canceled, request_build, response_format, unreachable, api, retryable_status,
}
use slate_do.Watcher.Backoff.{
  second, Backoff, backoff_jitter, random_fraction, spread_of, new_backoff, healthy_idle_bounds,
  doubled, capped, base_wait, next, delay_of, seconds_of, retry_after_delay, longer_hint,
  retry_delay,
}

doubled-done : (n wait ceiling : ℕ) → ceiling ≤ wait → doubled n wait ceiling ≡ wait
unfolding doubled
doubled-done zero wait ceiling h = refl
doubled-done (suc n) wait ceiling h = ground (arith, doubled-done n wait ceiling h)

pow-pos : (n : ℕ) → 1 ≤ 2 ^ n
pow-pos zero = omega arith
pow-pos (suc n) = grind (arith, pow-pos n)

-- Capped, the loop that stops early is the doubling that does not.
capped-doubled :
    (n wait ceiling : ℕ) → min (doubled n wait ceiling) ceiling ≡ min (wait * 2 ^ n) ceiling
unfolding doubled
capped-doubled zero wait ceiling = grind arith
capped-doubled (suc n) wait ceiling = elim (Bool-cases (ltb wait ceiling)) [
  | inl below ↦
      rw below (
        capped-doubled n (wait * 2) ceiling ∙ ap (λ x. min x ceiling) (grind (arith, pow_step 2 n)))
  | inr above ↦
      rw (above, doubled-done n wait ceiling (ground (arith, above))) (grind (arith, pow-pos n))
]

capped-min : (wait ceiling : ℕ) → capped wait ceiling ≡ min wait ceiling
capped-min wait ceiling = grind arith

base_wait-min : (b : Backoff) → base_wait b ≡ min (b.base * 2 ^ b.attempts) b.ceiling
unfolding base_wait
base_wait-min b =
    capped-min (doubled b.attempts b.base b.ceiling) b.ceiling
    ∙ capped-doubled b.attempts b.base b.ceiling

-- The fraction that is drawn is below one.
drawn_below_one : (drawn : Option ℕ) → (random_fraction drawn).over < (random_fraction drawn).under
drawn_below_one none = omega arith
drawn_below_one (some raw) = omega arith

cut_product :
    (wait over under : ℕ) → wait * (2 * over) / (10 * under) * (10 * under) ≤ wait * (2 * over)
cut_product wait over under = div-mul-le_self (wait * (2 * over)) (10 * under)

-- A tenth of two, of a fraction below one: a fifth at most.
fifth : (s wait over under : ℕ) → over < under → s * (10 * under) ≤ wait * (2 * over) → s * 5 ≤ wait
fifth s wait over under below h =
    le_of_mul-le-mul_right {k = under}
      (omega (
        arith,
        h,
        mul-le-mul_left wait (le below),
        mul_left_comm wait 2 over,
        mul_left_comm s 10 under,
        mul_assoc s 5 under,
      ))
      (omega (arith, below))
  where
    le : over < under → over ≤ under
    le b = omega (arith, b)

spread_of-fifth :
    (drawn : Option ℕ) (wait : ℕ) → spread_of wait backoff_jitter (random_fraction drawn) * 5 ≤ wait
unfolding spread_of
spread_of-fifth drawn wait =
    let r = random_fraction drawn in
    fifth (wait * (2 * r.over) / (10 * r.under)) wait r.over r.under (drawn_below_one drawn)
      (cut_product wait r.over r.under)

-- A backoff with the watcher's jitter, within its bounds.
next-within :
    (drawn : Option ℕ) (b : Backoff)
    → b.base ≤ b.ceiling
    → b.jitter ≡ backoff_jitter
    → (min (b.base * 2 ^ b.attempts) b.ceiling ≤ (next drawn b).0)
      × ((next drawn b).0 * 5 ≤ min (b.base * 2 ^ b.attempts) b.ceiling * 6)
      × (b.base ≤ (next drawn b).0)
      × ((next drawn b).0 * 5 ≤ b.ceiling * 6)
unfolding next
next-within drawn b low jitter =
    let wait = base_wait-min b in
    let added : spread_of (base_wait b) b.jitter (random_fraction drawn) * 5 ≤ base_wait b =
      subst (λ j. spread_of (base_wait b) j (random_fraction drawn) * 5 ≤ base_wait b) (sym jitter)
        (spread_of-fifth drawn (base_wait b)) in
    let floor : b.base ≤ min (b.base * 2 ^ b.attempts) b.ceiling =
      grind (arith, pow-pos b.attempts) in
    let top : min (b.base * 2 ^ b.attempts) b.ceiling ≤ b.ceiling = grind arith in
    (
      omega (arith, wait, added),
      omega (arith, wait, added),
      omega (arith, wait, added, floor),
      omega (arith, wait, added, top),
    )

-- A wait is the base doubled once for each attempt and cut off at the ceiling, and a fifth of it at
-- most on top: never shorter than the base, and never longer than the ceiling and a fifth of it, for
-- a backoff whose base is within its ceiling and whose jitter is the watcher's, whatever is drawn.
-- Every wait counts as an attempt. So a wait of the watcher's own backoff, after any number of
-- attempts, is within the bounds of a healthy idle poll: 5 to 72 seconds.
pub next-bounds :
    (drawn : Option ℕ) (b : Backoff)
    → b.base ≤ b.ceiling
    → b.jitter ≡ backoff_jitter
    → (min (b.base * 2 ^ b.attempts) b.ceiling ≤ (next drawn b).0)
      × ((next drawn b).0 * 5 ≤ min (b.base * 2 ^ b.attempts) b.ceiling * 6)
      × (b.base ≤ (next drawn b).0)
      × ((next drawn b).0 * 5 ≤ b.ceiling * 6)
      × ((next drawn b).1 ≡ record b { attempts = b.attempts + 1 })
      × ((n : ℕ)
          → (healthy_idle_bounds.0 ≤ (next drawn (record new_backoff { attempts = n })).0)
            × ((next drawn (record new_backoff { attempts = n })).0 ≤ healthy_idle_bounds.1))
unfolding next
next-bounds drawn b low jitter =
    let (least, most, floor, top) = next-within drawn b low jitter in
    (least, most, floor, top, refl, healthy)
  where
    healthy :
        (n : ℕ)
        → (healthy_idle_bounds.0 ≤ (next drawn (record new_backoff { attempts = n })).0)
          × ((next drawn (record new_backoff { attempts = n })).0 ≤ healthy_idle_bounds.1)
    healthy n =
        let (least, most, floor, top) =
          next-within drawn (record new_backoff { attempts = n }) (omega arith) refl in
        (floor, omega (arith, top))

-- What a failed read leads to, error by error.
pub record Retries (drawn : Option ℕ) (failure : Backoff) : Type 0 where
  pub stopped : retry_delay drawn canceled failure ≡ (none, failure)
  pub bad_address : retry_delay drawn request_build failure ≡ (none, failure)
  pub bad_reply : retry_delay drawn response_format failure ≡ (none, failure)
  pub decided :
      (status : ℕ) (hint : String)
      → status ≢ 429
      → status ≢ 500
      → status ≢ 502
      → status ≢ 503
      → status ≢ 504
      → retry_delay drawn (api status hint) failure ≡ (none, failure)
  pub no_answer :
      retry_delay drawn unreachable failure ≡ (some (next drawn failure).0, (next drawn failure).1)
  pub server_error :
      (status : ℕ) (hint : String)
      → (status ≡ 500) ⊎ (status ≡ 502) ⊎ (status ≡ 503) ⊎ (status ≡ 504)
      → retry_delay drawn (api status hint) failure
        ≡ (some (next drawn failure).0, (next drawn failure).1)
  pub limited :
      (hint : String) (seconds : ℕ)
      → seconds_of hint ≡ some seconds
      → seconds < 2 ^ 63
      → retry_delay drawn (api 429 hint) failure
        ≡ (some (max (next drawn failure).0 (min seconds 300 * second)), (next drawn failure).1)
  pub no_hint :
      (hint : String)
      → seconds_of hint ≡ none
      → retry_delay drawn (api 429 hint) failure
        ≡ (some (next drawn failure).0, (next drawn failure).1)

delay_of-some :
    (seconds : ℕ) → seconds < 2 ^ 63 → delay_of (some seconds) ≡ some (min seconds 300 * second)
delay_of-some seconds h = ground arith

longer_hint-max : (d wait : ℕ) → longer_hint (some d) wait ≡ max wait d
longer_hint-max d wait = grind arith

not_retried :
    (status : ℕ)
    → status ≢ 429
    → status ≢ 500
    → status ≢ 502
    → status ≢ 503
    → status ≢ 504
    → retryable_status status ≡ false
not_retried status a b c d e = ground arith

-- Which failed reads are waited out, and for how long. A read that was stopped, that had a bad
-- address, or that got a reply that is not the API's, and one that the server decided with a status
-- other than 429, 500, 502, 503 and 504, is not repeated, and the backoff is as it was. A read
-- without an answer, or with 500, 502, 503 or 504, waits for what the backoff says, whatever the
-- server hints, and counts as an attempt. With 429 the server's seconds, below 2^63 and no more than
-- 300 of them, are kept to when they are longer than the backoff's wait.
pub retry_delay-bounds : (drawn : Option ℕ) (failure : Backoff) → Retries drawn failure
unfolding retry_delay
retry_delay-bounds drawn failure = record {
  stopped = refl;
  bad_address = refl;
  bad_reply = refl;
  decided = λ status hint a b c d e. rw (not_retried status a b c d e) refl;
  no_answer = refl;
  server_error = λ status hint which. either status hint which;
  limited = λ hint seconds known small.
      let hinted : retry_after_delay hint ≡ some (min seconds 300 * second) =
        ap delay_of known ∙ delay_of-some seconds small in
      ap (λ o. (some (longer_hint o (next drawn failure).0), (next drawn failure).1)) hinted
      ∙ ap (λ w. (some w, (next drawn failure).1))
          (longer_hint-max (min seconds 300 * second) (next drawn failure).0);
  no_hint = λ hint none_given.
      ap (λ o. (some (longer_hint o (next drawn failure).0), (next drawn failure).1))
        (ap delay_of none_given);
}
  where
    either :
        (status : ℕ) (hint : String)
        → (status ≡ 500) ⊎ (status ≡ 502) ⊎ (status ≡ 503) ⊎ (status ≡ 504)
        → retry_delay drawn (api status hint) failure
          ≡ (some (next drawn failure).0, (next drawn failure).1)
    either status hint (inl e) = rw e refl
    either status hint (inr (inl e)) = rw e refl
    either status hint (inr (inr (inl e))) = rw e refl
    either status hint (inr (inr (inr e))) = rw e refl
