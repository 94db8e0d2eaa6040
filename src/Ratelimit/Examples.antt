-- ===== src/Ratelimit/Examples.antt =====
-- Requests of one account and one credential under a limit of two reads a minute, as
-- server/internal/ratelimit/ratelimit.go serves them.
use slate_do.Prelude.{
  ℕ, any, ◌==◌, nat_eq, ◌≤◌, ◌+◌, ◌-◌, ◌*◌, String, ◌≡◌, ◌↔◌, ◌⊎◌, ltb, not, ◌&&◌, refl, true,
  false, some, List, [], ◌∷◌, ok, err, arith, string_eq, if◌then◌else◌,
}
use slate_do.Prelude.Int.{pos, sub_ℕ, ◌≤ℤ◌}
use slate_do.Prelude.Sort.{sort_by}
use slate_do.Ratelimit.Window.{
  second, active_times, expiry, retry_after, retry_after_seconds, is_active,
}
use slate_do.Ratelimit.Keys.{Key, normalized_keys, metric_shard}
use slate_do.Ratelimit.Keys.Once.{Normalized, normalized_keys-once}
use slate_do.Ratelimit.Tables.{
  Settings, Tables, Limited, route_limit, locked_state, write_state, refresh_state, times_at,
  delete_expired_state, record_metric,
}
use slate_do.Ratelimit.Allow.{
  Transaction, Decision, allow, allow_keys, load_states, decide, weigh, refuse_for, write_admitted,
  write_refused, swept,
}
use slate_do.Ratelimit.Allow.Outcome.{recent}
use slate_do.Ratelimit.Tables.Times.{same_slot}
use slate_do.Ratelimit.Retry.{IsSound, retry_after-exact, retry_after_seconds-covers}
use slate_do.Ratelimit.Sliding.{Request, World, serve, served, answers, sliding_answers}
use slate_do.Ratelimit.Sliding.Refines.{
  Agrees, serve-Agrees, fresh-Matches, answers-eq-sliding_answers,
}
use slate_do.Ratelimit.Sliding.Bounds.{in_minute, admissions-le-limit}
use slate_do.Ratelimit.Reserve.{
  CredentialReservation, no_reservation, no_decision, is_reserved, reserve_credential,
  cancel_credential, finalize_credential, key_of,
}
use slate_do.Ratelimit.Reserve.Undo.{cancel_credential-undoes}
use slate_do.Ratelimit.Reserve.Settle.{holds, finalize_credential-settles}

abbrev got : {A : Type 0} → Limited A → A → A
got (ok a) other = a
got (err e) other = other

abbrev ann : Key
ann = record { scope = "account"; value = "a1" }

abbrev card : Key
card = record { scope = "credential"; value = "c1" }

abbrev settings : Settings
settings = record {
  authenticated_read_limit = 2;
  authenticated_write_limit = 1;
  public_auth_limit = 1;
}

abbrev empty : Tables
empty = record { settings = some settings; rows = []; metrics = [] }

abbrev reads : String
reads = "authenticated_read"

abbrev at : ℕ → Transaction
at n = record {
  hash_key = λ scope value. value;
  cleanup_expired = true;
  now = n;
  held = λ r. false;
}

abbrev asks : ℕ → Request
asks n = record { transaction = at n; keys = ann ∷ card ∷ ann ∷ []; route_class = reads }

abbrev start : World
start = record { tables = empty; log = [] }

-- Two reads, a third within the minute, and one when the first has left it.
abbrev visits : List Request
visits = asks 10 ∷ asks 20 ∷ asks 30 ∷ asks 60000010 ∷ []

visits-answers : answers start visits ≡ some true ∷ some true ∷ some false ∷ some true ∷ []
unfolding answers allow allow_keys normalized_keys sort_by load_states locked_state active_times
    decide weigh refuse_for retry_after write_admitted write_state expiry write_refused
    refresh_state delete_expired_state record_metric route_limit metric_shard
visits-answers = refl

limits_positive : (c : String) (n : ℕ) → route_limit empty c ≡ ok n → 1 ≤ n
unfolding route_limit
limits_positive c n h = ground (arith, h)

answers-eq-sliding_answers_example :
    answers start visits ≡ sliding_answers (route_limit empty) [] visits
answers-eq-sliding_answers_example =
    answers-eq-sliding_answers empty visits refl limits_positive (omega arith)

admissions-le-limit_example : in_minute (served start visits).log ann reads 30 ≤ 2
unfolding route_limit
admissions-le-limit_example =
    admissions-le-limit empty visits ann reads 30 2 refl limits_positive (omega arith) refl

normalized_keys-once_example :
    Normalized
      (λ scope value. value)
      (ann ∷ card ∷ ann ∷ [])
      (normalized_keys (λ scope value. value) (ann ∷ card ∷ ann ∷ []))
normalized_keys-once_example = normalized_keys-once (λ scope value. value) (ann ∷ card ∷ ann ∷ [])

first : World
first = (serve start (asks 10)).0

busy : World
busy = (serve first (asks 20)).0

first-Agrees : Agrees start (asks 10)
first-Agrees =
    serve-Agrees start (asks 10) 0 (omega arith) (fresh-Matches empty refl limits_positive)

busy-IsSound : IsSound busy.tables
unfolding first busy
busy-IsSound = (serve-Agrees first (asks 20) 10 (omega arith) first-Agrees.matches).matches.sound

refusal : Decision × Tables
unfolding first busy allow allow_keys normalized_keys sort_by load_states locked_state active_times
    decide weigh refuse_for retry_after write_admitted write_state expiry write_refused
    refresh_state delete_expired_state record_metric route_limit metric_shard
refusal = got (allow (at 30) busy.tables (ann ∷ card ∷ []) reads) (no_decision, empty)

refusal-ok : allow (at 30) busy.tables (ann ∷ card ∷ []) reads ≡ ok (refusal.0, refusal.1)
unfolding refusal
refusal-ok = refl

refusal_refused : refusal.0.allowed ≡ false
unfolding refusal
refusal_refused = refl

-- The wait is from the third request to the end of the first one's minute.
refusal_wait : refusal.0.retry_after ≡ pos 59999980
unfolding refusal
refusal_wait = refl

retry_after-exact_example :
    (e : Decision) × (later : Tables) × (allow (at 60000010) refusal.1 (ann ∷ card ∷ []) reads
      ≡ ok (e, later))
    × ((e.allowed ≡ true) ↔ (refusal.0.retry_after ≤ℤ sub_ℕ 60000010 30))
retry_after-exact_example =
    retry_after-exact (at 30) busy.tables (ann ∷ card ∷ []) reads refusal.0 refusal.1 (at 60000010)
      busy-IsSound refusal-ok refusal_refused refl (omega arith)

retry_after_seconds-covers_example :
    (pos 1000001 ≤ℤ pos (retry_after_seconds (pos 1000001) * second))
    × (1 ≤ retry_after_seconds (pos 1000001))
    × ((retry_after_seconds (pos 1000001) ≡ 1)
        ⊎ (pos ((retry_after_seconds (pos 1000001) - 1) * second + 1) ≤ℤ pos 1000001))
retry_after_seconds-covers_example = retry_after_seconds-covers (pos 1000001)

reserved : CredentialReservation × Decision × Tables
unfolding reserve_credential normalized_keys sort_by locked_state active_times write_state expiry
    delete_expired_state route_limit swept
reserved = got (reserve_credential (at 10) empty card reads) (no_reservation, no_decision, empty)

reserved-ok : reserve_credential (at 10) empty card reads ≡ ok (reserved.0, reserved.1, reserved.2)
unfolding reserved
reserved-ok = refl

reserved_active : is_reserved reserved.0 ≡ true
unfolding reserved
reserved_active = refl

cancel_credential-undoes_example :
    (recent card reads 10 (cancel_credential reserved.2 reserved.0).rows ≡ recent card reads 10 [])
    × ((later : Tables)
        → recent card reads 10 (cancel_credential later reserved.0).rows
            + (if (same_slot card reads (key_of reserved.0) reserved.0.route_class
                    && any (λ v. v == 10) (times_at card reads later.rows))
                  && is_active 10 10
                then 1
                else 0)
          ≡ recent card reads 10 later.rows)
cancel_credential-undoes_example =
    cancel_credential-undoes (at 10) empty card reads reserved.0 reserved.1 reserved.2 card reads 10
      (fresh-Matches empty refl limits_positive).sound reserved-ok reserved_active (omega arith)

settled : Decision × Tables
unfolding finalize_credential reserved record_metric metric_shard
settled = got (finalize_credential (at 12) reserved.2 reserved.0 (some ann)) (no_decision, empty)

settled-ok :
    finalize_credential (at 12) reserved.2 reserved.0 (some ann) ≡ ok (settled.0, settled.1)
unfolding settled
settled-ok = refl

reserved_at : reserved.0.recorded_at ≡ some 10
unfolding reserved
reserved_at = refl

finalize_credential-settles_example :
    (limit : ℕ) × (route_limit reserved.2 reserved.0.route_class ≡ ok limit)
    × (settled.0.allowed ≡ ltb (recent ann reserved.0.route_class 12 reserved.2.rows) limit)
    × (recent ann reads 12 settled.1.rows
          + (if not settled.0.allowed
                && (holds reserved.0 10 reserved.2.rows ann reads && is_active 12 10)
              then 1
              else 0)
        ≡ recent ann reads 12 reserved.2.rows
          + (if settled.0.allowed
                && (same_slot ann reads ann reserved.0.route_class && is_active 12 12)
              then 1
              else 0))
unfolding normalized_keys sort_by
finalize_credential-settles_example =
    finalize_credential-settles (at 12) reserved.2 reserved.0 10 ann ann settled.0 settled.1 ann
      reads 12 reserved_at refl settled-ok (omega arith)
