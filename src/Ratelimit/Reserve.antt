-- ===== src/Ratelimit/Reserve.antt =====
-- The reservations of server/internal/ratelimit/ratelimit.go: a slot of a credential is taken
-- before it is known whose it is, and then kept with a slot of its account, or given back.
pub mod Slots
pub mod Undo
pub mod Settle
use slate_do.Prelude.{
  ℕ, ◌+◌, String, Bool, true, false, not, ◌&&◌, ◌||◌, Option, none, some, List, [], ◌∷◌, ◌++◌, find,
  any, length, ltb, ◌==◌, nat_eq, string_eq, if◌then◌else◌, ok, err, or_fail, refuse_if, ◌>>=◌,
  ◌>>◌,
}
use slate_do.Prelude.Int.{pos, sub_ℕ, ◌+ℤ◌, negate}
use slate_do.Ratelimit.Window.{second, retry_after}
use slate_do.Ratelimit.Keys.{Key, scope_account, scope_credential, normalized_keys, metric_shard}
use slate_do.Ratelimit.Tables.{
  Row, Tables, Limited, credential_key_required, account_key_required, outcome_required,
  reservation_required, index_out_of_range, outcome_allowed, outcome_rejected, is_row, route_limit,
  locked_state, write_state, refresh_state, record_metric,
}
use slate_do.Ratelimit.Allow.{Decision, Transaction, positive_wait, swept}

-- A zero time is none.
pub record CredentialReservation : Type 0 where
  pub scope : String
  pub key_hash : String
  pub route_class : String
  pub recorded_at : Option ℕ
  pub decision : Decision

abbrev pub no_decision : Decision
no_decision = record { allowed = false; limit = 0; remaining = pos 0; retry_after = pos 0 }

abbrev pub no_reservation : CredentialReservation
no_reservation = record {
  scope = "";
  key_hash = "";
  route_class = "";
  recorded_at = none;
  decision = no_decision;
}

abbrev is_some {ℓ} : {A : Type ℓ} → Option A → Bool
is_some none = false
is_some (some a) = true

-- `Active`
abbrev pub is_reserved : CredentialReservation → Bool
is_reserved r = not (r.scope == "") && not (r.key_hash == "") && is_some r.recorded_at

-- The one key of a call, which has the scope that it wants.
abbrev pub only_key : String → Key → List Key → Option Key
only_key scope key [] = none
only_key scope key (k ∷ []) = if k.scope == scope then some k else none
only_key scope key (k ∷ j ∷ keys) = none

abbrev pub normalized_key : Transaction → String → Key → Option Key
normalized_key t scope key = only_key scope key (normalized_keys t.hash_key (key ∷ []))

-- The decision on one key's active times.
abbrev pub with_room : ℕ → List ℕ → Decision
with_room limit active = record {
  allowed = true;
  limit = limit;
  remaining = sub_ℕ limit (length active) +ℤ negate 1;
  retry_after = pos 0;
}

unfoldable pub without_room : ℕ → List ℕ → ℕ → Limited Decision
without_room limit active now = do
  retry ← or_fail (retry_after active limit now) index_out_of_range
  ok (record {
    allowed = false;
    limit = limit;
    remaining = pos 0;
    retry_after = positive_wait retry;
  })

unfoldable pub take_slot :
    Transaction
    → Tables
    → Key
    → String
    → ℕ
    → List Row
    → List ℕ
    → Limited (CredentialReservation × Decision × Tables)
take_slot t db key route_class limit found active = do
  written ← write_state key route_class (active ++ t.now ∷ []) t.now found
  ok (
    record {
      scope = key.scope;
      key_hash = key.value;
      route_class = route_class;
      recorded_at = some t.now;
      decision = with_room limit active;
    },
    with_room limit active,
    record db { rows = written },
  )

unfoldable pub no_slot :
    Transaction
    → Tables
    → ℕ
    → List Row
    → List ℕ
    → Limited (CredentialReservation × Decision × Tables)
unfolding without_room
no_slot t db limit found active = do
  decision ← without_room limit active t.now
  ok (no_reservation, decision, record db { rows = found })

unfoldable pub reserve_credential :
    Transaction → Tables → Key → String → Limited (CredentialReservation × Decision × Tables)
unfolding take_slot no_slot
reserve_credential t db key route_class = do
  credential ← or_fail (normalized_key t scope_credential key) credential_key_required
  limit ← route_limit db route_class
  let state = locked_state credential route_class t.now (swept t db.rows)
  if ltb (length state.1) limit
      then take_slot t db credential route_class limit state.0 state.1
      else no_slot t db limit state.0 state.1

-- The last of the times that is the given one goes.
unfoldable pub remove_last : ℕ → List ℕ → List ℕ
remove_last t [] = []
remove_last t (u ∷ times) =
    let rest = u ∷ remove_last t times in
    if any (λ v. v == t) times then rest else if u == t then times else u ∷ times

abbrev pub key_of : CredentialReservation → Key
key_of r = record { scope = r.scope; value = r.key_hash }

-- A reservation whose row is gone has nothing to give back.
abbrev pub given_back : CredentialReservation → ℕ → List Row → Option Row → List Row
given_back r recorded_at rows none = rows
given_back r recorded_at rows (some row) =
    refresh_state (key_of r) r.route_class (remove_last recorded_at row.request_times) recorded_at
      rows

unfoldable pub remove_reservation : CredentialReservation → ℕ → List Row → List Row
unfolding remove_last
remove_reservation r recorded_at rows =
    given_back r recorded_at rows (find (is_row (key_of r) r.route_class) rows)

unfoldable pub charge_account :
    Transaction
    → Tables
    → CredentialReservation
    → Key
    → ℕ
    → List Row
    → List ℕ
    → Limited (Decision × Tables)
charge_account t db r account limit found active = do
  written ← write_state account r.route_class (active ++ t.now ∷ []) t.now found
  ok (
    with_room limit active,
    record db {
      rows = written;
      metrics =
          record_metric t.now r.route_class outcome_allowed (metric_shard (account ∷ []))
            db.metrics;
    },
  )

unfoldable pub release_slot :
    Transaction
    → Tables
    → CredentialReservation
    → Key
    → ℕ
    → ℕ
    → List Row
    → List ℕ
    → Limited (Decision × Tables)
unfolding without_room remove_reservation
release_slot t db r account recorded_at limit found active = do
  decision ← without_room limit active t.now
  ok (
    decision,
    record db {
      rows = remove_reservation r recorded_at found;
      metrics =
          record_metric t.now r.route_class outcome_rejected (metric_shard (account ∷ []))
            db.metrics;
    },
  )

unfoldable pub finalize_account :
    Transaction → Tables → CredentialReservation → ℕ → Key → Limited (Decision × Tables)
unfolding charge_account release_slot
finalize_account t db r recorded_at key = do
  account ← or_fail (normalized_key t scope_account key) account_key_required
  limit ← route_limit db r.route_class
  let state = locked_state account r.route_class t.now db.rows
  if ltb (length state.1) limit
      then charge_account t db r account limit state.0 state.1
      else release_slot t db r account recorded_at limit state.0 state.1

-- Without an account the reservation stands, with the decision that it was made by.
unfoldable pub finalize_credential :
    Transaction → Tables → CredentialReservation → Option Key → Limited (Decision × Tables)
unfolding finalize_account
finalize_credential t db r account = do
  refuse_if (not (is_reserved r)) reservation_required
  recorded_at ← or_fail r.recorded_at reservation_required
  elim account [ none ↦ ok (r.decision, db) | some key ↦ finalize_account t db r recorded_at key ]

unfoldable pub cancel_credential : Tables → CredentialReservation → Tables
unfolding remove_reservation
cancel_credential db r = elim r.recorded_at [
  | none ↦ db
  | some recorded_at ↦
      if is_reserved r then record db { rows = remove_reservation r recorded_at db.rows } else db
]

unfoldable pub record_credential_outcome :
    Transaction → Tables → Key → String → String → Limited Tables
record_credential_outcome t db key route_class outcome = do
  credential ← or_fail (normalized_key t scope_credential key) credential_key_required
  refuse_if (not (outcome == outcome_allowed || outcome == outcome_rejected)) outcome_required
  ok (record db {
    metrics = record_metric t.now route_class outcome (metric_shard (credential ∷ [])) db.metrics;
  })
