-- ===== src/Ratelimit/Tables.antt =====
-- The limiter's tables and the statements on them, of server/internal/ratelimit/ratelimit.go. Two
-- rows never share a scope, a hash and a class.
pub mod Times
pub mod Expired
use slate_do.Prelude.{
  ℕ, ◌+◌, ◌-◌, ◌%◌, String, Bool, not, ◌&&◌, Option, none, some, List, [], ◌∷◌, ◌++◌, find, keep,
  any, take, update_where, ltb, leb, ◌==◌, nat_eq, string_eq, if◌then◌else◌, Result, ok, err,
  or_fail, ◌>>=◌,
}
use slate_do.Prelude.Sort.{sort_by}
use slate_do.Ratelimit.Window.{window, active_times, expiry}
use slate_do.Ratelimit.Keys.{Key}

-- What a call fails with. The last two are a NULL that a column refuses, and a panic.
pub data Error : Type 0 where
  key_required credential_key_required account_key_required outcome_required : Error
  reservation_required unknown_class no_settings null_expiry index_out_of_range : Error

abbrev pub Limited : Type 0 → Type 0
Limited A = Result Error A

-- The one row of `api_rate_limit_settings`
pub record Settings : Type 0 where
  pub authenticated_read_limit : ℕ
  pub authenticated_write_limit : ℕ
  pub public_auth_limit : ℕ

-- A row of `api_rate_limit_state`
pub record Row : Type 0 where
  pub scope : String
  pub key_hash : String
  pub route_class : String
  pub request_times : List ℕ
  pub expires_at : ℕ
  pub updated_at : ℕ

-- A row of `api_rate_limit_metrics`
pub record Metric : Type 0 where
  pub bucket_start : ℕ
  pub route_class : String
  pub outcome : String
  pub shard : ℕ
  pub request_count : ℕ

pub record Tables : Type 0 where
  pub settings : Option Settings
  pub rows : List Row
  pub metrics : List Metric

abbrev pub class_authenticated_read : String
class_authenticated_read = "authenticated_read"

abbrev pub class_authenticated_write : String
class_authenticated_write = "authenticated_write"

abbrev pub class_public_auth : String
class_public_auth = "public_auth"

abbrev pub outcome_allowed : String
outcome_allowed = "allowed"

abbrev pub outcome_rejected : String
outcome_rejected = "rejected"

-- The switch on the class.
abbrev pub limit_of : Settings → String → Limited ℕ
limit_of settings route_class =
    if route_class == class_authenticated_read
    then ok settings.authenticated_read_limit
    else if route_class == class_authenticated_write
    then ok settings.authenticated_write_limit
    else if route_class == class_public_auth
    then ok settings.public_auth_limit
    else err unknown_class

-- `routeLimit`
unfoldable pub route_limit : Tables → String → Limited ℕ
route_limit db route_class = do
  settings ← or_fail db.settings no_settings
  limit_of settings route_class

abbrev pub is_row : Key → String → Row → Bool
is_row key route_class r =
    r.scope == key.scope && r.key_hash == key.value && r.route_class == route_class

-- `INSERT ... ON CONFLICT DO NOTHING`
unfoldable pub ensure_row : Key → String → ℕ → List Row → List Row
ensure_row key route_class now rows =
    if any (is_row key route_class) rows
    then rows
    else rows
      ++ record {
        scope = key.scope;
        key_hash = key.value;
        route_class = route_class;
        request_times = [];
        expires_at = now + window;
        updated_at = now;
      }
        ∷ []

-- `SELECT request_times`
unfoldable pub times_at : Key → String → List Row → List ℕ
times_at key route_class rows = elim (find (is_row key route_class) rows) [
  | none ↦ []
  | some r ↦ r.request_times
]

-- `lockedState`: the rows with the key's own, and the key's active times.
unfoldable pub locked_state : Key → String → ℕ → List Row → List Row × List ℕ
unfolding ensure_row times_at
locked_state key route_class now rows =
    let found = ensure_row key route_class now rows in
    (found, active_times now (times_at key route_class found))

-- `writeState`
unfoldable pub write_state : Key → String → List ℕ → ℕ → List Row → Limited (List Row)
write_state key route_class active now rows = do
  expires ← or_fail (expiry active) null_expiry
  ok (
      update_where (is_row key route_class)
        (λ r. record r { request_times = active; expires_at = expires; updated_at = now }) rows)

-- `COALESCE(expires, expires_at)`
abbrev pub coalesce : Option ℕ → ℕ → ℕ
coalesce none old = old
coalesce (some expires) old = expires

-- The same update, which keeps the row's expiry where no time is left.
unfoldable pub refresh_state : Key → String → List ℕ → ℕ → List Row → List Row
refresh_state key route_class times now rows =
    update_where (is_row key route_class)
      (λ r. record r {
        request_times = times;
        expires_at = coalesce (expiry times) r.expires_at;
        updated_at = now;
      })
      rows

-- An expired row that no other transaction holds.
abbrev pub removable : ℕ → (Row → Bool) → Row → Bool
removable now held r = leb r.expires_at now && not (held r)

abbrev same_row : Row → Row → Bool
same_row r s = r.scope == s.scope && r.key_hash == s.key_hash && r.route_class == s.route_class

-- `deleteExpiredState`: the hundred that expired first, of those that can be locked at once.
unfoldable pub delete_expired_state : ℕ → (Row → Bool) → List Row → List Row
delete_expired_state now held rows =
    let selected =
      take 100 (sort_by (λ r s. ltb r.expires_at s.expires_at) (keep (removable now held) rows)) in
    keep (λ r. not (removable now held r && any (same_row r) selected)) rows

-- `recordMetric`
unfoldable pub record_metric : ℕ → String → String → ℕ → List Metric → List Metric
record_metric now route_class outcome shard metrics =
    let start = now - now % window in
    let counted = λ (m : Metric).
      m.bucket_start == start
      && m.route_class == route_class
      && m.outcome == outcome
      && m.shard == shard in
    if any counted metrics
    then update_where counted (λ m. record m { request_count = m.request_count + 1 }) metrics
    else metrics
      ++ record {
        bucket_start = start;
        route_class = route_class;
        outcome = outcome;
        shard = shard;
        request_count = 1;
      }
        ∷ []
