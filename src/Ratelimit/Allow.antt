-- ===== src/Ratelimit/Allow.antt =====
-- `Allow` of server/internal/ratelimit/ratelimit.go: a request that all its keys have room for is
-- admitted and counted at each; otherwise it is rejected, with the time to wait.
pub mod Loaded
pub mod Stored
pub mod Decide
pub mod Outcome
pub mod Serve
use slate_do.Prelude.{
  ℕ, ◌+◌, String, Bool, true, false, List, [], ◌∷◌, ◌++◌, length, ltb, leb, if◌then◌else◌, ok, err,
  or_fail, refuse_if, ◌>>=◌, ◌>>◌,
}
use slate_do.Prelude.Int.{ℤ, pos, sub_ℕ, ◌+ℤ◌, negate, ltb_ℤ, is_positive}
use slate_do.Prelude.Sort.{sort_by}
use slate_do.Ratelimit.Window.{second, retry_after}
use slate_do.Ratelimit.Keys.{Key, normalized_keys, metric_shard}
use slate_do.Ratelimit.Tables.{
  Row, Tables, Limited, key_required, index_out_of_range, outcome_allowed, outcome_rejected,
  route_limit, locked_state, write_state, refresh_state, delete_expired_state, record_metric,
}

pub record Decision : Type 0 where
  pub allowed : Bool
  pub limit : ℕ
  pub remaining : ℤ
  pub retry_after : ℤ

-- The `PG` limiter with the clock's reading and the rows that other transactions hold.
pub record Transaction : Type 0 where
  pub hash_key : String → String → String
  pub cleanup_expired : Bool
  pub now : ℕ
  pub held : Row → Bool

-- `state`: a key with its active times.
pub record KeyState : Type 0 where
  pub key : Key
  pub times : List ℕ

unfoldable pub load_states : List Key → String → ℕ → List Row → List Row × List KeyState
load_states [] route_class now rows = (rows, [])
load_states (key ∷ keys) route_class now rows =
    let (found, active) = locked_state key route_class now rows in
    let (all, states) = load_states keys route_class now found in
    (all, record { key = key; times = active } ∷ states)

-- The least number of free places of all keys.
abbrev pub lowered : KeyState → ℕ → Decision → Decision
lowered current limit decision =
    if ltb_ℤ (sub_ℕ limit (length current.times)) decision.remaining
    then record decision { remaining = sub_ℕ limit (length current.times) }
    else decision

-- A key without room refuses the request, and asks for the longest wait of all.
unfoldable pub refuse_for : KeyState → ℕ → ℕ → Decision → Limited Decision
refuse_for current limit now decision = do
  retry ← or_fail (retry_after current.times limit now) index_out_of_range
  ok (record decision {
    allowed = false;
    retry_after = if ltb_ℤ decision.retry_after retry then retry else decision.retry_after;
  })

-- One round of the loop over the states.
unfoldable pub weigh : KeyState → ℕ → ℕ → Decision → Limited Decision
unfolding refuse_for
weigh current limit now decision =
    if leb limit (length current.times)
    then refuse_for current limit now (lowered current limit decision)
    else ok (lowered current limit decision)

unfoldable pub decide : List KeyState → ℕ → ℕ → Decision → Limited Decision
decide [] limit now decision = ok decision
decide (current ∷ states) limit now decision =
    weigh current limit now decision >>= decide states limit now

-- The request's own time is counted at every key.
unfoldable pub write_admitted : List KeyState → String → ℕ → List Row → Limited (List Row)
write_admitted [] route_class now rows = ok rows
write_admitted (current ∷ states) route_class now rows =
    write_state current.key route_class (sort_by ltb (current.times ++ now ∷ [])) now rows
    >>= write_admitted states route_class now

unfoldable pub write_refused : List KeyState → String → ℕ → List Row → List Row
write_refused [] route_class now rows = rows
write_refused (current ∷ states) route_class now rows =
    write_refused states route_class now
      (refresh_state current.key route_class current.times now rows)

-- `if decision.RetryAfter <= 0 { decision.RetryAfter = time.Second }`
abbrev pub positive_wait : ℤ → ℤ
positive_wait d = if is_positive d then d else pos second

unfoldable pub swept : Transaction → List Row → List Row
swept t rows = if t.cleanup_expired then delete_expired_state t.now t.held rows else rows

unfoldable pub admit :
    Transaction
    → List Key
    → String
    → Tables
    → Decision
    → List Row
    → List KeyState
    → Limited (Decision × Tables)
admit t keys route_class db decision rows states = do
  written ← write_admitted states route_class t.now rows
  ok (
    record decision { remaining = decision.remaining +ℤ negate 1 },
    record db {
      rows = written;
      metrics = record_metric t.now route_class outcome_allowed (metric_shard keys) db.metrics;
    },
  )

unfoldable pub refuse :
    Transaction
    → List Key
    → String
    → Tables
    → Decision
    → List Row
    → List KeyState
    → Decision × Tables
refuse t keys route_class db decision rows states = (
  record decision { remaining = pos 0; retry_after = positive_wait decision.retry_after },
  record db {
    rows = write_refused states route_class t.now rows;
    metrics = record_metric t.now route_class outcome_rejected (metric_shard keys) db.metrics;
  },
)

-- From the keys as they are after normalization.
unfoldable pub allow_keys : Transaction → Tables → List Key → String → Limited (Decision × Tables)
unfolding swept admit refuse
allow_keys t db keys route_class = do
  limit ← route_limit db route_class
  let loaded = load_states keys route_class t.now (swept t db.rows)
  decision ←
      decide loaded.1 limit t.now
        (record { allowed = true; limit = limit; remaining = pos limit; retry_after = pos 0 })
  if decision.allowed
      then admit t keys route_class db decision loaded.0 loaded.1
      else ok (refuse t keys route_class db decision loaded.0 loaded.1)

abbrev pub is_empty : List Key → Bool
is_empty [] = true
is_empty (k ∷ keys) = false

unfoldable pub allow : Transaction → Tables → List Key → String → Limited (Decision × Tables)
unfolding allow_keys
allow t db keys route_class = do
  let normalized = normalized_keys t.hash_key keys
  refuse_if (is_empty normalized) key_required
  allow_keys t db normalized route_class
