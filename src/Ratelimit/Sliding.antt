-- ===== src/Ratelimit/Sliding.antt =====
-- What `Allow` of server/internal/ratelimit/ratelimit.go promises, stated without its tables: a
-- limiter that remembers every admitted request, and admits one when each of its keys has fewer
-- than the limit in the last minute.
pub mod Refines
pub mod Bounds
use slate_do.Prelude.{
  ℕ, ◌≤◌, String, Bool, true, false, ◌&&◌, Option, none, some, List, [], ◌∷◌, any, count_where, ltb,
  ◌==◌, string_eq, if◌then◌else◌, Result, ok, err,
}
use slate_do.Ratelimit.Window.{is_active}
use slate_do.Ratelimit.Keys.{Key, same_key, normalized_keys}
use slate_do.Ratelimit.Tables.{Tables, Limited}
use slate_do.Ratelimit.Allow.{Transaction, Decision, is_empty, allow}
use slate_do.Ratelimit.Allow.Decide.{every}

-- One call.
pub record Request : Type 0 where
  pub transaction : Transaction
  pub keys : List Key
  pub route_class : String

abbrev pub named : Request → List Key
named r = normalized_keys r.transaction.hash_key r.keys

-- An admitted request.
pub record Admitted : Type 0 where
  pub keys : List Key
  pub route_class : String
  pub at : ℕ

abbrev pub entry : Request → Admitted
entry r = record { keys = named r; route_class = r.route_class; at = r.transaction.now }

abbrev pub covers : Key → String → Admitted → Bool
covers k c a = any (same_key k) a.keys && c == a.route_class

-- The admitted requests of a key and a class that are active at a moment.
abbrev pub admitted_within : List Admitted → Key → String → ℕ → ℕ
admitted_within log k c m = count_where (λ a. covers k c a && is_active m a.at) log

-- The calls of the code in sequence: what is answered, and what is admitted, newest first.
pub record World : Type 0 where
  pub tables : Tables
  pub log : List Admitted

abbrev pub settled : World → Request → Limited (Decision × Tables) → World × Option Bool
settled w r (err e) = (w, none)
settled w r (ok (d, after)) = (
  record { tables = after; log = (if d.allowed then entry r ∷ w.log else w.log) },
  some d.allowed,
)

abbrev pub serve : World → Request → World × Option Bool
serve w r = settled w r (allow r.transaction w.tables r.keys r.route_class)

unfoldable pub answers : World → List Request → List (Option Bool)
answers w [] = []
answers w (r ∷ requests) = (serve w r).1 ∷ answers (serve w r).0 requests

unfoldable pub served : World → List Request → World
served w [] = w
served w (r ∷ requests) = served (serve w r).0 requests

-- The reference limiter.
abbrev pub admits : List Admitted → ℕ → Request → Bool
admits log limit r =
    every (λ k. ltb (admitted_within log k r.route_class r.transaction.now) limit) (named r)

abbrev pub weighed : List Admitted → Request → Limited ℕ → List Admitted × Option Bool
weighed log r (err e) = (log, none)
weighed log r (ok limit) =
    (if admits log limit r then entry r ∷ log else log, some (admits log limit r))

abbrev pub sliding : (String → Limited ℕ) → List Admitted → Request → List Admitted × Option Bool
sliding limits log r =
    if is_empty (named r) then (log, none) else weighed log r (limits r.route_class)

unfoldable pub sliding_answers :
    (String → Limited ℕ) → List Admitted → List Request → List (Option Bool)
sliding_answers limits log [] = []
sliding_answers limits log (r ∷ requests) =
    (sliding limits log r).1 ∷ sliding_answers limits (sliding limits log r).0 requests

-- A clock that does not run backwards, from some moment on.
abbrev pub InOrder : ℕ → List Request → Type 0
InOrder now [] = Unit
InOrder now (r ∷ requests) = (now ≤ r.transaction.now) × InOrder r.transaction.now requests
