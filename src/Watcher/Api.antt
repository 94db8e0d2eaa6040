-- ===== src/Watcher/Api.antt =====
-- What the watcher reads from the API, of cli/cmd/slate/api.go and backoff.go: tasks, a run's
-- entries, and the errors of a read. Texts that are compared without regard to case are ASCII.
use Prim.Native.Char.{code}
use slate_do.Prelude.{
  ℕ, ◌+◌, String, Bool, true, false, ◌&&◌, ◌||◌, List, any, leb, ◌==◌, nat_eq, string_eq,
  if◌then◌else◌,
}

pub record TaskView : Type 0 where
  pub id : String
  pub status : String
  pub execution_run_id : String

pub record EntryView : Type 0 where
  pub kind : String
  pub run_id : String

pub record RunOutcome : Type 0 where
  pub has_output : Bool
  pub has_comment : Bool

to_lower : ℕ → ℕ
to_lower c = if leb b'A' c && leb c b'Z' then c + 32 else c

-- `strings.EqualFold`
unfoldable pub equal_fold : String → String → Bool
unfolding to_lower
equal_fold String.[] String.[] = true
equal_fold String.[] (String.◌∷◌ d t) = false
equal_fold (String.◌∷◌ c s) String.[] = false
equal_fold (String.◌∷◌ c s) (String.◌∷◌ d t) =
    let rest = equal_fold s t in to_lower (code c) == to_lower (code d) && rest

unfoldable pub classify_run_entries : List EntryView → String → RunOutcome
classify_run_entries entries run_id = record {
  has_output = any (λ e. equal_fold e.run_id run_id && e.kind == "output") entries;
  has_comment = any (λ e. equal_fold e.run_id run_id && e.kind == "comment") entries;
}

-- The errors of a read: the caller stopped, a bad address, a reply that is not the API's, no
-- answer, or an answer of the API with its status and its Retry-After header.
pub data ReadError : Type 0 where
  canceled request_build response_format unreachable : ReadError
  api : ℕ → String → ReadError

-- `retryableStatuses`
abbrev pub retryable_status : ℕ → Bool
retryable_status status =
    status == 500 || status == 429 || status == 502 || status == 503 || status == 504

-- `retryableError`
abbrev pub retryable_error : ReadError → Bool
retryable_error canceled = false
retryable_error request_build = false
retryable_error response_format = false
retryable_error unreachable = true
retryable_error (api status retry_after) = retryable_status status
