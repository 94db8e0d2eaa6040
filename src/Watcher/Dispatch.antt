-- ===== src/Watcher/Dispatch.antt =====
-- The loop of `run` in cli/cmd/slate/watch.go: what the watcher does after each round, and when
-- it stops.
pub mod Stops
use slate_do.Prelude.{
  ℕ, ◌+◌, String, Bool, true, false, not, ◌&&◌, ◌||◌, Option, none, some, List, [], ◌∷◌, leb,
  if◌then◌else◌,
}
use slate_do.Watcher.Backoff.{Backoff, next, reset}
use slate_do.Watcher.Api.{
  ReadError, canceled, request_build, response_format, unreachable, api, retryable_error,
}
use slate_do.Watcher.Inspect.{
  RunState, success, lost_race, ambiguous, never_claimed, launching, working, blocked, interrupted,
}
use slate_do.Watcher.Attempt.{max_retained_runs}

-- What a step before the attempt can come to.
pub data Check : Type 0 where
  passed check_canceled check_failed : Check

-- An error of an attempt, as the loop tells them apart: the three that stop the watcher by name,
-- and any other with what it wraps.
pub data RunError : Type 0 where
  group_survived record_removal undiscoverable : RunError
  other_error : ReadError → RunError

-- `recoverableAttemptError`
abbrev pub recoverable_attempt_error : RunError → Bool
recoverable_attempt_error group_survived = false
recoverable_attempt_error record_removal = false
recoverable_attempt_error undiscoverable = false
recoverable_attempt_error (other_error e) = retryable_error e

abbrev pub was_canceled : RunError → Bool
was_canceled (other_error canceled) = true
was_canceled e = false

-- What the attempt at the first candidate comes to: a state or an error.
pub data Outcome : Type 0 where
  reached : RunState → Outcome
  broke : RunError → Outcome

-- A round: whether the watcher was told to stop, the check for a task at work, the retained
-- worktrees (or no answer), the search and whether it found a candidate, and the attempt.
pub record Offer : Type 0 where
  pub stopping : Bool
  pub work_check : Check
  pub retained : Option ℕ
  pub search : Check
  pub found : Bool
  pub outcome : Outcome
  pub drawn : Option ℕ

-- `launchFailureLimit`
abbrev pub launch_failure_limit : ℕ
launch_failure_limit = 5

pub record Watching : Type 0 where
  pub working_scope_checked : Bool
  pub launch_failures : ℕ
  pub idle : Backoff

-- The loop goes on, or returns without or with an error.
pub data Turn : Type 0 where
  watching : Watching → Turn
  stopped failed : Turn

abbrev pub failed_launch : Watching → Turn
failed_launch w =
    if leb launch_failure_limit (w.launch_failures + 1)
    then failed
    else watching (record w { launch_failures = w.launch_failures + 1 })

abbrev pub after_state : Watching → RunState → Turn
after_state w success = watching (record w { launch_failures = 0 })
after_state w lost_race = watching (record w { launch_failures = 0 })
after_state w ambiguous = watching (record w { launch_failures = 0 })
after_state w never_claimed = failed_launch w
after_state w launching = stopped
after_state w working = stopped
after_state w blocked = stopped
after_state w interrupted = stopped

abbrev pub after_attempt : Watching → Outcome → Turn
after_attempt w (reached state) = after_state w state
after_attempt w (broke e) =
    if was_canceled e
    then stopped
    else if not (recoverable_attempt_error e)
    then failed
    else failed_launch w

abbrev pub searched : Watching → Offer → Check → Turn
searched w o check_canceled = stopped
searched w o check_failed = failed
searched w o passed =
    if not o.found
    then watching (record w { idle = (next o.drawn w.idle).1 })
    else after_attempt (record w { idle = reset w.idle }) o.outcome

abbrev pub counted_runs : Watching → Offer → Option ℕ → Turn
counted_runs w o none = failed
counted_runs w o (some retained) =
    if leb max_retained_runs retained then failed else searched w o o.search

abbrev pub checked : Watching → Offer → Check → Turn
checked w o check_canceled = stopped
checked w o check_failed = failed
checked w o passed = counted_runs (record w { working_scope_checked = false }) o o.retained

-- The check that the start has made serves the first round.
unfoldable pub watch_round : Watching → Offer → Turn
watch_round w o =
    if o.stopping
    then stopped
    else checked w o (if w.working_scope_checked then passed else o.work_check)

abbrev pub watch_rest : Turn → (Watching → Turn) → Turn
watch_rest (watching w) rest = rest w
watch_rest stopped rest = stopped
watch_rest failed rest = failed

unfoldable pub watch : Watching → List Offer → Turn
unfolding watch_round
watch w [] = watching w
watch w (o ∷ offers) = watch_rest (watch_round w o) (λ v. watch v offers)
