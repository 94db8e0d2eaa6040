-- ===== src/Watcher/Supervise.antt =====
-- `superviseRun` of cli/cmd/slate/watch.go, a round at a time: what the watcher reads, and what
-- else happens in the round, is given; what it concludes is computed.
pub mod Discards
pub mod Evidence
pub mod Ends
use slate_do.Prelude.{
  ℕ, ◌+◌, String, Bool, true, false, not, ◌&&◌, ◌||◌, Option, none, some, List, [], ◌∷◌, ltb,
  if◌then◌else◌,
}
use slate_do.Watcher.Api.{ReadError}
use slate_do.Watcher.Backoff.{Backoff, reset, retry_delay}
use slate_do.Watcher.Inspect.{
  RunState, interrupted, ambiguous, RunSupervision, Reading, Inspection, undecided, decided, failed,
  inspect_run,
}

-- `postExitReadAttempts`
abbrev pub post_exit_read_attempts : ℕ
post_exit_read_attempts = 5

-- How the wait at the end of a round ends.
pub data Wake : Type 0 where
  executor_finished interrupt timer : Wake

-- A round: the reading, whether the watcher was told to stop by the end of it, whether the executor
-- had finished where the loop looks again, and what ends the wait.
pub record Round : Type 0 where
  pub reading : Reading
  pub stopping : Bool
  pub finished : Bool
  pub drawn : Option ℕ
  pub wake : Wake

pub record Supervising : Type 0 where
  pub supervision : RunSupervision
  pub exited : Bool
  pub post_exit_attempts : ℕ
  pub failure : Backoff

-- The end: the run's state, whether the executor was reaped when its group is stopped, and the
-- error.
pub record Verdict : Type 0 where
  pub state : RunState
  pub reaped : Bool
  pub error : Option ReadError

pub data Progress : Type 0 where
  running : Supervising → Progress
  ended : Verdict → Progress

abbrev pub verdict : RunState → Bool → Progress
verdict state reaped = ended (record { state = state; reaped = reaped; error = none })

-- A failed read that is worth repeating: the wait is taken, and after the executor's exit counted.
abbrev pub again : Supervising → RunSupervision → Backoff → Bool → Progress
again s seen failure exited =
    if exited && ltb post_exit_read_attempts (s.post_exit_attempts + 1)
    then verdict interrupted true
    else running (record {
      supervision = seen;
      exited = exited;
      post_exit_attempts = (if exited then s.post_exit_attempts + 1 else s.post_exit_attempts);
      failure = failure;
    })

abbrev pub after_failure :
    Supervising → Round → RunSupervision → ReadError → Option ℕ × Backoff → Progress
after_failure s r seen e (some wait, failure) = again s seen failure (s.exited || r.finished)
after_failure s r seen e (none, failure) =
    ended (record { state = ambiguous; reaped = s.exited || r.finished; error = some e })

-- Without a decision and with the executor gone the run is interrupted; otherwise the loop waits.
abbrev pub waited : Supervising → Round → RunSupervision → Wake → Progress
waited s r seen executor_finished =
    running (record s { supervision = seen; exited = true; failure = reset s.failure })
waited s r seen interrupt = verdict interrupted (s.exited || r.finished)
waited s r seen timer = running (record s { supervision = seen; failure = reset s.failure })

abbrev pub concluded : Supervising → Round → RunSupervision → Inspection → Progress
concluded s r seen (failed e) =
    if r.stopping
    then verdict interrupted s.exited
    else after_failure s r seen e (retry_delay r.drawn e s.failure)
concluded s r seen (decided state) = verdict state (s.exited || r.finished)
concluded s r seen undecided = if s.exited then verdict interrupted true else waited s r seen r.wake

unfoldable pub supervise_round : String → Supervising → Round → Progress
supervise_round run_id s r =
    let (seen, inspection) = inspect_run s.supervision run_id r.reading s.exited in
    concluded s r seen inspection

abbrev pub supervise_rest : String → Progress → (Supervising → Progress) → Progress
supervise_rest run_id (running s) rest = rest s
supervise_rest run_id (ended v) rest = ended v

-- The rounds until the end, or as many as there are.
unfoldable pub supervise_run : String → Supervising → List Round → Progress
unfolding supervise_round
supervise_run run_id s [] = running s
supervise_run run_id s (r ∷ rounds) =
    supervise_rest run_id (supervise_round run_id s r) (λ t. supervise_run run_id t rounds)
