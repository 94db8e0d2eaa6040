-- ===== src/Watcher/Inspect.antt =====
-- `inspectRun` of cli/cmd/slate/watch.go: what one reading of the task and of the run's entries
-- says of the run.
use slate_do.Prelude.{
  String, Bool, true, false, not, ◌&&◌, ◌||◌, List, ◌==◌, string_eq, if◌then◌else◌, Result, ok, err,
}
use slate_do.Watcher.Api.{
  TaskView, EntryView, RunOutcome, ReadError, equal_fold, classify_run_entries, retryable_error,
}

-- Where a run can stand: the states of a record, and the two outcomes that leave nothing to keep.
pub data RunState : Type 0 where
  launching working success blocked interrupted ambiguous lost_race never_claimed : RunState

pub record RunSupervision : Type 0 where
  pub ever_owned : Bool
  pub ever_wrote : Bool
  pub observed : Bool
  pub read_failed : Bool

abbrev pub unsupervised : RunSupervision
unsupervised = record {
  ever_owned = false;
  ever_wrote = false;
  observed = false;
  read_failed = false;
}

-- `witnessed`
abbrev pub witnessed : RunSupervision → Bool
witnessed s = s.ever_owned || s.ever_wrote

-- What the server answers to the two reads, and what `stillAlive` says before each and at the end.
pub record Reading : Type 0 where
  pub task : Result ReadError TaskView
  pub entries : Result ReadError (List EntryView)
  pub alive_at_task : Bool
  pub alive_at_entries : Bool
  pub alive_at_end : Bool

-- No decision yet, a decision, or a read that failed.
pub data Inspection : Type 0 where
  undecided : Inspection
  decided : RunState → Inspection
  failed : ReadError → Inspection

-- `noteReadFailure`
abbrev pub note_read_failure : RunSupervision → Bool → ReadError → RunSupervision
note_read_failure s alive e =
    if retryable_error e && alive then record s { read_failed = true } else s

-- What both reads have shown is remembered.
unfoldable pub noted : RunSupervision → String → TaskView → List EntryView → Bool → RunSupervision
noted s run_id task entries alive = record {
  ever_owned = s.ever_owned || equal_fold task.execution_run_id run_id;
  ever_wrote =
      s.ever_wrote
      || (classify_run_entries entries run_id).has_output
      || (classify_run_entries entries run_id).has_comment;
  observed = s.observed || alive;
  read_failed = s.read_failed;
}

-- The decision, once the reads are noted.
unfoldable pub judged : RunSupervision → TaskView → RunOutcome → Bool → Inspection
judged s task outcome executor_exited =
    if outcome.has_output && (task.status == "needs_review" || task.status == "done")
    then decided success
    else if outcome.has_comment && task.status == "working"
    then decided blocked
    else if not executor_exited
    then undecided
    else if witnessed s
    then decided interrupted
    else if not s.observed || s.read_failed
    then decided ambiguous
    else if not (task.execution_run_id == "")
    then decided lost_race
    else if task.status == "queued"
    then decided never_claimed
    else decided ambiguous

abbrev pub inspect_entries :
    RunSupervision
    → String
    → Reading
    → Bool
    → TaskView
    → Result ReadError (List EntryView)
    → RunSupervision × Inspection
inspect_entries s run_id r executor_exited task (err e) =
    (note_read_failure s (not executor_exited && r.alive_at_entries) e, failed e)
inspect_entries s run_id r executor_exited task (ok entries) =
    let after = noted s run_id task entries (not executor_exited && r.alive_at_end) in
    (after, judged after task (classify_run_entries entries run_id) executor_exited)

abbrev pub inspect_task :
    RunSupervision
    → String
    → Reading
    → Bool
    → Result ReadError TaskView
    → RunSupervision × Inspection
inspect_task s run_id r executor_exited (err e) =
    (note_read_failure s (not executor_exited && r.alive_at_task) e, failed e)
inspect_task s run_id r executor_exited (ok task) =
    inspect_entries s run_id r executor_exited task r.entries

unfoldable pub inspect_run : RunSupervision → String → Reading → Bool → RunSupervision × Inspection
unfolding noted judged
inspect_run s run_id r executor_exited = inspect_task s run_id r executor_exited r.task
