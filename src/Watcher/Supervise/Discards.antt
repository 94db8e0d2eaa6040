-- ===== src/Watcher/Supervise/Discards.antt =====
-- When a reading of a run discards it, in inspectRun of cli/cmd/slate/watch.go.
use slate_do.Prelude.{
  ◌≡◌, String, Bool, true, false, not, ◌&&◌, ◌||◌, List, ◌==◌, string_eq, Result, ok, err,
  Bool-cases, inl, inr, arith,
}
use slate_do.Watcher.Api.{
  TaskView, EntryView, RunOutcome, ReadError, equal_fold, classify_run_entries, retryable_error,
}
use slate_do.Watcher.Inspect.{
  RunState, launching, working, success, blocked, interrupted, ambiguous, lost_race, never_claimed,
  RunSupervision, witnessed, Reading, Inspection, undecided, decided, failed, noted, judged,
  inspect_entries, inspect_task, inspect_run,
}

-- The outcomes after which `attempt` discards the worktree.
abbrev pub disposable : RunState → Bool
disposable launching = false
disposable working = false
disposable success = false
disposable blocked = false
disposable interrupted = false
disposable ambiguous = false
disposable lost_race = true
disposable never_claimed = true

abbrev pub shows : String → Result ReadError TaskView → Result ReadError (List EntryView) → Bool
shows run_id (err e) entries = false
shows run_id (ok task) (err e) = false
shows run_id (ok task) (ok entries) =
    equal_fold task.execution_run_id run_id
    || (classify_run_entries entries run_id).has_output
    || (classify_run_entries entries run_id).has_comment

-- A reading that shows the run holding its task, or having written to it.
abbrev pub sighted : String → Reading → Bool
sighted run_id r = shows run_id r.task r.entries

abbrev blind : Reading → Result ReadError TaskView → Result ReadError (List EntryView) → Bool
blind r (err e) entries = retryable_error e && r.alive_at_task
blind r (ok task) (err e) = retryable_error e && r.alive_at_entries
blind r (ok task) (ok entries) = false

-- A read that failed for a while, with the executor running.
abbrev pub missed : Reading → Bool
missed r = blind r r.task r.entries

-- What forbids to say that the run never held its task.
abbrev pub telling : RunSupervision → Bool
telling s = witnessed s || s.read_failed

entries-telling :
    (s : RunSupervision) (run_id : String) (r : Reading) (exited : Bool) (task : TaskView)
    (entries : Result ReadError (List EntryView))
    → (telling s || (shows run_id (ok task) entries || (not exited && blind r (ok task) entries)))
      ≡ true
    → telling (inspect_entries s run_id r exited task entries).0 ≡ true
unfolding noted
entries-telling s run_id r exited task (err e) h = ground (arith, h)
entries-telling s run_id r exited task (ok entries) h = ground (arith, h)

task-telling :
    (s : RunSupervision) (run_id : String) (r : Reading) (exited : Bool)
    (task : Result ReadError TaskView)
    → (telling s || (shows run_id task r.entries || (not exited && blind r task r.entries))) ≡ true
    → telling (inspect_task s run_id r exited task).0 ≡ true
task-telling s run_id r exited (err e) h = ground (arith, h)
task-telling s run_id r exited (ok task) h = entries-telling s run_id r exited task r.entries h

-- What forbids the conclusion is remembered.
pub inspect_run-telling :
    (s : RunSupervision) (run_id : String) (r : Reading) (exited : Bool)
    → (telling s || (sighted run_id r || (not exited && missed r))) ≡ true
    → telling (inspect_run s run_id r exited).0 ≡ true
unfolding inspect_run
inspect_run-telling s run_id r exited h = task-telling s run_id r exited r.task h

abbrev pub discards : Inspection → Bool
discards undecided = false
discards (decided state) = disposable state
discards (failed e) = false

-- The conclusion is drawn from an observed run that was never seen to hold its task.
judged-discards :
    (s : RunSupervision) (task : TaskView) (outcome : RunOutcome) (exited : Bool)
    → discards (judged s task outcome exited) ≡ true
    → (telling s ≡ false) × (s.observed ≡ true)
unfolding judged
judged-discards s task outcome exited h =
    elim (Bool-cases
      (outcome.has_output && (task.status == "needs_review" || task.status == "done"))) [
        | inl e ↦ cc (rw e at h)
        | inr e ↦ elim (Bool-cases (outcome.has_comment && task.status == "working")) [
          | inl f ↦ cc (rw (e, f) at h)
          | inr f ↦ elim (Bool-cases (not exited)) [
            | inl x ↦ cc (rw (e, f, x) at h)
            | inr x ↦ elim (Bool-cases (witnessed s)) [
              | inl w ↦ cc (rw (e, f, x, w) at h)
              | inr w ↦ elim (Bool-cases (not s.observed || s.read_failed)) [
                | inl b ↦ cc (rw (e, f, x, w, b) at h)
                | inr b ↦ (ground (arith, w, b), ground (arith, b))
              ]
            ]
          ]
        ]
      ]

entries-discards :
    (s : RunSupervision) (run_id : String) (r : Reading) (exited : Bool) (task : TaskView)
    (entries : Result ReadError (List EntryView))
    → discards (inspect_entries s run_id r exited task entries).1 ≡ true
    → (telling (inspect_entries s run_id r exited task entries).0 ≡ false)
      × ((inspect_entries s run_id r exited task entries).0.observed ≡ true)
entries-discards s run_id r exited task (err e) h = cc h
entries-discards s run_id r exited task (ok entries) h =
    judged-discards (noted s run_id task entries (not exited && r.alive_at_end)) task
      (classify_run_entries entries run_id) exited h

task-discards :
    (s : RunSupervision) (run_id : String) (r : Reading) (exited : Bool)
    (task : Result ReadError TaskView)
    → discards (inspect_task s run_id r exited task).1 ≡ true
    → (telling (inspect_task s run_id r exited task).0 ≡ false)
      × ((inspect_task s run_id r exited task).0.observed ≡ true)
task-discards s run_id r exited (err e) h = cc h
task-discards s run_id r exited (ok task) h = entries-discards s run_id r exited task r.entries h

pub inspect_run-discards :
    (s : RunSupervision) (run_id : String) (r : Reading) (exited : Bool)
    → discards (inspect_run s run_id r exited).1 ≡ true
    → (telling (inspect_run s run_id r exited).0 ≡ false)
      × ((inspect_run s run_id r exited).0.observed ≡ true)
unfolding inspect_run
inspect_run-discards s run_id r exited h = task-discards s run_id r exited r.task h
