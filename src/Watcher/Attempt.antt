-- ===== src/Watcher/Attempt.antt =====
-- `attempt` of cli/cmd/slate/watch.go: one candidate from its worktree to the end of its run.
-- What each step on the disk, in git and with processes does is given; what is on the disk after
-- it, and what the registry holds of the run, is computed. The steps of createRunWorktree and
-- discardRunWorktree are those of cli/cmd/slate/gitrepo.go.
pub mod Traces
pub mod Work
use slate_do.Prelude.{
  ℕ, String, Bool, true, false, not, ◌&&◌, ◌||◌, Option, none, some, List, ltb, if◌then◌else◌,
}
use slate_do.Watcher.Api.{ReadError}
use slate_do.Watcher.Backoff.{Backoff}
use slate_do.Watcher.Inspect.{RunState, launching, working, ambiguous, unsupervised}
use slate_do.Watcher.Supervise.{
  Round, Supervising, Verdict, Progress, running, ended, supervise_run,
}
use slate_do.Watcher.Supervise.Discards.{disposable}

-- `maxRetainedRuns`
abbrev pub max_retained_runs : ℕ
max_retained_runs = 10

pub data AttemptError : Type 0 where
  no_run_id no_worktree no_worktree_uncleaned not_recorded undiscoverable_run not_recorded_kept
        over_limit over_limit_kept :
      AttemptError
  run_record_removal not_started not_started_kept unrecorded unrecorded_survived group_survived :
      AttemptError
  monitoring : ReadError → AttemptError

-- What the steps of `discardRunWorktreeLocked` come to: `git worktree remove` or, where that fails,
-- the removal of the directory; and `git branch -D`, where a branch that is not found is no failure.
pub record Removal : Type 0 where
  pub git_removes_tree : Bool
  pub removes_directory : Bool
  pub deletes_branch : Bool

-- Something is left at the worktree's path.
abbrev pub leaves_tree : Removal → Bool
leaves_tree r = not r.git_removes_tree && not r.removes_directory

-- `discardRunWorktreeLocked` returns no error.
abbrev pub removes_all : Removal → Bool
removes_all r = not (leaves_tree r) && r.deletes_branch

-- `discardRunWorktree`: nothing happens where the repository cannot be locked.
pub record Discard : Type 0 where
  pub locks : Bool
  pub removal : Removal

abbrev pub discarded : Discard → Bool
discarded d = d.locks && removes_all d.removal

abbrev pub tree_remains : Discard → Bool
tree_remains d = not d.locks || leaves_tree d.removal

-- What `createRunWorktree` comes to: the worktree; a refusal before git has made anything; or a
-- `git worktree add` that failed, with the clean-up that follows it.
pub data Creation : Type 0 where
  created refused : Creation
  failed_midway : Removal → Creation

-- What the steps of an attempt come to.
pub record Events : Type 0 where
  pub run_id : Option String
  pub creation : Creation
  pub first_save : Bool
  pub retained : Option ℕ
  pub discard : Discard
  pub ambiguous_save : Bool
  pub removes : Bool
  pub starts : Bool
  pub working_save : Bool
  pub stops : Bool
  pub failure : Backoff
  pub rounds : List Round
  pub cleared : Bool
  pub last_save : Bool

-- After an attempt: whether its worktree is on the disk, what the registry holds of the run,
-- whether the executor was started, and what is returned.
pub record Attempted : Type 0 where
  pub worktree : Bool
  pub saved : Option RunState
  pub launched : Bool
  pub state : Option RunState
  pub error : Option AttemptError

-- The record of a run whose worktree could not be discarded.
abbrev pub saved_ambiguous : Events → RunState → Option RunState
saved_ambiguous e before = some (if e.ambiguous_save then ambiguous else before)

-- The record could not be written at first.
unfoldable pub unrecorded_launch : Events → Attempted
unrecorded_launch e =
    if discarded e.discard
    then record {
      worktree = false;
      saved = none;
      launched = false;
      state = none;
      error = some not_recorded;
    }
    else if e.ambiguous_save
    then record {
      worktree = tree_remains e.discard;
      saved = some ambiguous;
      launched = false;
      state = some ambiguous;
      error = some not_recorded_kept;
    }
    else record {
      worktree = tree_remains e.discard;
      saved = none;
      launched = false;
      state = some ambiguous;
      error = some undiscoverable_run;
    }

-- Nothing has been started: the worktree goes, and its record with it.
unfoldable pub backed_out : Events → AttemptError → AttemptError → Attempted
backed_out e why why_kept =
    if not (discarded e.discard)
    then record {
      worktree = tree_remains e.discard;
      saved = saved_ambiguous e launching;
      launched = false;
      state = some ambiguous;
      error = some why_kept;
    }
    else if e.removes
    then record { worktree = false; saved = none; launched = false; state = none; error = some why }
    else record {
      worktree = false;
      saved = some launching;
      launched = false;
      state = none;
      error = some run_record_removal;
    }

-- The executor runs, and its record could not be written.
unfoldable pub unrecorded_run : Events → Attempted
unrecorded_run e = record {
  worktree = true;
  saved = some launching;
  launched = true;
  state = some ambiguous;
  error = some (if e.stops then unrecorded else unrecorded_survived);
}

-- The run never held its task.
unfoldable pub released : Events → RunState → Attempted
released e state =
    if not (discarded e.discard)
    then record {
      worktree = tree_remains e.discard;
      saved = saved_ambiguous e working;
      launched = true;
      state = some ambiguous;
      error = none;
    }
    else if e.removes
    then record {
      worktree = false;
      saved = none;
      launched = true;
      state = some state;
      error = none;
    }
    else record {
      worktree = false;
      saved = some working;
      launched = true;
      state = some state;
      error = some run_record_removal;
    }

abbrev pub is_none {ℓ} : {A : Type ℓ} → Option A → Bool
is_none none = true
is_none (some a) = false

abbrev pub run_error : Option ReadError → Bool → Option AttemptError
run_error (some e) cleared = some (monitoring e)
run_error none cleared = if cleared then none else some group_survived

unfoldable pub retained_run : Events → Verdict → Attempted
retained_run e v = record {
  worktree = true;
  saved = some (if e.last_save then v.state else working);
  launched = true;
  state = some v.state;
  error = run_error v.error e.cleared;
}

unfoldable pub finished_run : Events → Verdict → Attempted
unfolding released retained_run
finished_run e v =
    if is_none v.error && (e.cleared && disposable v.state)
    then released e v.state
    else retained_run e v

abbrev pub supervised : Events → Progress → Option Attempted
supervised e (running s) = none
supervised e (ended v) = some (finished_run e v)

abbrev pub begin : Backoff → Supervising
begin failure = record {
  supervision = unsupervised;
  exited = false;
  post_exit_attempts = 0;
  failure = failure;
}

abbrev pub over : Option ℕ → Bool
over none = false
over (some retained) = ltb max_retained_runs retained

unfoldable pub launched_run : Events → String → Option Attempted
unfolding finished_run unrecorded_run backed_out
launched_run e run_id =
    if not e.starts
    then some (backed_out e not_started not_started_kept)
    else if not e.working_save
    then some (unrecorded_run e)
    else supervised e (supervise_run run_id (begin e.failure) e.rounds)

abbrev pub unstarted : AttemptError → Attempted
unstarted why = record {
  worktree = false;
  saved = none;
  launched = false;
  state = none;
  error = some why;
}

-- A worktree that could not be made, and what the clean-up has left of it.
abbrev pub uncreated : Removal → Attempted
uncreated r = record {
  worktree = leaves_tree r;
  saved = none;
  launched = false;
  state = none;
  error = some (if removes_all r then no_worktree else no_worktree_uncleaned);
}

abbrev pub recorded : Events → String → Option Attempted
recorded e run_id =
    if not e.first_save
    then some (unrecorded_launch e)
    else if over e.retained
    then some (backed_out e over_limit over_limit_kept)
    else launched_run e run_id

abbrev pub with_worktree : Events → String → Creation → Option Attempted
with_worktree e run_id created = recorded e run_id
with_worktree e run_id refused = some (unstarted no_worktree)
with_worktree e run_id (failed_midway r) = some (uncreated r)

abbrev pub with_run_id : Events → Option String → Option Attempted
with_run_id e none = some (unstarted no_run_id)
with_run_id e (some run_id) = with_worktree e run_id e.creation

-- Nothing is returned while the run goes on.
unfoldable pub attempt : Events → Option Attempted
unfolding unrecorded_launch backed_out launched_run
attempt e = with_run_id e e.run_id
