-- ===== src/Watcher/Examples.antt =====
-- Runs of one task as the watcher of cli/cmd/slate sees them.
use slate_do.Prelude.{
  ℕ, ◌+◌, ◌*◌, ◌^◌, ◌≤◌, min, ◌≡◌, ◌≢◌, text_iff, refl, String, Bool, true, false, not, ◌&&◌,
  Option, ◌-◌, none, some, List, [], ◌∷◌, ltb, any, ◌⊎◌, ok, err, arith,
}
use slate_do.Boards.Validation.{valid_uuid}
use slate_do.Watcher.Api.{unreachable, api, equal_fold, classify_run_entries}
use slate_do.Watcher.Backoff.{
  backoff_base, backoff_ceiling, new_backoff, healthy_idle_bounds, spread_of, next, retry_delay,
}
use slate_do.Watcher.Backoff.Bounds.{next-bounds, Retries, retry_delay-bounds}
use slate_do.Watcher.Inspect.{lost_race, interrupted, never_claimed, Reading, inspect_run}
use slate_do.Watcher.Supervise.{
  Round, Supervising, Verdict, ended, timer, executor_finished, supervise_run,
}
use slate_do.Watcher.Supervise.Evidence.{observes, supervise_run-observes}
use slate_do.Watcher.Supervise.Ends.{supervise_run-ends}
use slate_do.Watcher.Attempt.{
  created, failed_midway, no_worktree_uncleaned, Events, Attempted, begin, attempt,
}
use slate_do.Watcher.Attempt.Traces.{IsTraced, attempt-IsTraced}
use slate_do.Watcher.Attempt.Work.{attempt-keeps}
use slate_do.Watcher.Registry.{
  RunRecord, is_retained, Tree, absent, clean, dirty, Machine, tree_at, no_run, load, remove,
  clean_run,
}
use slate_do.Watcher.Registry.Cleaning.{clean_run-dirty, clean_run-cleans}
use slate_do.Watcher.Dispatch.{reached, passed, Offer, Watching, stopped, failed, watch}
use slate_do.Watcher.Dispatch.Stops.{watch-stops}

abbrev none_added : Option ℕ
none_added = some 0

-- The largest number that can be drawn.
abbrev most_added : Option ℕ
most_added = some (2 ^ 64 - 1)

next-bounds_example :
    (min (backoff_base * 2 ^ 0) backoff_ceiling ≤ (next most_added new_backoff).0)
    × ((next most_added new_backoff).0 * 5 ≤ min (backoff_base * 2 ^ 0) backoff_ceiling * 6)
    × (backoff_base ≤ (next most_added new_backoff).0)
    × ((next most_added new_backoff).0 * 5 ≤ backoff_ceiling * 6)
    × ((next most_added new_backoff).1 ≡ record new_backoff { attempts = 0 + 1 })
    × ((n : ℕ)
        → (healthy_idle_bounds.0 ≤ (next most_added (record new_backoff { attempts = n })).0)
          × ((next most_added (record new_backoff { attempts = n })).0 ≤ healthy_idle_bounds.1))
next-bounds_example = next-bounds most_added new_backoff (omega arith) refl

-- Almost a fifth of five seconds.
spread_most : (next most_added new_backoff).0 ≡ 5999999999
unfolding next spread_of
spread_most = refl

retry_delay-bounds_example : Retries none_added new_backoff
retry_delay-bounds_example = retry_delay-bounds none_added new_backoff

-- A rate limit's half a minute is longer than the first wait.
hinted :
    retry_delay none_added (api 429 "30") new_backoff
    ≡ (some 30000000000, record new_backoff { attempts = 1 })
unfolding retry_delay spread_of
hinted = refl

abbrev reading : String → String → Bool → Reading
reading status run alive = record {
  task = ok (record { id = "t"; status = status; execution_run_id = run });
  entries = ok [];
  alive_at_task = alive;
  alive_at_entries = alive;
  alive_at_end = alive;
}

abbrev round : Reading → Round
round r = record {
  reading = r;
  stopping = false;
  finished = false;
  drawn = none_added;
  wake = timer;
}

abbrev last_round : Reading → Round
last_round r = record (round r) { wake = executor_finished }

-- The executor exits while another run holds the task.
abbrev losing : List Round
losing = last_round (reading "queued" "" true) ∷ round (reading "working" "other" false) ∷ []

abbrev lost : Verdict
lost = record { state = lost_race; reaped = true; error = none }

losing-lost : supervise_run "mine" (begin new_backoff) losing ≡ ended lost
unfolding supervise_run inspect_run equal_fold classify_run_entries
losing-lost = refl

supervise_run-observes_example : any observes losing ≡ true
supervise_run-observes_example =
    supervise_run-observes "mine" new_backoff losing lost losing-lost refl

abbrev unread : Round
unread = round (record (reading "queued" "" false) { task = err unreachable })

abbrev dead : Supervising
dead = record (begin new_backoff) { exited = true }

supervise_run-ends_example :
    (v : Verdict) × (supervise_run "mine" dead
        (unread ∷ unread ∷ unread ∷ unread ∷ unread ∷ unread ∷ [])
      ≡ ended v)
supervise_run-ends_example =
    supervise_run-ends "mine" dead (unread ∷ unread ∷ unread ∷ unread ∷ unread ∷ unread ∷ []) refl
      (omega arith) (omega arith)

-- The executor held its task for a while, and left it.
abbrev holding : Round
holding = round (reading "working" "MINE" true)

abbrev leaving : List Round
leaving = last_round (reading "queued" "" true) ∷ round (reading "queued" "" false) ∷ []

abbrev events : Events
events = record {
  run_id = some "mine";
  creation = created;
  first_save = true;
  retained = some 3;
  discard = record {
    locks = true;
    removal = record { git_removes_tree = true; removes_directory = true; deletes_branch = true };
  };
  ambiguous_save = true;
  removes = true;
  starts = true;
  working_save = true;
  stops = true;
  failure = new_backoff;
  rounds = holding ∷ leaving;
  cleared = true;
  last_save = true;
}

abbrev left : Attempted
left = record {
  worktree = true;
  saved = some interrupted;
  launched = true;
  state = some interrupted;
  error = none;
}

events-left : attempt events ≡ some left
unfolding attempt supervise_run inspect_run equal_fold classify_run_entries
events-left = refl

attempt-IsTraced_example : IsTraced left
attempt-IsTraced_example = attempt-IsTraced events left events-left

-- git fails to make the worktree, and to clean up after itself: a tree is left without a record.
stuck :
    attempt (record events {
      creation =
          failed_midway
            (record { git_removes_tree = false; removes_directory = false; deletes_branch = true });
    })
    ≡ some (record {
      worktree = true;
      saved = none;
      launched = false;
      state = none;
      error = some no_worktree_uncleaned;
    })
unfolding attempt
stuck = refl

attempt-keeps_example : left.worktree ≡ true
unfolding supervise_run equal_fold classify_run_entries
attempt-keeps_example =
    attempt-keeps events "mine" [] leaving (begin new_backoff) holding left refl refl refl refl
      events-left refl

abbrev mine : String
mine = "0b9a8c7d-1234-4abc-8def-0123456789ab"

abbrev kept : RunRecord
kept = record {
  run_id = mine;
  profile = "p";
  agent_id = "a";
  task_id = "t";
  branch = "b";
  worktree = "/w";
  source_repository = "/r";
  source_commit = "c";
  state = interrupted;
  child_pid = 0;
  process_group_id = 0;
  watcher_pid = 7;
  created_at = 1;
  updated_at = 2;
}

abbrev machine : Tree → Machine
machine t = record {
  files =
      record { name = mine; content = some kept } ∷ record { name = "other"; content = none } ∷ [];
  disk = λ path. t;
  group_alive = λ p. false;
  process_alive = λ p. false;
  removes = true;
}

clean_run-dirty_example : tree_at (clean_run (machine dirty) mine).0.disk "/w" ≡ dirty
clean_run-dirty_example = clean_run-dirty (machine dirty) mine "/w" refl

cleaned : (clean_run (machine clean) mine).1 ≡ none
unfolding clean_run valid_uuid load remove
cleaned = refl

other_run : "other" ≢ mine
other_run same = cc ((text_iff "other" mine).1 same)

clean_run-cleans_example :
    (r : RunRecord) × (load (machine clean).files mine ≡ ok r)
    × ((ltb 0 r.process_group_id && (machine clean).group_alive r.process_group_id) ≡ false)
    × ((not (is_retained r.state)
          && (ltb 0 r.watcher_pid && (machine clean).process_alive r.watcher_pid))
        ≡ false)
    × (tree_at (clean_run (machine clean) mine).0.disk r.worktree ≡ absent)
    × (load (clean_run (machine clean) mine).0.files mine ≡ err no_run)
    × (load (clean_run (machine clean) mine).0.files "other" ≡ load (machine clean).files "other")
clean_run-cleans_example = clean_run-cleans (machine clean) mine "other" cleaned other_run

abbrev wasted : Offer
wasted = record {
  stopping = false;
  work_check = passed;
  retained = some 0;
  search = passed;
  found = true;
  outcome = reached never_claimed;
  drawn = none_added;
}

abbrev fresh : Watching
fresh = record { working_scope_checked = true; launch_failures = 0; idle = new_backoff }

watch-stops_example :
    (watch fresh (wasted ∷ wasted ∷ wasted ∷ wasted ∷ wasted ∷ []) ≡ stopped)
    ⊎ (watch fresh (wasted ∷ wasted ∷ wasted ∷ wasted ∷ wasted ∷ []) ≡ failed)
watch-stops_example =
    watch-stops fresh (wasted ∷ wasted ∷ wasted ∷ wasted ∷ wasted ∷ []) (omega arith) (omega arith)
      (refl, (refl, (refl, (refl, (refl, tt)))))
