-- ===== src/Watcher/Registry.antt =====
-- The run registry of cli/cmd/slate/registry.go, and `cleanRun` of runs.go, which releases the
-- worktree of a run that is over.
pub mod Cleaning
use slate_do.Prelude.{
  ℕ, suc, ◌+◌, String, Bool, true, false, not, ◌&&◌, ◌||◌, Option, none, some, List, [], ◌∷◌, ◌++◌,
  find, keep, any, length, ltb, ◌==◌, nat_eq, string_eq, if◌then◌else◌, Result, ok, err,
}
use slate_do.Prelude.Sort.{sort_by, text_ltb}
use slate_do.Boards.Validation.{valid_uuid}
use slate_do.Watcher.Inspect.{
  RunState, launching, working, success, blocked, interrupted, ambiguous, lost_race, never_claimed,
}

-- A zero time is 0, and no process has the ID 0.
pub record RunRecord : Type 0 where
  pub run_id : String
  pub profile : String
  pub agent_id : String
  pub task_id : String
  pub branch : String
  pub worktree : String
  pub source_repository : String
  pub source_commit : String
  pub state : RunState
  pub child_pid : ℕ
  pub process_group_id : ℕ
  pub watcher_pid : ℕ
  pub created_at : ℕ
  pub updated_at : ℕ

-- `retained`
abbrev pub is_retained : RunState → Bool
is_retained launching = false
is_retained working = false
is_retained success = true
is_retained blocked = true
is_retained interrupted = true
is_retained ambiguous = true
is_retained lost_race = false
is_retained never_claimed = false

-- A file of the registry's directory: a record, or what cannot be read as one.
pub record File : Type 0 where
  pub name : String
  pub content : Option RunRecord

abbrev pub named_file : String → File → Bool
named_file run_id f = f.name == run_id

abbrev pub stamped : RunRecord → ℕ → RunRecord
stamped r now = record r {
  updated_at = now;
  created_at = (if r.created_at == 0 then now else r.created_at);
}

-- `remove`; a file that is not there is no error.
unfoldable pub remove : List File → String → List File
remove files run_id = keep (λ f. not (named_file run_id f)) files

-- `save` puts the record in the place of the run's file.
unfoldable pub save : List File → RunRecord → ℕ → List File
unfolding remove
save files r now =
    remove files r.run_id ++ record { name = r.run_id; content = some (stamped r now) } ∷ []

pub data LoadError : Type 0 where
  no_run unreadable_record : LoadError

abbrev pub read_file : Option File → Result LoadError RunRecord
read_file none = err no_run
read_file (some f) = elim f.content [ none ↦ err unreadable_record | some r ↦ ok r ]

unfoldable pub load : List File → String → Result LoadError RunRecord
load files run_id = read_file (find (named_file run_id) files)

unfoldable pub readable : List File → String → List RunRecord
readable [] profile = []
readable (f ∷ files) profile =
    let rest = readable files profile in
    elim f.content [
      | none ↦ rest
      | some r ↦ if not (profile == "") && not (r.profile == profile) then rest else r ∷ rest
    ]

abbrev pub older : RunRecord → RunRecord → Bool
older a b =
    if a.created_at == b.created_at
    then text_ltb a.run_id b.run_id
    else ltb a.created_at b.created_at

-- `list`: those of a profile, or all, the oldest first.
unfoldable pub list_runs : List File → String → List RunRecord
unfolding readable
list_runs files profile = sort_by older (readable files profile)

abbrev pub holds_worktree : RunRecord → Bool
holds_worktree r = is_retained r.state || not (r.worktree == "")

unfoldable pub retained_count : List File → String → ℕ
unfolding list_runs
retained_count files profile = length (keep holds_worktree (list_runs files profile))

-- A path: nothing there, a worktree with nothing uncommitted, one with changes, or no answer.
pub data Tree : Type 0 where
  absent clean dirty unreadable : Tree

-- What `cleanRun` reads and changes, and what the system answers it.
pub record Machine : Type 0 where
  pub files : List File
  pub disk : String → Tree
  pub group_alive : ℕ → Bool
  pub process_alive : ℕ → Bool
  pub removes : Bool

pub data CleanError : Type 0 where
  invalid_id process_running watcher_running holds_nothing uncommitted stat_failed not_removed :
      CleanError
  not_loaded : LoadError → CleanError

abbrev pub tree_at : (String → Tree) → String → Tree
tree_at disk path = if path == "" then absent else disk path

abbrev pub without : (String → Tree) → String → String → Tree
without disk path other = if other == path then absent else disk other

-- The record goes last, so that a worktree on the disk is never without one.
abbrev pub forget_run : Machine → String → Machine × Option CleanError
forget_run m run_id =
    if m.removes then (record m { files = remove m.files run_id }, none) else (m, some not_removed)

abbrev pub release : Machine → String → String → Tree → Machine × Option CleanError
release m run_id worktree absent = forget_run m run_id
release m run_id worktree clean = forget_run (record m { disk = without m.disk worktree }) run_id
release m run_id worktree dirty = (m, some uncommitted)
release m run_id worktree unreadable = (m, some stat_failed)

unfoldable pub clean_record : Machine → String → RunRecord → Machine × Option CleanError
clean_record m run_id r =
    if ltb 0 r.process_group_id && m.group_alive r.process_group_id
    then (m, some process_running)
    else if not (is_retained r.state) && (ltb 0 r.watcher_pid && m.process_alive r.watcher_pid)
    then (m, some watcher_running)
    else if not (is_retained r.state) && r.worktree == ""
    then (m, some holds_nothing)
    else release m run_id r.worktree (tree_at m.disk r.worktree)

abbrev pub clean_loaded :
    Machine → String → Result LoadError RunRecord → Machine × Option CleanError
clean_loaded m run_id (err e) = (m, some (not_loaded e))
clean_loaded m run_id (ok r) = clean_record m run_id r

unfoldable pub clean_run : Machine → String → Machine × Option CleanError
unfolding clean_record
clean_run m run_id =
    if not (valid_uuid run_id)
    then (m, some invalid_id)
    else clean_loaded m run_id (load m.files run_id)
