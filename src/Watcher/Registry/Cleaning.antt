-- ===== src/Watcher/Registry/Cleaning.antt =====
-- What `cleanRun` of cli/cmd/slate/runs.go removes, and what it never does.
use slate_do.Prelude.{
  ◌≡◌, ◌≢◌, refl, ◌∙◌, ap, String, false, not, ◌&&◌, none, List, [], ◌∷◌, find, ltb, ◌==◌,
  string_eq, text_iff, text_refl, if◌then◌else◌, ok, err, Bool-cases, Result-cases, inl, inr, arith,
}
use slate_do.Boards.Validation.{valid_uuid}
use slate_do.Watcher.Registry.{
  RunRecord, is_retained, File, named_file, remove, no_run, load, read_file, Tree, absent, clean,
  dirty, unreadable, Machine, tree_at, without, forget_run, release, clean_record, clean_run,
}

remove-find :
    (files : List File) (run_id other : String)
    → find (named_file other) (remove files run_id)
      ≡ (if other == run_id then none else find (named_file other) files)
unfolding remove
remove-find [] run_id other = ground arith
remove-find (f ∷ files) run_id other = ground (
  arith,
  text_iff f.name run_id,
  text_iff f.name other,
  text_iff other run_id,
  remove-find files run_id other,
)

find-removed :
    (files : List File) (run_id : String) → find (named_file run_id) (remove files run_id) ≡ none
find-removed files run_id = remove-find files run_id run_id ∙ ground (arith, text_refl run_id)

find-other :
    (files : List File) (run_id other : String)
    → (other == run_id) ≡ false
    → find (named_file other) (remove files run_id) ≡ find (named_file other) files
find-other files run_id other h = remove-find files run_id other ∙ ground (arith, h)

forget_run-disk :
    (m : Machine) (run_id path : String)
    → tree_at (forget_run m run_id).0.disk path ≡ tree_at m.disk path
forget_run-disk m run_id path = elim (Bool-cases m.removes) [
  | inl e ↦ rw e refl
  | inr e ↦ rw e refl
]

without-dirty :
    (disk : String → Tree) (worktree path : String)
    → tree_at disk worktree ≡ clean
    → tree_at disk path ≡ dirty
    → tree_at (without disk worktree) path ≡ dirty
without-dirty disk worktree path here h = elim (Bool-cases (path == worktree)) [
  | inl e ↦ let same = (text_iff path worktree).0 e in cc (h, here, ap (tree_at disk) same)
  | inr e ↦ elim (Bool-cases (path == "")) [
    | inl none_there ↦ cc (rw none_there at h)
    | inr there ↦ rw (there, e) (rw there at h)
  ]
]

without-absent :
    (disk : String → Tree) (worktree : String) → tree_at (without disk worktree) worktree ≡ absent
without-absent disk worktree = ground (arith, text_refl worktree)

release-dirty :
    (m : Machine) (run_id worktree path : String) (t : Tree)
    → tree_at m.disk worktree ≡ t
    → tree_at m.disk path ≡ dirty
    → tree_at (release m run_id worktree t).0.disk path ≡ dirty
release-dirty m run_id worktree path absent here h = forget_run-disk m run_id path ∙ h
release-dirty m run_id worktree path dirty here h = h
release-dirty m run_id worktree path unreadable here h = h
release-dirty m run_id worktree path clean here h =
    forget_run-disk (record m { disk = without m.disk worktree }) run_id path
    ∙ without-dirty m.disk worktree path here h

clean_record-dirty :
    (m : Machine) (run_id : String) (r : RunRecord) (path : String)
    → tree_at m.disk path ≡ dirty
    → tree_at (clean_record m run_id r).0.disk path ≡ dirty
unfolding clean_record
clean_record-dirty m run_id r path h =
    elim (Bool-cases (ltb 0 r.process_group_id && m.group_alive r.process_group_id)) [
      | inl live ↦ rw live h
      | inr gone ↦
          elim (Bool-cases
            (not (is_retained r.state) && (ltb 0 r.watcher_pid && m.process_alive r.watcher_pid))) [
              | inl watched ↦ rw (gone, watched) h
              | inr free ↦ elim (Bool-cases (not (is_retained r.state) && r.worktree == "")) [
                | inl nothing ↦ rw (gone, free, nothing) h
                | inr tree ↦
                    rw (gone, free, tree)
                      (release-dirty m run_id r.worktree path (tree_at m.disk r.worktree) refl h)
              ]
            ]
    ]

-- Whatever is asked to be cleaned, and whether it succeeds, a worktree with uncommitted changes
-- stays.
pub clean_run-dirty :
    (m : Machine) (run_id path : String)
    → tree_at m.disk path ≡ dirty
    → tree_at (clean_run m run_id).0.disk path ≡ dirty
unfolding clean_run
clean_run-dirty m run_id path h = elim (Bool-cases (valid_uuid run_id)) [
  | inr bad ↦ rw bad h
  | inl good ↦ elim (Result-cases (load m.files run_id)) [
    | inl (r, e) ↦ rw (good, e) (clean_record-dirty m run_id r path h)
    | inr (why, e) ↦ rw (good, e) h
  ]
]

-- A cleaning that succeeds.
record Cleaned (m : Machine) (run_id : String) (r : RunRecord) (after : Machine) : Type 0 where
  group : (ltb 0 r.process_group_id && m.group_alive r.process_group_id) ≡ false
  watcher :
      (not (is_retained r.state) && (ltb 0 r.watcher_pid && m.process_alive r.watcher_pid)) ≡ false
  tree : tree_at after.disk r.worktree ≡ absent
  files : after.files ≡ remove m.files run_id

removed :
    (m : Machine) (run_id : String)
    → (forget_run m run_id).1 ≡ none
    → (forget_run m run_id).0.files ≡ remove m.files run_id
removed m run_id h = elim (Bool-cases m.removes) [ inl e ↦ rw e refl | inr e ↦ cc (rw e at h) ]

release-gone :
    (m : Machine) (run_id worktree : String) (t : Tree)
    → tree_at m.disk worktree ≡ t
    → (release m run_id worktree t).1 ≡ none
    → (tree_at (release m run_id worktree t).0.disk worktree ≡ absent)
      × ((release m run_id worktree t).0.files ≡ remove m.files run_id)
release-gone m run_id worktree absent here h =
    (forget_run-disk m run_id worktree ∙ here, removed m run_id h)
release-gone m run_id worktree dirty here h = cc h
release-gone m run_id worktree unreadable here h = cc h
release-gone m run_id worktree clean here h = (
  forget_run-disk (record m { disk = without m.disk worktree }) run_id worktree
      ∙ without-absent m.disk worktree,
  removed (record m { disk = without m.disk worktree }) run_id h,
)

clean_record-Cleaned :
    (m : Machine) (run_id : String) (r : RunRecord)
    → (clean_record m run_id r).1 ≡ none
    → Cleaned m run_id r (clean_record m run_id r).0
unfolding clean_record
clean_record-Cleaned m run_id r h =
    elim (Bool-cases (ltb 0 r.process_group_id && m.group_alive r.process_group_id)) [
      | inl live ↦ cc (rw live at h)
      | inr gone ↦
          elim (Bool-cases
            (not (is_retained r.state) && (ltb 0 r.watcher_pid && m.process_alive r.watcher_pid))) [
              | inl watched ↦ cc (rw (gone, watched) at h)
              | inr free ↦ elim (Bool-cases (not (is_retained r.state) && r.worktree == "")) [
                | inl nothing ↦ cc (rw (gone, free, nothing) at h)
                | inr tree ↦
                    let out =
                      release-gone m run_id r.worktree (tree_at m.disk r.worktree) refl
                        (rw (gone, free, tree) at h) in
                    rw (gone, free, tree)
                      (record { group = gone; watcher = free; tree = out.0; files = out.1 })
              ]
            ]
    ]

-- A cleaning that succeeds was asked of a recorded run of which no process is alive, and whose
-- watcher is not alive either where the run is not over; then its worktree is gone, its record is
-- gone, and the records of other runs are as they were.
pub clean_run-cleans :
    (m : Machine) (run_id other : String)
    → (clean_run m run_id).1 ≡ none
    → other ≢ run_id
    → (r : RunRecord) × (load m.files run_id ≡ ok r)
      × ((ltb 0 r.process_group_id && m.group_alive r.process_group_id) ≡ false)
      × ((not (is_retained r.state) && (ltb 0 r.watcher_pid && m.process_alive r.watcher_pid))
          ≡ false)
      × (tree_at (clean_run m run_id).0.disk r.worktree ≡ absent)
      × (load (clean_run m run_id).0.files run_id ≡ err no_run)
      × (load (clean_run m run_id).0.files other ≡ load m.files other)
unfolding clean_run load
clean_run-cleans m run_id other h apart = elim (Bool-cases (valid_uuid run_id)) [
  | inr bad ↦ cc (rw bad at h)
  | inl good ↦ elim (Result-cases (load m.files run_id)) [
    | inr (why, e) ↦ cc (rw (good, e) at h)
    | inl (r, e) ↦
        let c = clean_record-Cleaned m run_id r (rw (good, e) at h) in
        let other_file : (other == run_id) ≡ false = ground (arith, text_iff other run_id, apart) in
        (
          r,
          e,
          c.group,
          c.watcher,
          rw (good, e) c.tree,
          rw (good, e)
              (ap (λ files. read_file (find (named_file run_id) files)) c.files
                ∙ ap read_file (find-removed m.files run_id)),
          rw (good, e)
              (ap (λ files. read_file (find (named_file other) files)) c.files
                ∙ ap read_file (find-other m.files run_id other other_file)),
        )
  ]
]
