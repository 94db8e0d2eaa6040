-- ===== src/Watcher/Attempt/Traces.antt =====
-- What an attempt of cli/cmd/slate/watch.go leaves behind.
use slate_do.Prelude.{
  ◌≡◌, refl, subst, String, true, false, ◌&&◌, Option, none, some, Bool-cases, inl, inr, ◌⊎◌,
}
use slate_do.Watcher.Inspect.{RunState, ambiguous}
use slate_do.Watcher.Supervise.{Verdict, Progress, running, ended, supervise_run}
use slate_do.Watcher.Supervise.Discards.{disposable}
use slate_do.Watcher.Attempt.{
  AttemptError, not_started, not_started_kept, over_limit, over_limit_kept, undiscoverable_run,
  run_record_removal, no_worktree_uncleaned, Removal, leaves_tree, discarded, Creation, created,
  refused, failed_midway, Events, Attempted, unrecorded_launch, backed_out, unrecorded_run,
  released, retained_run, finished_run, supervised, begin, over, launched_run, uncreated, recorded,
  with_worktree, with_run_id, attempt, is_none,
}

-- What is on the disk is in the registry, but for two errors; and a record without a worktree is
-- that of a run whose discarding failed, which is ambiguous, or one that could not be removed.
abbrev pub IsTraced : Attempted → Type 0
IsTraced a =
    (a.worktree ≡ true
      → (is_none a.saved ≡ false)
        ⊎ (a.error ≡ some undiscoverable_run)
        ⊎ (a.error ≡ some no_worktree_uncleaned))
    × (is_none a.saved ≡ false
        → (a.worktree ≡ true) ⊎ (a.state ≡ some ambiguous) ⊎ (a.error ≡ some run_record_removal))

unrecorded_launch-IsTraced : (e : Events) → IsTraced (unrecorded_launch e)
unfolding unrecorded_launch
unrecorded_launch-IsTraced e = elim (Bool-cases (discarded e.discard)) [
  | inl d ↦ rw d (λ t. cc t, λ s. cc s)
  | inr d ↦ elim (Bool-cases e.ambiguous_save) [
    | inl s ↦ rw (d, s) (λ _. inl refl, λ _. inr (inl refl))
    | inr s ↦ rw (d, s) (λ _. inr (inl refl), λ h. cc h)
  ]
]

backed_out-IsTraced :
    (e : Events) (why why_kept : AttemptError) → IsTraced (backed_out e why why_kept)
unfolding backed_out
backed_out-IsTraced e why why_kept = elim (Bool-cases (discarded e.discard)) [
  | inr d ↦ rw d (λ _. inl refl, λ _. inr (inl refl))
  | inl d ↦ elim (Bool-cases e.removes) [
    | inl r ↦ rw (d, r) (λ t. cc t, λ s. cc s)
    | inr r ↦ rw (d, r) (λ t. cc t, λ _. inr (inr refl))
  ]
]

released-IsTraced : (e : Events) (state : RunState) → IsTraced (released e state)
unfolding released
released-IsTraced e state = elim (Bool-cases (discarded e.discard)) [
  | inr d ↦ rw d (λ _. inl refl, λ _. inr (inl refl))
  | inl d ↦ elim (Bool-cases e.removes) [
    | inl r ↦ rw (d, r) (λ t. cc t, λ s. cc s)
    | inr r ↦ rw (d, r) (λ t. cc t, λ _. inr (inr refl))
  ]
]

uncreated-IsTraced : (r : Removal) → IsTraced (uncreated r)
uncreated-IsTraced r = elim (Bool-cases (leaves_tree r)) [
  | inl left ↦ (λ _. inr (inr (rw left refl)), λ h. cc h)
  | inr gone ↦ (λ t. cc (t, gone), λ h. cc h)
]

finished_run-IsTraced : (e : Events) (v : Verdict) → IsTraced (finished_run e v)
unfolding finished_run retained_run
finished_run-IsTraced e v =
    elim (Bool-cases (is_none v.error && (e.cleared && disposable v.state))) [
      | inl free ↦ rw free (released-IsTraced e v.state)
      | inr kept ↦ rw kept (λ _. inl refl, λ _. inl refl)
    ]

some-injective : {a b : Attempted} → Path (Option Attempted) (some a) (some b) → a ≡ b
some-injective h = cc h

supervised-IsTraced :
    (e : Events) (p : Progress) (a : Attempted) → supervised e p ≡ some a → IsTraced a
supervised-IsTraced e (running s) a h = cc h
supervised-IsTraced e (ended v) a h = subst IsTraced (some-injective h) (finished_run-IsTraced e v)

launched_run-IsTraced :
    (e : Events) (run_id : String) (a : Attempted) → launched_run e run_id ≡ some a → IsTraced a
unfolding launched_run unrecorded_run
launched_run-IsTraced e run_id a h = elim (Bool-cases e.starts) [
  | inr never ↦
      subst IsTraced (some-injective (rw never at h))
        (backed_out-IsTraced e not_started not_started_kept)
  | inl starts ↦ elim (Bool-cases e.working_save) [
    | inr lost ↦
        subst IsTraced (some-injective (rw (starts, lost) at h)) (λ _. inl refl, λ _. inl refl)
    | inl saved ↦
        supervised-IsTraced e (supervise_run run_id (begin e.failure) e.rounds) a
          (rw (starts, saved) at h)
  ]
]

recorded-IsTraced :
    (e : Events) (run_id : String) (a : Attempted) → recorded e run_id ≡ some a → IsTraced a
unfolding backed_out launched_run unrecorded_launch
recorded-IsTraced e run_id a h = elim (Bool-cases e.first_save) [
  | inr lost ↦ subst IsTraced (some-injective (rw lost at h)) (unrecorded_launch-IsTraced e)
  | inl saved ↦ elim (Bool-cases (over e.retained)) [
    | inl full ↦
        subst IsTraced (some-injective (rw (saved, full) at h))
          (backed_out-IsTraced e over_limit over_limit_kept)
    | inr room ↦ launched_run-IsTraced e run_id a (rw (saved, room) at h)
  ]
]

created-IsTraced :
    (e : Events) (run_id : String) (c : Creation) (a : Attempted)
    → with_worktree e run_id c ≡ some a
    → IsTraced a
created-IsTraced e run_id created a h = recorded-IsTraced e run_id a h
created-IsTraced e run_id refused a h = subst IsTraced (some-injective h) (λ t. cc t, λ s. cc s)
created-IsTraced e run_id (failed_midway r) a h =
    subst IsTraced (some-injective h) (uncreated-IsTraced r)

named-IsTraced :
    (e : Events) (run_id : Option String) (a : Attempted)
    → with_run_id e run_id ≡ some a
    → IsTraced a
named-IsTraced e none a h = subst IsTraced (some-injective h) (λ t. cc t, λ s. cc s)
named-IsTraced e (some run_id) a h = created-IsTraced e run_id e.creation a h

-- However its steps fail, an attempt that returns with something left at its worktree's path has a
-- record of the run in the registry, so that it can be listed, counted and cleaned, but for two
-- errors: the worktree could be neither discarded nor recorded, or git failed to make it and the
-- clean-up failed as well. And a record without a worktree is that of a run that is ambiguous, since
-- it could not be discarded in full, or comes with the error that the record could not be removed.
pub attempt-IsTraced : (e : Events) (a : Attempted) → attempt e ≡ some a → IsTraced a
unfolding attempt
attempt-IsTraced e a h = named-IsTraced e e.run_id a h
