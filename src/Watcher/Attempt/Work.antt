-- ===== src/Watcher/Attempt/Work.antt =====
-- An attempt of cli/cmd/slate/watch.go does not destroy work: it keeps the worktree of a run that
-- may have held its task.
use slate_do.Prelude.{
  ◌≡◌, refl, sym, ◌∙◌, ap, subst, String, Bool, true, false, not, ◌&&◌, ◌||◌, Option, some, List,
  [], ◌∷◌, ◌++◌, Bool-cases, inl, inr, arith,
}
use slate_do.Watcher.Supervise.{
  Round, Supervising, Verdict, Progress, running, ended, supervise_round, supervise_rest,
  supervise_run,
}
use slate_do.Watcher.Supervise.Evidence.{supervise_run-keeps}
use slate_do.Watcher.Supervise.Discards.{disposable, sighted, missed}
use slate_do.Watcher.Attempt.{
  AttemptError, not_started, not_started_kept, over_limit, over_limit_kept, Events, Attempted,
  unrecorded_launch, backed_out, unrecorded_run, retained_run, finished_run, supervised, begin,
  over, launched_run, with_run_id, attempt, is_none, discarded, Creation, created, refused,
  failed_midway, no_worktree, unstarted, uncreated, recorded, with_worktree,
}

some-injective : {a b : Attempted} → Path (Option Attempted) (some a) (some b) → a ≡ b
some-injective h = cc h

running-injective : {s t : Supervising} → Path Progress (running s) (running t) → s ≡ t
running-injective h = cc h

disposed : (a b c : Bool) → (a && (b && c)) ≡ true → c ≡ true
disposed a b c h = ground (arith, h)

backed_out-launched :
    (e : Events) (why why_kept : AttemptError) → (backed_out e why why_kept).launched ≡ false
unfolding backed_out
backed_out-launched e why why_kept = elim (Bool-cases (discarded e.discard)) [
  | inr d ↦ rw d refl
  | inl d ↦ elim (Bool-cases e.removes) [ inl r ↦ rw (d, r) refl | inr r ↦ rw (d, r) refl ]
]

unrecorded_launch-launched : (e : Events) → (unrecorded_launch e).launched ≡ false
unfolding unrecorded_launch
unrecorded_launch-launched e = elim (Bool-cases (discarded e.discard)) [
  | inl d ↦ rw d refl
  | inr d ↦ elim (Bool-cases e.ambiguous_save) [ inl s ↦ rw (d, s) refl | inr s ↦ rw (d, s) refl ]
]

rest-append :
    (run_id : String) (t : Supervising) (before rest : List Round) (p : Progress)
    → ((x : Supervising)
        → supervise_run run_id x before ≡ running t
        → supervise_run run_id x (before ++ rest) ≡ supervise_run run_id t rest)
    → supervise_rest run_id p (λ x. supervise_run run_id x before) ≡ running t
    → supervise_rest run_id p (λ x. supervise_run run_id x (before ++ rest))
      ≡ supervise_run run_id t rest
rest-append run_id t before rest (running x) more h = more x h
rest-append run_id t before rest (ended v) more h = cc h

supervise_run-append :
    (run_id : String) (s t : Supervising) (before rest : List Round)
    → supervise_run run_id s before ≡ running t
    → supervise_run run_id s (before ++ rest) ≡ supervise_run run_id t rest
unfolding supervise_run
supervise_run-append run_id s t [] rest h =
    ap (λ x. supervise_run run_id x rest) (running-injective h)
supervise_run-append run_id s t (r ∷ before) rest h =
    rest-append run_id t before rest (supervise_round run_id s r)
      (λ x m. supervise_run-append run_id x t before rest m) h

module _ (e : Events) (run_id : String) (before after : List Round) (s : Supervising)
    (r : Round) where
  ended-keeps :
      (v : Verdict)
      → e.rounds ≡ before ++ r ∷ after
      → supervise_run run_id (begin e.failure) before ≡ running s
      → (sighted run_id r.reading || (not s.exited && missed r.reading)) ≡ true
      → supervise_run run_id (begin e.failure) e.rounds ≡ ended v
      → (finished_run e v).worktree ≡ true
  unfolding finished_run retained_run
  ended-keeps v split so_far seen h =
      let tail : supervise_run run_id s (r ∷ after) ≡ ended v =
        sym (supervise_run-append run_id (begin e.failure) s before (r ∷ after) so_far)
        ∙ ap (supervise_run run_id (begin e.failure)) (sym split)
        ∙ h in
      let keep : disposable v.state ≡ false = supervise_run-keeps run_id s r after v seen tail in
      elim (Bool-cases (is_none v.error && (e.cleared && disposable v.state))) [
        | inl free ↦ cc (keep, disposed (is_none v.error) e.cleared (disposable v.state) free)
        | inr kept ↦ rw kept refl
      ]

  supervised-keeps :
      (p : Progress) (a : Attempted)
      → ((v : Verdict) → p ≡ ended v → (finished_run e v).worktree ≡ true)
      → supervised e p ≡ some a
      → a.worktree ≡ true
  supervised-keeps (running t) a keep h = cc h
  supervised-keeps (ended v) a keep h =
      ap (λ (x : Attempted). x.worktree) (sym (some-injective h)) ∙ keep v refl

  launched-keeps :
      (a : Attempted)
      → e.rounds ≡ before ++ r ∷ after
      → supervise_run run_id (begin e.failure) before ≡ running s
      → (sighted run_id r.reading || (not s.exited && missed r.reading)) ≡ true
      → launched_run e run_id ≡ some a
      → a.launched ≡ true
      → a.worktree ≡ true
  unfolding launched_run unrecorded_run
  launched-keeps a split so_far seen h launched = elim (Bool-cases e.starts) [
    | inr never ↦ cc (
      launched,
      ap (λ (x : Attempted). x.launched) (sym (some-injective (rw never at h)))
          ∙ backed_out-launched e not_started not_started_kept,
    )
    | inl starts ↦ elim (Bool-cases e.working_save) [
      | inr lost ↦
          ap (λ (x : Attempted). x.worktree) (sym (some-injective (rw (starts, lost) at h)))
      | inl saved ↦
          supervised-keeps (supervise_run run_id (begin e.failure) e.rounds) a
            (λ v m. ended-keeps v split so_far seen m) (rw (starts, saved) at h)
    ]
  ]

  not_launched :
      (a b : Attempted) → a ≡ b → a.launched ≡ false → b.launched ≡ true → b.worktree ≡ true
  not_launched a b same off h = cc (h, ap (λ (x : Attempted). x.launched) (sym same) ∙ off)

  recorded-keeps :
      (a : Attempted)
      → e.rounds ≡ before ++ r ∷ after
      → supervise_run run_id (begin e.failure) before ≡ running s
      → (sighted run_id r.reading || (not s.exited && missed r.reading)) ≡ true
      → recorded e run_id ≡ some a
      → a.launched ≡ true
      → a.worktree ≡ true
  unfolding backed_out launched_run unrecorded_launch
  recorded-keeps a split so_far seen h launched = elim (Bool-cases e.first_save) [
    | inr lost ↦
        not_launched _ a (some-injective (rw lost at h)) (unrecorded_launch-launched e) launched
    | inl saved ↦ elim (Bool-cases (over e.retained)) [
      | inl full ↦
          not_launched _ a (some-injective (rw (saved, full) at h))
            (backed_out-launched e over_limit over_limit_kept) launched
      | inr room ↦ launched-keeps a split so_far seen (rw (saved, room) at h) launched
    ]
  ]

  created-keeps :
      (c : Creation) (a : Attempted)
      → e.rounds ≡ before ++ r ∷ after
      → supervise_run run_id (begin e.failure) before ≡ running s
      → (sighted run_id r.reading || (not s.exited && missed r.reading)) ≡ true
      → with_worktree e run_id c ≡ some a
      → a.launched ≡ true
      → a.worktree ≡ true
  created-keeps created a split so_far seen h launched =
      recorded-keeps a split so_far seen h launched
  created-keeps refused a split so_far seen h launched =
      not_launched (unstarted no_worktree) a (some-injective h) refl launched
  created-keeps (failed_midway m) a split so_far seen h launched =
      not_launched (uncreated m) a (some-injective h) refl launched

-- Once the executor has been started: if any reading before the end showed the run holding its
-- task or writing to it, or a read failed for a while with the executor running, then the
-- worktree is still on the disk when the attempt returns, whatever else fails.
pub attempt-keeps :
    (e : Events) (run_id : String) (before after : List Round) (s : Supervising) (r : Round)
    (a : Attempted)
    → e.run_id ≡ some run_id
    → e.rounds ≡ before ++ r ∷ after
    → supervise_run run_id (begin e.failure) before ≡ running s
    → (sighted run_id r.reading || (not s.exited && missed r.reading)) ≡ true
    → attempt e ≡ some a
    → a.launched ≡ true
    → a.worktree ≡ true
unfolding attempt
attempt-keeps e run_id before after s r a named split so_far seen h launched =
    created-keeps e run_id before after s r e.creation a split so_far seen
      (subst (λ n. with_run_id e n ≡ some a) named h) launched
