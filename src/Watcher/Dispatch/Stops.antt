-- ===== src/Watcher/Dispatch/Stops.antt =====
-- The watcher of cli/cmd/slate/watch.go does not start executors without end that do not work.
use slate_do.Prelude.{
  ℕ, ◌+◌, ◌≤◌, ◌<◌, ◌≡◌, refl, sym, subst, Bool, true, false, not, ◌&&◌, Option, none, some, List,
  [], ◌∷◌, length, leb, All, if◌then◌else◌, Bool-cases, inl, inr, ◌⊎◌, arith,
}
use slate_do.Watcher.Backoff.{next, reset}
use slate_do.Watcher.Inspect.{
  success, lost_race, ambiguous, never_claimed, launching, working, blocked, interrupted,
}
use slate_do.Watcher.Attempt.{max_retained_runs}
use slate_do.Watcher.Dispatch.{
  Check, passed, check_canceled, check_failed, recoverable_attempt_error, was_canceled, Outcome,
  reached, broke, Offer, launch_failure_limit, Watching, Turn, watching, stopped, failed,
  failed_launch, after_attempt, searched, counted_runs, checked, watch_round, watch_rest, watch,
}

-- A round that offers a candidate whose executor does not start, or exits without a claim.
abbrev pub unclaimed : Outcome → Bool
unclaimed (broke e) = true
unclaimed (reached never_claimed) = true
unclaimed (reached state) = false

abbrev pub wastes : Offer → Bool
wastes o = o.found && unclaimed o.outcome

-- After such a round the loop is over or has counted it.
abbrev Counts : ℕ → Turn → Type 0
Counts n (watching w) = (w.launch_failures ≡ n + 1) × (n + 1 < launch_failure_limit)
Counts n stopped = Unit
Counts n failed = Unit

failed_launch-Counts : (w : Watching) → Counts w.launch_failures (failed_launch w)
failed_launch-Counts w = elim (Bool-cases (leb 5 (w.launch_failures + 1))) [
  | inl e ↦ rw e tt
  | inr e ↦ rw e (refl, ground (arith, e))
]

outcome-Counts :
    (w : Watching) (o : Outcome) → unclaimed o ≡ true → Counts w.launch_failures (after_attempt w o)
outcome-Counts w (broke e) h = elim (Bool-cases (was_canceled e)) [
  | inl c ↦ rw c tt
  | inr on ↦ elim (Bool-cases (recoverable_attempt_error e)) [
    | inr never ↦ rw (on, never) tt
    | inl again ↦ rw (on, again) (failed_launch-Counts w)
  ]
]
outcome-Counts w (reached never_claimed) h = failed_launch-Counts w
outcome-Counts w (reached launching) h = cc h
outcome-Counts w (reached working) h = cc h
outcome-Counts w (reached success) h = cc h
outcome-Counts w (reached blocked) h = cc h
outcome-Counts w (reached interrupted) h = cc h
outcome-Counts w (reached ambiguous) h = cc h
outcome-Counts w (reached lost_race) h = cc h

search-Counts :
    (w : Watching) (o : Offer) (c : Check)
    → o.found ≡ true
    → unclaimed o.outcome ≡ true
    → Counts w.launch_failures (searched w o c)
search-Counts w o check_canceled f h = tt
search-Counts w o check_failed f h = tt
search-Counts w o passed f h =
    subst
      (λ b. Counts w.launch_failures (
        if not b
        then watching (record w { idle = (next o.drawn w.idle).1 })
        else after_attempt (record w { idle = reset w.idle }) o.outcome))
      (sym f) (outcome-Counts (record w { idle = reset w.idle }) o.outcome h)

retained-Counts :
    (w : Watching) (o : Offer) (n : Option ℕ)
    → o.found ≡ true
    → unclaimed o.outcome ≡ true
    → Counts w.launch_failures (counted_runs w o n)
retained-Counts w o none f h = tt
retained-Counts w o (some n) f h = elim (Bool-cases (leb max_retained_runs n)) [
  | inl full ↦ rw full tt
  | inr room ↦ rw room (search-Counts w o o.search f h)
]

checked-Counts :
    (w : Watching) (o : Offer) (c : Check)
    → o.found ≡ true
    → unclaimed o.outcome ≡ true
    → Counts w.launch_failures (checked w o c)
checked-Counts w o check_canceled f h = tt
checked-Counts w o check_failed f h = tt
checked-Counts w o passed f h =
    retained-Counts (record w { working_scope_checked = false }) o o.retained f h

round-Counts :
    (w : Watching) (o : Offer) → wastes o ≡ true → Counts w.launch_failures (watch_round w o)
unfolding watch_round
round-Counts w o h = elim (Bool-cases o.stopping) [
  | inl stop ↦ rw stop tt
  | inr on ↦
      subst
        (λ b. Counts w.launch_failures (
          if b
          then stopped
          else checked w o (if w.working_scope_checked then passed else o.work_check)))
        (sym on)
        (checked-Counts w o (if w.working_scope_checked then passed else o.work_check)
          (ground (arith, h)) (ground (arith, h)))
]

rest-over :
    (offers : List Offer) (n : ℕ) (t : Turn)
    → Counts n t
    → ((v : Watching)
        → v.launch_failures ≡ n + 1
        → n + 1 < launch_failure_limit
        → (watch v offers ≡ stopped) ⊎ (watch v offers ≡ failed))
    → (watch_rest t (λ v. watch v offers) ≡ stopped) ⊎ (watch_rest t (λ v. watch v offers) ≡ failed)
rest-over offers n (watching v) c rest = rest v c.0 c.1
rest-over offers n stopped c rest = inl refl
rest-over offers n failed c rest = inr refl

-- Executors that do not work are not started without end: when the rounds that offer a candidate
-- whose run fails to start or exits without a claim, those counted before included, are five on
-- end, the loop is over.
pub watch-stops :
    (w : Watching) (offers : List Offer)
    → w.launch_failures < launch_failure_limit
    → launch_failure_limit ≤ length offers + w.launch_failures
    → All (λ o. wastes o ≡ true) offers
    → (watch w offers ≡ stopped) ⊎ (watch w offers ≡ failed)
unfolding watch
watch-stops w [] few enough h = absurd (omega (arith, few, enough))
watch-stops w (o ∷ offers) few enough h =
    rest-over offers w.launch_failures (watch_round w o) (round-Counts w o h.0) (λ v n few_still.
      watch-stops v offers (omega (arith, n, few_still)) (omega (arith, n, enough)) h.1)
