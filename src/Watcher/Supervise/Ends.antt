-- ===== src/Watcher/Supervise/Ends.antt =====
-- `superviseRun` of cli/cmd/slate/watch.go does not poll a dead run for ever.
use slate_do.Prelude.{
  ℕ, ◌+◌, ◌≤◌, ◌<◌, ◌≡◌, refl, sym, subst, String, true, ◌||◌, Option, none, some, List, [], ◌∷◌,
  length, ltb, string_eq, if◌then◌else◌, Bool-cases, inl, inr, arith,
}
use slate_do.Watcher.Api.{ReadError}
use slate_do.Watcher.Backoff.{Backoff, retry_delay}
use slate_do.Watcher.Inspect.{
  RunSupervision, Inspection, undecided, decided, failed, inspect_run, interrupted,
}
use slate_do.Watcher.Supervise.{
  Round, Supervising, Verdict, Progress, running, ended, verdict, post_exit_read_attempts, again,
  after_failure, waited, concluded, supervise_round, supervise_rest, supervise_run,
}

-- With the executor gone a round ends the supervision, or counts one more failed read.
abbrev Counts : ℕ → Progress → Type 0
Counts n (running t) =
    (t.exited ≡ true) × (t.post_exit_attempts ≡ n + 1) × (n + 1 ≤ post_exit_read_attempts)
Counts n (ended v) = Unit

again-Counts :
    (s : Supervising) (seen : RunSupervision) (failure : Backoff)
    → Counts s.post_exit_attempts (again s seen failure true)
again-Counts s seen failure = elim (Bool-cases (ltb 5 (s.post_exit_attempts + 1))) [
  | inl e ↦ rw e tt
  | inr e ↦ rw e (refl, refl, ground (arith, e))
]

failure-Counts :
    (s : Supervising) (r : Round) (seen : RunSupervision) (e : ReadError) (d : Option ℕ × Backoff)
    → s.exited ≡ true
    → Counts s.post_exit_attempts (after_failure s r seen e d)
failure-Counts s r seen e (none, failure) gone = tt
failure-Counts s r seen e (some wait, failure) gone =
    subst (λ b. Counts s.post_exit_attempts (again s seen failure (b || r.finished))) (sym gone)
      (again-Counts s seen failure)

concluded-Counts :
    (s : Supervising) (r : Round) (seen : RunSupervision) (i : Inspection)
    → s.exited ≡ true
    → Counts s.post_exit_attempts (concluded s r seen i)
concluded-Counts s r seen (failed e) gone = elim (Bool-cases r.stopping) [
  | inl stop ↦ rw stop tt
  | inr on ↦ rw on (failure-Counts s r seen e (retry_delay r.drawn e s.failure) gone)
]
concluded-Counts s r seen (decided state) gone = tt
concluded-Counts s r seen undecided gone =
    subst
      (λ b.
        Counts s.post_exit_attempts
          (if b then verdict interrupted true else waited s r seen r.wake))
      (sym gone) tt

round-Counts :
    (run_id : String) (s : Supervising) (r : Round)
    → s.exited ≡ true
    → Counts s.post_exit_attempts (supervise_round run_id s r)
unfolding supervise_round
round-Counts run_id s r gone =
    concluded-Counts s r (inspect_run s.supervision run_id r.reading s.exited).0
      (inspect_run s.supervision run_id r.reading s.exited).1 gone

rest-ends :
    (run_id : String) (rounds : List Round) (n : ℕ) (p : Progress)
    → Counts n p
    → ((t : Supervising)
        → t.exited ≡ true
        → t.post_exit_attempts ≡ n + 1
        → n + 1 ≤ post_exit_read_attempts
        → (v : Verdict) × (supervise_run run_id t rounds ≡ ended v))
    → (v : Verdict) × (supervise_rest run_id p (λ t. supervise_run run_id t rounds) ≡ ended v)
rest-ends run_id rounds n (running t) c rest = rest t c.0 c.1 c.2
rest-ends run_id rounds n (ended v) c rest = (v, refl)

-- Once the loop knows that the executor has gone, it reaches a verdict: at the latest with the read
-- that follows five failed ones, whatever the server answers.
pub supervise_run-ends :
    (run_id : String) (s : Supervising) (rounds : List Round)
    → s.exited ≡ true
    → s.post_exit_attempts ≤ post_exit_read_attempts
    → post_exit_read_attempts < length rounds + s.post_exit_attempts
    → (v : Verdict) × (supervise_run run_id s rounds ≡ ended v)
unfolding supervise_run
supervise_run-ends run_id s [] gone few enough = absurd (omega (arith, few, enough))
supervise_run-ends run_id s (r ∷ rounds) gone few enough =
    rest-ends run_id rounds s.post_exit_attempts (supervise_round run_id s r)
      (round-Counts run_id s r gone)
      (λ t out next few_still.
        supervise_run-ends run_id t rounds out (omega (arith, next, few_still))
          (omega (arith, next, enough)))
