-- ===== src/Watcher/Supervise/Evidence.antt =====
-- What `superviseRun` of cli/cmd/slate/watch.go needs to see before it says that a run never held
-- its task.
use slate_do.Prelude.{
  ℕ, ◌+◌, ◌≡◌, refl, sym, ◌∙◌, ap, subst, String, Bool, true, false, not, ◌&&◌, ◌||◌, Option, none,
  some, List, [], ◌∷◌, any, ltb, string_eq, if◌then◌else◌, Result, ok, err, Bool-cases, inl, inr,
  arith,
}
use slate_do.Watcher.Api.{TaskView, EntryView, ReadError}
use slate_do.Watcher.Backoff.{Backoff, retry_delay}
use slate_do.Watcher.Inspect.{
  RunState, interrupted, RunSupervision, unsupervised, Reading, Inspection, undecided, decided,
  failed, noted, inspect_entries, inspect_task, inspect_run,
}
use slate_do.Watcher.Supervise.{
  Wake, executor_finished, interrupt, timer, Round, Supervising, Verdict, Progress, running, ended,
  verdict, again, after_failure, waited, concluded, supervise_round, supervise_rest, supervise_run,
}
use slate_do.Watcher.Supervise.Discards.{
  disposable, sighted, missed, telling, inspect_run-telling, discards, inspect_run-discards,
}

-- A round goes on with what the reading has noted, or ends with a state that the reading decided,
-- or with one that is kept.
abbrev Follows : RunSupervision → Inspection → Progress → Type 0
Follows seen inspection (running t) = t.supervision ≡ seen
Follows seen inspection (ended v) = disposable v.state ≡ true → discards inspection ≡ true

again-Follows :
    (s : Supervising) (seen : RunSupervision) (failure : Backoff) (exited : Bool) (i : Inspection)
    → Follows seen i (again s seen failure exited)
again-Follows s seen failure exited i =
    elim (Bool-cases (exited && ltb 5 (s.post_exit_attempts + 1))) [
      | inl e ↦ rw e (λ h. cc h)
      | inr e ↦ rw e refl
    ]

failure-Follows :
    (s : Supervising) (r : Round) (seen : RunSupervision) (e : ReadError) (i : Inspection)
    (d : Option ℕ × Backoff)
    → Follows seen i (after_failure s r seen e d)
failure-Follows s r seen e i (none, failure) = λ h. cc h
failure-Follows s r seen e i (some wait, failure) =
    again-Follows s seen failure (s.exited || r.finished) i

waited-Follows :
    (s : Supervising) (r : Round) (seen : RunSupervision) (i : Inspection) (w : Wake)
    → Follows seen i (waited s r seen w)
waited-Follows s r seen i executor_finished = refl
waited-Follows s r seen i interrupt = λ h. cc h
waited-Follows s r seen i timer = refl

concluded-Follows :
    (s : Supervising) (r : Round) (seen : RunSupervision) (i : Inspection)
    → Follows seen i (concluded s r seen i)
concluded-Follows s r seen (failed e) = elim (Bool-cases r.stopping) [
  | inl stop ↦ rw stop (λ h. cc h)
  | inr on ↦ rw on (failure-Follows s r seen e (failed e) (retry_delay r.drawn e s.failure))
]
concluded-Follows s r seen (decided state) = λ h. h
concluded-Follows s r seen undecided = elim (Bool-cases s.exited) [
  | inl gone ↦ rw gone (λ h. cc h)
  | inr on ↦
      subst
        (λ b.
          Follows seen undecided (if b then verdict interrupted true else waited s r seen r.wake))
        (sym on) (waited-Follows s r seen undecided r.wake)
]

round-Follows :
    (run_id : String) (s : Supervising) (r : Round)
    → Follows
        (inspect_run s.supervision run_id r.reading s.exited).0
        (inspect_run s.supervision run_id r.reading s.exited).1
        (supervise_round run_id s r)
unfolding supervise_round
round-Follows run_id s r =
    concluded-Follows s r (inspect_run s.supervision run_id r.reading s.exited).0
      (inspect_run s.supervision run_id r.reading s.exited).1

ended-injective : {v w : Verdict} → Path Progress (ended v) (ended w) → v ≡ w
ended-injective h = cc h

not_disposable : (state : RunState) → (disposable state ≡ true → ⊥) → disposable state ≡ false
not_disposable state h = elim (Bool-cases (disposable state)) [ inl e ↦ absurd (h e) | inr e ↦ e ]

kept-round :
    (run_id : String) (rounds : List Round) (v : Verdict) (seen : RunSupervision) (i : Inspection)
    (p : Progress)
    → Follows seen i p
    → ((t : Supervising)
        → telling t.supervision ≡ true
        → supervise_run run_id t rounds ≡ ended v
        → disposable v.state ≡ false)
    → telling seen ≡ true
    → (discards i ≡ true → telling seen ≡ false)
    → supervise_rest run_id p (λ t. supervise_run run_id t rounds) ≡ ended v
    → disposable v.state ≡ false
kept-round run_id rounds v seen i (running t) f rest h d e = rest t (ap telling f ∙ h) e
kept-round run_id rounds v seen i (ended w) f rest h d e =
    let same : w ≡ v = ended-injective e in
    subst (λ x. disposable x.state ≡ false) same
      (not_disposable w.state (λ gone. cc (h, d (f gone))))

-- Once a run must not be said to be disposable, no verdict says it.
kept :
    (run_id : String) (s : Supervising) (rounds : List Round) (v : Verdict)
    → telling s.supervision ≡ true
    → supervise_run run_id s rounds ≡ ended v
    → disposable v.state ≡ false
unfolding supervise_run
kept run_id s [] v h e = cc e
kept run_id s (r ∷ rounds) v h e =
    kept-round run_id rounds v (inspect_run s.supervision run_id r.reading s.exited).0
      (inspect_run s.supervision run_id r.reading s.exited).1 (supervise_round run_id s r)
      (round-Follows run_id s r) (λ t m. kept run_id t rounds v m)
      (inspect_run-telling s.supervision run_id r.reading s.exited (ground (arith, h)))
      (λ d. (inspect_run-discards s.supervision run_id r.reading s.exited d).0) e

-- A run that was seen holding its task or writing to it, or that could not be seen for a while
-- with its executor running, is never said to be disposable: whatever happens in the rounds after
-- it.
pub supervise_run-keeps :
    (run_id : String) (s : Supervising) (r : Round) (rounds : List Round) (v : Verdict)
    → (sighted run_id r.reading || (not s.exited && missed r.reading)) ≡ true
    → supervise_run run_id s (r ∷ rounds) ≡ ended v
    → disposable v.state ≡ false
unfolding supervise_run
supervise_run-keeps run_id s r rounds v h e =
    kept-round run_id rounds v (inspect_run s.supervision run_id r.reading s.exited).0
      (inspect_run s.supervision run_id r.reading s.exited).1 (supervise_round run_id s r)
      (round-Follows run_id s r) (λ t m. kept run_id t rounds v m)
      (inspect_run-telling s.supervision run_id r.reading s.exited (ground (arith, h)))
      (λ d. (inspect_run-discards s.supervision run_id r.reading s.exited d).0) e

abbrev both_read : Result ReadError TaskView → Result ReadError (List EntryView) → Bool
both_read (err e) entries = false
both_read (ok task) (err e) = false
both_read (ok task) (ok entries) = true

-- A reading that began and ended with the executor running.
abbrev pub observes : Round → Bool
observes r = both_read r.reading.task r.reading.entries && r.reading.alive_at_end

entries-observed :
    (s : RunSupervision) (run_id : String) (r : Reading) (exited : Bool) (task : TaskView)
    (entries : Result ReadError (List EntryView))
    → (inspect_entries s run_id r exited task entries).0.observed ≡ true
    → (s.observed || (both_read (ok task) entries && r.alive_at_end)) ≡ true
unfolding noted
entries-observed s run_id r exited task (err e) h = ground (arith, h)
entries-observed s run_id r exited task (ok entries) h = ground (arith, h)

task-observed :
    (s : RunSupervision) (run_id : String) (r : Reading) (exited : Bool)
    (task : Result ReadError TaskView)
    → (inspect_task s run_id r exited task).0.observed ≡ true
    → (s.observed || (both_read task r.entries && r.alive_at_end)) ≡ true
task-observed s run_id r exited (err e) h = ground (arith, h)
task-observed s run_id r exited (ok task) h = entries-observed s run_id r exited task r.entries h

inspect_run-observed :
    (s : RunSupervision) (run_id : String) (r : Reading) (exited : Bool)
    → (inspect_run s run_id r exited).0.observed ≡ true
    → (s.observed || (both_read r.task r.entries && r.alive_at_end)) ≡ true
unfolding inspect_run
inspect_run-observed s run_id r exited h = task-observed s run_id r exited r.task h

observed-round :
    (run_id : String) (rounds : List Round) (v : Verdict) (seen : RunSupervision) (i : Inspection)
    (p : Progress)
    → Follows seen i p
    → ((t : Supervising)
        → supervise_run run_id t rounds ≡ ended v
        → (t.supervision.observed || any observes rounds) ≡ true)
    → (discards i ≡ true → seen.observed ≡ true)
    → disposable v.state ≡ true
    → supervise_rest run_id p (λ t. supervise_run run_id t rounds) ≡ ended v
    → (seen.observed || any observes rounds) ≡ true
observed-round run_id rounds v seen i (running t) f rest d gone e =
    ap (λ (x : RunSupervision). x.observed || any observes rounds) (sym f) ∙ rest t e
observed-round run_id rounds v seen i (ended w) f rest d gone e =
    let same : w ≡ v = ended-injective e in
    let seen_one : seen.observed ≡ true =
      d (f (ap (λ (x : Verdict). disposable x.state) same ∙ gone)) in
    ground (arith, seen_one)

observed :
    (run_id : String) (s : Supervising) (rounds : List Round) (v : Verdict)
    → supervise_run run_id s rounds ≡ ended v
    → disposable v.state ≡ true
    → (s.supervision.observed || any observes rounds) ≡ true
unfolding supervise_run
observed run_id s [] v e gone = cc e
observed run_id s (r ∷ rounds) v e gone =
    let seen = (inspect_run s.supervision run_id r.reading s.exited).0 in
    let h : (seen.observed || any observes rounds) ≡ true =
      observed-round run_id rounds v seen (inspect_run s.supervision run_id r.reading s.exited).1
        (supervise_round run_id s r) (round-Follows run_id s r)
        (λ t m. observed run_id t rounds v m gone)
        (λ d. (inspect_run-discards s.supervision run_id r.reading s.exited d).1) gone e in
    elim (Bool-cases seen.observed) [
      | inl now ↦ ground (arith, inspect_run-observed s.supervision run_id r.reading s.exited now)
      | inr not_now ↦ ground (arith, h, not_now)
    ]

-- A run is said to be disposable only when one of the readings of the task and of its entries was
-- complete with the executor still running.
pub supervise_run-observes :
    (run_id : String) (failure : Backoff) (rounds : List Round) (v : Verdict)
    → supervise_run run_id
        (record {
          supervision = unsupervised;
          exited = false;
          post_exit_attempts = 0;
          failure = failure;
        })
        rounds
      ≡ ended v
    → disposable v.state ≡ true
    → any observes rounds ≡ true
supervise_run-observes run_id failure rounds v e gone =
    observed run_id
      (record {
        supervision = unsupervised;
        exited = false;
        post_exit_attempts = 0;
        failure = failure;
      })
      rounds v e gone
