-- ===== src/Scheduling.antt =====
-- The loop of a schedule (dbs/scheduling.py) and the tasks of the manager's scheduler
-- (dbs/manager/scheduler.py). The clock, the outcomes of actions and the stop event are given.
use dbs.Prelude.{
  Bool, Bool-cases, List, Option, [], arith, false, if◌then◌else◌, inl, inr, leb, none, not, refl,
  some, ℕ, ◌&&◌, ◌+◌, ◌-◌, ◌<◌, ◌==◌, ◌||◌, ◌∷◌, ◌≡◌,
}
use dbs.Text.{Text, text_eq}

-- One round: whether a stop was asked for before it, whether the action raises, and whether a stop
-- comes during the wait.
pub record Round : Type 0 where
  pub stopped : Bool
  pub fails : Bool
  pub stopped_waiting : Bool

-- The loop, with the failures so far; `stop.is_set()` ends it where the rounds end.
unfoldable pub schedule_loop : Bool → List Round → ℕ → ℕ
schedule_loop once [] failures = failures
schedule_loop once (r ∷ rounds) failures =
    let counted = failures + (if r.fails then 1 else 0) in
    let rest = schedule_loop once rounds counted in
    if r.stopped
    then failures
    else if once
    then counted
    else if r.stopped_waiting
    then counted
    else rest

unfoldable pub run_schedule : Bool → List Round → ℕ
unfolding schedule_loop
run_schedule once rounds = schedule_loop once rounds 0

-- the seconds that a round waits for: `max(remaining, 0)`
unfoldable pub wait_seconds : ℕ → ℕ → ℕ → ℕ
wait_seconds interval_seconds started finished = interval_seconds - (finished - started)

-- `ScheduledTask` rows: a name, which is unique, and the time of the next run
abbrev pub Tasks : Type 0
Tasks = List (Text × ℕ)

-- `filter(name=name, next_run_at=scheduled).update(next_run_at=following)`
unfoldable pub reschedule : Text → ℕ → ℕ → Tasks → Tasks × ℕ
reschedule name scheduled following [] = ([], 0)
reschedule name scheduled following ((n, at) ∷ tasks) =
    let (others, count) = reschedule name scheduled following tasks in
    if text_eq n name && at == scheduled
    then ((n, following) ∷ others, count + 1)
    else ((n, at) ∷ others, count)

unfoldable pub claim : Text → ℕ → ℕ → Tasks → Tasks × Bool
unfolding reschedule
claim name scheduled following tasks =
    let (after, count) = reschedule name scheduled following tasks in (after, count == 1)

-- `filter(next_run_at__lte=now)`
unfoldable pub due : ℕ → Tasks → Tasks
due now [] = []
due now ((n, at) ∷ tasks) =
    let others = due now tasks in if leb at now then (n, at) ∷ others else others

-- The loop of `tick` over the due tasks; `interval_of` is `none` for a name not in `TASKS`.
unfoldable pub tick_rounds : (Text → Option ℕ) → ℕ → Tasks → Tasks → Tasks × List Text
unfolding claim
tick_rounds interval_of now [] tasks = (tasks, [])
tick_rounds interval_of now ((name, scheduled) ∷ found) tasks = elim (interval_of name) [
  | none ↦ tick_rounds interval_of now found tasks
  | some interval ↦
      let (after, claimed) = claim name scheduled (now + interval) tasks in
      let (last, dispatched) = tick_rounds interval_of now found after in
      (last, if claimed then name ∷ dispatched else dispatched)
]

-- The lease is acquired first; a process that does not get it dispatches nothing.
unfoldable pub tick : (Text → Option ℕ) → Bool → ℕ → Tasks → Tasks × List Text
unfolding tick_rounds due
tick interval_of leased now tasks =
    if not leased then (tasks, []) else tick_rounds interval_of now (due now tasks) tasks

-- The rounds that a schedule carries out.
abbrev pub carried_out : Bool → List Round → List Round
carried_out once [] = []
carried_out once (r ∷ rounds) =
    let rest = carried_out once rounds in
    if r.stopped then [] else if once || r.stopped_waiting then r ∷ [] else r ∷ rest

abbrev pub failures_of : List Round → ℕ
failures_of [] = 0
failures_of (r ∷ rounds) = (if r.fails then 1 else 0) + failures_of rounds

schedule_loop-failures :
    (once : Bool) (rounds : List Round) (failures : ℕ)
    → schedule_loop once rounds failures ≡ failures + failures_of (carried_out once rounds)
unfolding schedule_loop
schedule_loop-failures once [] failures = omega arith
schedule_loop-failures once (r ∷ rounds) failures =
    ground (arith, schedule_loop-failures once rounds (failures + (if r.fails then 1 else 0)))

-- A schedule goes on after a failure, and returns the number of the failures among the rounds that
-- it carried out.
run_schedule-failures :
    (once : Bool) (rounds : List Round)
    → run_schedule once rounds ≡ failures_of (carried_out once rounds)
unfolding run_schedule
run_schedule-failures once rounds = let e = schedule_loop-failures once rounds 0 in omega (arith, e)

-- No row of the name has that time.
reschedule-again :
    (name : Text) (scheduled following other : ℕ) (tasks : Tasks)
    → scheduled < following
    → (reschedule name scheduled other (reschedule name scheduled following tasks).0).1 ≡ 0
unfolding reschedule
reschedule-again name scheduled following other [] l = refl
reschedule-again name scheduled following other ((n, at) ∷ tasks) l =
    let ih = reschedule-again name scheduled following other tasks l in
    elim (Bool-cases (text_eq n name && at == scheduled)) [
      | inl here ↦
          let past : (text_eq n name && following == scheduled) ≡ false = ground (arith, l) in
          rw (here, reschedule, past) ih
      | inr there ↦ rw (there, reschedule, there) ih
    ]

-- Once a task is claimed for its time and moved to a later one, no process that saw the same time
-- can claim it again.
claim-again :
    (name : Text) (scheduled following other : ℕ) (tasks : Tasks)
    → scheduled < following
    → (claim name scheduled other (claim name scheduled following tasks).0).1 ≡ false
unfolding claim
claim-again name scheduled following other tasks l =
    rw (reschedule-again name scheduled following other tasks l) refl
