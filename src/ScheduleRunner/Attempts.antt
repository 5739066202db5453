-- ===== src/ScheduleRunner/Attempts.antt =====
-- How often the scheduled backups (dbs/schedule_runner.py) are attempted.
use dbs.Prelude.{
  length, ◌*◌, Bool, List, Option, [], arith, false, if◌then◌else◌, leb, none, refl, some, true, ℕ,
  ◌+◌, ◌<◌, ◌∷◌, ◌≡◌, ◌≤◌,
}
use dbs.ScheduleRunner.{
  Schedule, Tick, interrupted, retrying, running, RunStatus, run_due, run_taken, run_ticks, begins,
}

-- The ticks are not forced and stand in a time shorter than the interval.
abbrev pub AllWithin : ℕ → ℕ → List Tick → Type 0
AllWithin start interval [] = Unit {0}
AllWithin start interval (tick ∷ ticks) =
    (tick.force ≡ false)
    × (start ≤ tick.now)
    × (tick.now < start + interval)
    × AllWithin start interval ticks

-- How many backups a row still allows before `limit`.
abbrev pub budget_of : RunStatus → ℕ
budget_of running = 1
budget_of interrupted = 1
budget_of retrying = 0
budget_of _ = 2

abbrev waits_past : ℕ → Option ℕ → Bool
waits_past limit none = false
waits_past limit (some moment) = leb limit moment

budget : ℕ → Schedule → ℕ
budget limit schedule =
    if waits_past limit schedule.next_run_at then 0 else budget_of schedule.last_status

run_due-budget :
    (schedule : Schedule) (tick : Tick) (start interval : ℕ)
    → schedule.interval_seconds ≡ interval
    → tick.force ≡ false
    → start ≤ tick.now
    → tick.now < start + interval
    → let (after, begun) = run_due schedule tick in
      (after.interval_seconds ≡ interval)
      × ((if begun then 1 else 0) + budget (start + interval) after
          ≤ budget (start + interval) schedule)
unfolding run_due run_taken budget
run_due-budget schedule tick start interval i f l u = ground arith

run_ticks-budget :
    (ticks : List Tick) (schedule : Schedule) (start interval : ℕ)
    → schedule.interval_seconds ≡ interval
    → AllWithin start interval ticks
    → (run_ticks ticks schedule).1 ≤ budget (start + interval) schedule
unfolding run_ticks
run_ticks-budget [] schedule start interval i h = omega arith
run_ticks-budget (tick ∷ ticks) schedule start interval i (f, l, u, h) =
    let (same, spent) = run_due-budget schedule tick start interval i f l u in
    omega (arith, spent, run_ticks-budget ticks (run_due schedule tick).0 start interval same h)

budget_bound :
    (limit : ℕ) (schedule : Schedule) → budget limit schedule ≤ budget_of schedule.last_status
unfolding budget
budget_bound limit schedule = ground arith

at_most_two : (status : RunStatus) (n : ℕ) → n ≤ budget_of status → n ≤ 2
at_most_two status n h = ground arith

-- Calls that are not forced, in a time shorter than the interval, begin at most two backups,
-- however often the process dies; at most one after an attempt that was interrupted, and none
-- after a second one.
pub run_ticks-at_most_two :
    (schedule : Schedule) (ticks : List Tick) (start : ℕ)
    → AllWithin start schedule.interval_seconds ticks
    → ((run_ticks ticks schedule).1 ≤ 2)
      × ((run_ticks ticks schedule).1 ≤ budget_of schedule.last_status)
run_ticks-at_most_two schedule ticks start h =
    let spent = run_ticks-budget ticks schedule start schedule.interval_seconds refl h in
    let bound = budget_bound (start + schedule.interval_seconds) schedule in
    (
      at_most_two schedule.last_status ((run_ticks ticks schedule).1) (omega (arith, spent, bound)),
      omega (arith, spent, bound),
    )

-- The ticks are not forced, find the runner free and get as far as the backup, unless the last
-- attempts forbid it; each comes an interval or more after the one before it.
abbrev pub AllServed : ℕ → ℕ → List Tick → Type 0
AllServed start interval [] = Unit {0}
AllServed start interval (tick ∷ ticks) =
    (tick.force ≡ false)
    × (tick.busy ≡ false)
    × (begins tick.attempt ≡ true)
    × (start ≤ tick.now)
    × AllServed (tick.now + interval) interval ticks

-- The next run comes no later than `limit`.
abbrev pub is_due_by : ℕ → Schedule → Bool
is_due_by limit schedule = elim schedule.next_run_at [
  | none ↦ true
  | some moment ↦ leb moment limit
]

-- How near a row is to giving up an attempt.
abbrev debt : RunStatus → ℕ
debt running = 1
debt interrupted = 1
debt retrying = 2
debt _ = 0

run_due-debt :
    (schedule : Schedule) (tick : Tick) (start : ℕ)
    → schedule.enabled ≡ true
    → is_due_by start schedule ≡ true
    → tick.force ≡ false
    → tick.busy ≡ false
    → begins tick.attempt ≡ true
    → start ≤ tick.now
    → let (after, begun) = run_due schedule tick in
      (after.enabled ≡ true)
      × (after.interval_seconds ≡ schedule.interval_seconds)
      × (is_due_by (tick.now + schedule.interval_seconds) after ≡ true)
      × (2 + debt after.last_status ≤ 3 * (if begun then 1 else 0) + debt schedule.last_status)
unfolding run_due run_taken
run_due-debt schedule tick start e d f b g l = ground arith

run_ticks-debt :
    (ticks : List Tick) (schedule : Schedule) (start : ℕ)
    → schedule.enabled ≡ true
    → is_due_by start schedule ≡ true
    → AllServed start schedule.interval_seconds ticks
    → 2 * length ticks ≤ 3 * (run_ticks ticks schedule).1 + debt schedule.last_status
unfolding run_ticks
run_ticks-debt [] schedule start e d h = omega arith
run_ticks-debt (tick ∷ ticks) schedule start e d (f, b, g, l, h) =
    let (enabled, same, due, spent) = run_due-debt schedule tick start e d f b g l in
    let rest =
      run_ticks-debt ticks (run_due schedule tick).0 (tick.now + schedule.interval_seconds) enabled
        due (rw same h) in
    omega (arith, spent, rest)

debt_bound : (status : RunStatus) → debt status ≤ 2
debt_bound status = ground arith

-- A schedule that is on is served again and again, however often its process dies in the middle of
-- a backup: of `n` calls that are not forced, find the runner free and come an interval or more
-- after each other, the first when the schedule is due, at least (2 n - 2) / 3 begin a backup.
pub run_ticks-served :
    (schedule : Schedule) (ticks : List Tick) (start : ℕ)
    → schedule.enabled ≡ true
    → is_due_by start schedule ≡ true
    → AllServed start schedule.interval_seconds ticks
    → 2 * length ticks ≤ 3 * (run_ticks ticks schedule).1 + 2
run_ticks-served schedule ticks start e d h =
    let bound = debt_bound schedule.last_status in
    omega (arith, run_ticks-debt ticks schedule start e d h, bound)
