-- ===== src/ScheduleRunner.antt =====
-- The scheduled backups (dbs/schedule_runner.py) and the row that their state stands in
-- (`BackupSchedule`, dbs/models.py). Whether the schedule's process lives through an attempt, and
-- how the attempt ends, is given; the lease of the runner is a test that a tick passes or not.
pub mod Attempts
use dbs.Prelude.{
  Bool, List, Option, [], false, if◌then◌else◌, leb, max, min, none, not, some, true, ℕ, ◌&&◌, ◌+◌,
  ◌∷◌,
}

-- `last_status`; `other` stands for the empty one
pub data RunStatus : Type 0 where
  other running retrying interrupted succeeded failed : RunStatus

-- `last_error`: the two texts of an interruption, and the text of an exception
pub data LastError : Type 0 where
  no_error interrupted_once interrupted_twice raised : LastError

pub record Schedule : Type 0 where
  pub enabled : Bool
  pub interval_seconds : ℕ
  pub next_run_at : Option ℕ
  pub last_run_at : Option ℕ
  pub last_status : RunStatus
  pub last_error : LastError

-- How an attempt goes on: the process ends before `_run` has noted it or before it is over, or the
-- backup raises, or it is written.
pub data Attempt : Type 0 where
  dies_early dies raises completes : Attempt

-- One call of `run_due`: the time, whether it is forced, whether the runner's lease is held by
-- another job, the time when the attempt ends, and the attempt.
pub record Tick : Type 0 where
  pub now : ℕ
  pub force : Bool
  pub busy : Bool
  pub ended : ℕ
  pub attempt : Attempt

unfoldable pub is_due : Schedule → ℕ → Bool
is_due schedule now = elim schedule.next_run_at [ none ↦ true | some moment ↦ leb moment now ]

-- `_resume`: the row, and whether the attempt may begin
unfoldable pub resume : Schedule → ℕ → Schedule × Bool
resume schedule now = elim schedule.last_status [
  | running ↦ (record schedule { last_status = interrupted; last_error = interrupted_once }, true)
  | retrying ↦ (
    record schedule {
      last_status = failed;
      last_error = interrupted_twice;
      next_run_at = some (now + schedule.interval_seconds);
    },
    false,
  )
  | _ ↦ (schedule, true)
]

unfoldable pub attempt_status : RunStatus → RunStatus
attempt_status interrupted = retrying
attempt_status _ = running

-- `_run`, up to where the process ends
unfoldable pub run : Schedule → ℕ → ℕ → Attempt → Schedule
unfolding attempt_status
run schedule now ended attempt =
    let following = now + schedule.interval_seconds in
    let begun = record schedule {
      last_status = attempt_status schedule.last_status;
      last_run_at = some now;
    } in
    elim attempt [
      | dies_early ↦ schedule
      | dies ↦ begun
      | raises ↦ record begun {
        last_run_at = some ended;
        last_status = failed;
        last_error = raised;
        next_run_at = some following;
      }
      | completes ↦ record begun {
        last_run_at = some ended;
        last_status = succeeded;
        last_error = no_error;
        next_run_at = some following;
      }
    ]

-- whether the attempt gets as far as the backup
unfoldable pub begins : Attempt → Bool
begins dies_early = false
begins _ = true

-- What follows when the runner's lease is taken: the row, and whether a backup was begun.
unfoldable pub run_taken : Schedule → Tick → Schedule × Bool
unfolding resume is_due run begins
run_taken schedule tick =
    let (resumed, may_run) = resume schedule tick.now in
    if not may_run && not tick.force
    then (resumed, false)
    else if not tick.force && not (is_due resumed tick.now)
    then (resumed, false)
    else (run resumed tick.now tick.ended tick.attempt, begins tick.attempt)

unfoldable pub run_due : Schedule → Tick → Schedule × Bool
unfolding is_due run_taken
run_due schedule tick =
    if not schedule.enabled && not tick.force
    then (schedule, false)
    else if not tick.force && not (is_due schedule tick.now)
    then (schedule, false)
    else if tick.busy
    then (schedule, false)
    else run_taken schedule tick

-- Calls one after another: the row, and the number of backups that were begun.
unfoldable pub run_ticks : List Tick → Schedule → Schedule × ℕ
unfolding run_due
run_ticks [] schedule = (schedule, 0)
run_ticks (tick ∷ ticks) schedule =
    let (after, begun) = run_due schedule tick in
    let (last, count) = run_ticks ticks after in (last, (if begun then 1 else 0) + count)

-- MAXIMUM_KEEP, and `BackupSchedule.seed_keep` of a number
unfoldable pub seed_keep : ℕ → ℕ → ℕ
seed_keep maximum_keep keep = min (max keep 1) maximum_keep
