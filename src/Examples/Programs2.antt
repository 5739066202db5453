-- ===== src/Examples/Programs2.antt =====
-- Concrete runs of the jobs and of the scheduled backups.
use dbs.Prelude.{List, [], arith, false, none, refl, some, take, true, ℕ, ◌*◌, ◌+◌, ◌∷◌, ◌≡◌, ◌≤◌}
use dbs.Audit.{Body, Status}
use dbs.Audit.Operations.{Entry, status_is_finished}
use dbs.Audit.Lifecycle.{empty_trail}
use dbs.Jobs.{World, begin, job_lease, recover}
use dbs.Jobs.Recover.{live_rows, status_at}
use dbs.Jobs.Stopped.{recover_lem}
use dbs.Leases.{Lease, put, row_of}
use dbs.ScheduleRunner.{
  Attempt, Schedule, Tick, begins, is_due, resume, run, run_due, run_taken, run_ticks, RunStatus,
  LastError,
}
use dbs.ScheduleRunner.Attempts.{run_ticks-served, run_ticks-at_most_two, budget_of}
use dbs.Text.{Text, text_eq}

abbrev nightly : Schedule
nightly = record {
  enabled = true;
  interval_seconds = 100;
  next_run_at = some 1000;
  last_run_at = none;
  last_status = RunStatus.succeeded;
  last_error = LastError.no_error;
}

abbrev tick_at : ℕ → Attempt → Tick
tick_at now attempt = record {
  now = now;
  force = false;
  busy = false;
  ended = now + 5;
  attempt = attempt;
}

-- The process dies twice; the third call gives up, and the fourth does nothing.
abbrev dying_ticks : List Tick
dying_ticks =
    tick_at 1000 Attempt.dies
    ∷ tick_at 1010 Attempt.dies
    ∷ tick_at 1020 Attempt.completes
    ∷ tick_at 1099 Attempt.completes
    ∷ []

run_ticks-at_most_two_example :
    ((run_ticks dying_ticks nightly).1 ≤ 2)
    × ((run_ticks dying_ticks nightly).1 ≤ budget_of RunStatus.succeeded)
run_ticks-at_most_two_example = run_ticks-at_most_two nightly dying_ticks 1000 (
  refl,
  omega arith,
  omega arith,
  (
    refl,
    omega arith,
    omega arith,
    (refl, omega arith, omega arith, (refl, omega arith, omega arith, tt)),
  ),
)

-- The process dies twice, a third call gives up, and the next one succeeds.
abbrev daily_ticks : List Tick
daily_ticks =
    tick_at 1000 Attempt.dies
    ∷ tick_at 1100 Attempt.dies
    ∷ tick_at 1200 Attempt.raises
    ∷ tick_at 1300 Attempt.completes
    ∷ []

two_begun : (run_ticks (take 3 daily_ticks) nightly).1 ≡ 2
unfolding run_ticks run_due run_taken run resume
two_begun = refl

run_ticks-served_example : 8 ≤ 3 * (run_ticks daily_ticks nightly).1 + 2
unfolding is_due begins
run_ticks-served_example = run_ticks-served nightly daily_ticks 1000 refl refl (
  refl,
  refl,
  refl,
  omega arith,
  (
    refl,
    refl,
    refl,
    omega arith,
    (refl, refl, refl, omega arith, (refl, refl, refl, omega arith, tt)),
  ),
)

abbrev hash : Text → Text
hash t = t

abbrev dumped : Body → Text
dumped body = body.action

abbrev no_entry : Entry
no_entry = record {
  actor = none;
  action = 1 ∷ [];
  target = [];
  detail = [];
  data_value = [];
  status = Status.running;
  error_code = [];
  remote_addr = [];
  subject = [];
  started_at = none;
  finished_at = none;
}

-- Two jobs begin; the lease of the first runs out.
abbrev first_job : World
first_job =
    (begin hash dumped no_entry (b'a' ∷ []) 5 true
      (record { trail = empty_trail hash dumped; table = [] })).0

abbrev both_jobs : World
both_jobs = (begin hash dumped no_entry (b'b' ∷ []) 60 true first_job).0

abbrev old_lease : Lease
old_lease = record { owner = b'a' ∷ []; expires_at = 125; renewed_at = 5 }

old_lease_row : row_of (job_lease 1) both_jobs.table ≡ some old_lease
unfolding begin job_lease row_of put text_eq
old_lease_row = refl

running_job : status_at 1 both_jobs.trail.rows ≡ some Status.running
unfolding begin status_at
running_job = refl

recover_lem_example :
    let world' = (recover hash dumped 130 true both_jobs).0 in
    (status_at 1 world'.trail.rows ≡ some Status.failed)
    × (world'.table ≡ live_rows 130 both_jobs.table)
unfolding status_is_finished
recover_lem_example =
    recover_lem hash dumped 1 130 true both_jobs old_lease Status.running old_lease_row
      (omega arith) running_job refl
