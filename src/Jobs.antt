-- ===== src/Jobs.antt =====
-- Jobs and the runner (dbs/jobs.py) and the end of a job's process (`settle`, dbs/job_process.py):
-- their leases and the entries of the audit trail together. A call is one transaction after
-- another; `available` says whether the trail can be sealed after a commit.
pub mod Decimal
pub mod Recover
pub mod Stopped
use dbs.Prelude.{
  Bool, List, Option, [], drop, false, if◌then◌else◌, leb, length, ltb, none, some, suc, take, true,
  zero, ℕ, ◌%◌, ◌&&◌, ◌*◌, ◌++◌, ◌+◌, ◌-◌, ◌/◌, ◌==◌, ◌∷◌,
}
use dbs.Audit.{Body, Status, Trail}
use dbs.Audit.Operations.{
  Entry, fail, finish_event, interrupt, is_interrupted, matching, record_event,
}
use dbs.Leases.{Lease, Table, acquire, drop_lease, release}
use dbs.Text.{Text, elem, text_eq}

-- JOB_LEASE_PREFIX, "dbs.job:"
abbrev pub job_lease_prefix : Text
job_lease_prefix = b'd' ∷ b'b' ∷ b's' ∷ b'.' ∷ b'j' ∷ b'o' ∷ b'b' ∷ b':' ∷ []

-- RUNNER_LEASE, "dbs.runner"
abbrev pub runner_lease : Text
runner_lease = b'd' ∷ b'b' ∷ b's' ∷ b'.' ∷ b'r' ∷ b'u' ∷ b'n' ∷ b'n' ∷ b'e' ∷ b'r' ∷ []

abbrev pub lease_seconds : ℕ
lease_seconds = 120

-- the decimal digits of a number; a number is fuel enough for its digits
unfoldable pub digits : ℕ → ℕ → Text
digits zero n = []
digits (suc fuel) n =
    let last = b'0' + n % 10 in
    let more = digits fuel (n / 10) ++ last ∷ [] in if ltb n 10 then last ∷ [] else more

-- `f"{JOB_LEASE_PREFIX}{event_id}"`
unfoldable pub job_lease : ℕ → Text
unfolding digits
job_lease event_id = job_lease_prefix ++ digits (event_id + 1) event_id

unfoldable pub starts_with : Text → Text → Bool
starts_with [] name = true
starts_with (c ∷ prefix) [] = false
starts_with (c ∷ prefix) (d ∷ name) = let rest = starts_with prefix name in c == d && rest

unfoldable pub all_digits : Text → Bool
all_digits [] = true
all_digits (c ∷ s) = let rest = all_digits s in leb b'0' c && leb c b'9' && rest

-- `s.isdigit()`, of the ASCII digits that these names have
unfoldable pub is_digits : Text → Bool
unfolding all_digits
is_digits [] = false
is_digits (c ∷ s) = all_digits (c ∷ s)

unfoldable pub int_rounds : ℕ → Text → ℕ
int_rounds value [] = value
int_rounds value (c ∷ s) = int_rounds (value * 10 + (c - b'0')) s

-- the numbers of the events that the names of leases give
unfoldable pub events_of : List Text → List ℕ
unfolding is_digits int_rounds
events_of [] = []
events_of (name ∷ names) =
    let rest = events_of names in
    let suffix = drop (length job_lease_prefix) name in
    if is_digits suffix then int_rounds 0 suffix ∷ rest else rest

unfoldable pub is_expired_job : ℕ → Text × Lease → Bool
unfolding starts_with
is_expired_job now (name, lease) = starts_with job_lease_prefix name && leb lease.expires_at now

-- the query of `recover`
unfoldable pub expired_names : ℕ → Table → List Text
unfolding is_expired_job
expired_names now [] = []
expired_names now (row ∷ table) =
    let rest = expired_names now table in if is_expired_job now row then row.0 ∷ rest else rest

-- `Lease.objects.filter(name__in=names, expires_at__lte=now).delete()`
unfoldable pub delete_expired : List Text → ℕ → Table → Table
unfolding elem
delete_expired names now [] = []
delete_expired names now ((name, lease) ∷ table) =
    let rest = delete_expired names now table in
    if elem name names && leb lease.expires_at now then rest else (name, lease) ∷ rest

unfoldable pub is_job_of : Text → Text × Lease → Bool
unfolding starts_with
is_job_of owner (name, lease) = text_eq lease.owner owner && starts_with job_lease_prefix name

unfoldable pub jobs_of : Text → Table → List Text
unfolding is_job_of
jobs_of owner [] = []
jobs_of owner (row ∷ table) =
    let rest = jobs_of owner table in if is_job_of owner row then row.0 ∷ rest else rest

unfoldable pub delete_jobs_of : Text → Table → Table
unfolding is_job_of
delete_jobs_of owner [] = []
delete_jobs_of owner (row ∷ table) =
    let rest = delete_jobs_of owner table in if is_job_of owner row then rest else row ∷ rest

pub record World : Type 0 where
  pub trail : Trail
  pub table : Table

pub record Job : Type 0 where
  pub event_id : ℕ
  pub data_value : Text
  pub owner : Text
  pub lease : Text

-- The end of `recover`: what is found, the trail if events are interrupted, the table without the
-- leases, and the number of events.
unfoldable pub recovered : List Text → List ℕ → Trail → Table → ℕ → World → World × ℕ
recovered [] events trail table count world = (world, 0)
recovered (name ∷ names) [] trail table count world = (record world { table = table }, 0)
recovered (name ∷ names) (event ∷ events) trail table count world =
    (record { trail = trail; table = table }, count)

module _ (sha256 : Text → Text) (dumps : Body → Text) where
  -- the world after `recover`, and the number of events that it interrupts
  unfoldable pub recover : ℕ → Bool → World → World × ℕ
  unfolding expired_names events_of delete_expired is_interrupted matching interrupt recovered
  recover now available world =
      let expired = expired_names now world.table in
      let events = events_of expired in
      let trail = interrupt sha256 dumps none [] (some events) now available world.trail in
      let count = matching (is_interrupted none [] (some events)) world.trail.rows in
      let table = delete_expired expired now world.table in
      recovered expired events trail table count world

  -- `Runner.take`; false where it raises `Busy`
  unfoldable pub take_runner : Text → ℕ → Bool → World → World × Bool
  unfolding recover acquire
  take_runner owner now available world =
      let recovered = (recover now available world).0 in
      let (table, held) = acquire runner_lease owner lease_seconds now recovered.table in
      (record recovered { table = table }, held)

  -- `Runner.release` of a runner that is held
  unfoldable pub release_runner : Text → ℕ → World → World
  unfolding release
  release_runner owner now world = record world {
    table = release runner_lease owner now world.table;
  }

  -- `Job.begin`
  unfoldable pub begin : Entry → Text → ℕ → Bool → World → World × Job
  unfolding record_event acquire job_lease
  begin entry owner now available world =
      let event_id = world.trail.next_pk in
      let name = job_lease event_id in
      (
        record {
          trail =
              record_event sha256 dumps (record entry { status = Status.running }) now available
                world.trail;
          table = (acquire name owner lease_seconds now world.table).0;
        },
        record { event_id = event_id; data_value = entry.data_value; owner = owner; lease = name },
      )

  -- `Job.succeed`, `Job.fail` and `Job.close`
  unfoldable pub succeed : Job → ℕ → Bool → World → World
  unfolding finish_event
  succeed job now available world = record world {
    trail = finish_event sha256 dumps job.event_id (some job.data_value) now available world.trail;
  }

  unfoldable pub fail_job : Job → Text → Text → ℕ → Bool → World → World
  unfolding fail
  fail_job job error_code detail now available world = record world {
    trail =
        fail sha256 dumps job.event_id error_code (some job.data_value) (take 4000 detail) now
          available world.trail;
  }

  unfoldable pub close_job : Job → World → World
  unfolding drop_lease
  close_job job world = record world { table = drop_lease job.lease job.owner world.table }

  -- The end of `tracked`: the job as its body left it, and the code and text of what was raised.
  unfoldable pub end_tracked : Job → Option (Text × Text) → ℕ → Bool → World → World
  unfolding succeed fail_job close_job
  end_tracked job none now available world = close_job job (succeed job now available world)
  end_tracked job (some (error_code, detail)) now available world =
      close_job job (fail_job job error_code detail now available world)

  unfoldable pub fail_events : List ℕ → Text → Text → ℕ → Bool → Trail → Trail
  unfolding fail
  fail_events [] reason detail now available trail = trail
  fail_events (event_id ∷ events) reason detail now available trail =
      fail_events events reason detail now available
        (fail sha256 dumps event_id reason none detail now available trail)

  -- `settle`, without the partial files that it removes. A status below 0 is given as any number
  -- but 0.
  unfoldable pub settle : Text → ℕ → Text → Text → ℕ → Bool → World → World
  unfolding jobs_of events_of fail_events delete_jobs_of release
  settle owner returncode reason detail now available world =
      let events = events_of (jobs_of owner world.table) in
      record {
        trail =
            if returncode == 0
            then world.trail
            else fail_events events reason detail now available world.trail;
        table = release runner_lease owner now (delete_jobs_of owner world.table);
      }
