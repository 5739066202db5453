-- ===== src/Audit/Operations.antt =====
-- The operations on the audit trail (dbs/audit.py). A transaction that commits is followed by
-- `_seal_quietly`, for which the database may be unavailable.
use dbs.Prelude.{
  Bool, List, Option, [], false, if◌then◌else◌, ltb, map, none, not, or_else, some, take, true, ℕ,
  ◌&&◌, ◌++◌, ◌+◌, ◌==◌, ◌||◌, ◌∷◌,
}
use dbs.Audit.{AuditEvent, Body, Status, Trail, is_finished, seal_pending}
use dbs.Text.{Text, text_eq}

pub record Actor : Type 0 where
  pub is_authenticated : Bool
  pub pk : Option ℕ

-- the arguments of `record` and of `queue`
pub record Entry : Type 0 where
  pub actor : Option Actor
  pub action : Text
  pub target : Text
  pub detail : Text
  pub data_value : Text
  pub status : Status
  pub error_code : Text
  pub remote_addr : Text
  pub subject : Text
  pub started_at : Option ℕ
  pub finished_at : Option ℕ

abbrev pub seal_batch : ℕ
seal_batch = 200

unfoldable pub known_actor : Option Actor → Option ℕ
known_actor none = none
known_actor (some actor) =
    if not actor.is_authenticated
    then none
    else elim actor.pk [ none ↦ none | some pk ↦ if pk == 0 then none else some pk ]

unfoldable pub status_is_finished : Status → Bool
status_is_finished Status.succeeded = true
status_is_finished Status.failed = true
status_is_finished _ = false

unfoldable pub status_is_succeeded : Status → Bool
status_is_succeeded Status.succeeded = true
status_is_succeeded _ = false

unfoldable pub or_now : Option ℕ → ℕ → ℕ
or_now moment now = or_else moment now

-- the event that `record` creates
unfoldable pub recorded : Entry → ℕ → ℕ → AuditEvent
unfolding known_actor status_is_finished status_is_succeeded or_now
recorded entry now pk = record {
  pk = pk;
  actor = known_actor entry.actor;
  action = take 64 entry.action;
  target_name = take 1024 entry.target;
  detail = take 4000 entry.detail;
  data_value = entry.data_value;
  status = entry.status;
  error_code = take 64 entry.error_code;
  subject = take 64 entry.subject;
  remote_addr = take 64 entry.remote_addr;
  succeeded = status_is_succeeded entry.status;
  started_at = some (or_now entry.started_at now);
  finished_at =
      if status_is_finished entry.status
      then some (or_now entry.finished_at now)
      else entry.finished_at;
  created_at = now;
  chain_index = none;
  chain_hash = [];
}

-- the event that `queue` creates
unfoldable pub enqueued : Entry → ℕ → ℕ → AuditEvent
unfolding known_actor
enqueued entry now pk = record {
  pk = pk;
  actor = known_actor entry.actor;
  action = take 64 entry.action;
  target_name = take 1024 entry.target;
  detail = [];
  data_value = entry.data_value;
  status = Status.queued;
  error_code = [];
  subject = take 64 entry.subject;
  remote_addr = take 64 entry.remote_addr;
  succeeded = false;
  started_at = none;
  finished_at = none;
  created_at = now;
  chain_index = none;
  chain_hash = [];
}

-- `AuditEvent.objects.create`
unfoldable pub create : (ℕ → AuditEvent) → Trail → Trail
create event trail = record {
  rows = trail.rows ++ event trail.next_pk ∷ [];
  next_pk = trail.next_pk + 1;
}

-- `filter(condition).update(change)`, and the number of rows that it changes
unfoldable pub update_rows : (AuditEvent → Bool) → (AuditEvent → AuditEvent) → Trail → Trail
update_rows condition change trail = record trail {
  rows = map (λ row. if condition row then change row else row) trail.rows;
}

unfoldable pub matching : (AuditEvent → Bool) → List AuditEvent → ℕ
matching condition [] = 0
matching condition (row ∷ rows) =
    let rest = matching condition rows in if condition row then rest + 1 else rest

-- `filter(pk=event_id, status__in=UNFINISHED)`
unfoldable pub is_open : ℕ → AuditEvent → Bool
unfolding is_finished
is_open event_id row = row.pk == event_id && not (is_finished row)

unfoldable pub start : ℕ → ℕ → Trail → Trail
unfolding update_rows is_open
start event_id now =
    update_rows (is_open event_id)
      (λ row. record row { status = Status.running; started_at = some now })

unfoldable pub closed : Status → Option Text → Text → Text → ℕ → AuditEvent → AuditEvent
unfolding status_is_succeeded
closed status data_value error_code detail now row = record row {
  status = status;
  succeeded = status_is_succeeded status;
  error_code = take 64 error_code;
  finished_at = some now;
  data_value = or_else data_value row.data_value;
  detail = if text_eq detail [] then row.detail else take 4000 detail;
}

-- The queued and running events that did not stir since `idle_since`; an SQL comparison with
-- NULL does not hold.
unfoldable pub is_idle : Option ℕ → AuditEvent → Bool
is_idle none row = true
is_idle (some since) row = elim row.status [
  | Status.queued ↦ ltb row.created_at since
  | Status.running ↦ elim row.started_at [ none ↦ false | some moment ↦ ltb moment since ]
  | _ ↦ false
]

unfoldable pub elem_of : ℕ → List ℕ → Bool
elem_of n [] = false
elem_of n (k ∷ ks) = n == k || elem_of n ks

unfoldable pub is_interrupted : Option ℕ → List ℕ → Option (List ℕ) → AuditEvent → Bool
unfolding is_finished is_idle elem_of
is_interrupted idle_since keep events row =
    not (is_finished row)
    && is_idle idle_since row
    && not (elem_of row.pk keep)
    && elim events [ none ↦ true | some pks ↦ elem_of row.pk pks ]

-- "interrupted"
abbrev pub interrupted_code : Text
interrupted_code = b'i' ∷ b'n' ∷ b't' ∷ b'e' ∷ b'r' ∷ b'r' ∷ b'u' ∷ b'p' ∷ b't' ∷ b'e' ∷ b'd' ∷ []

unfoldable pub interrupted : ℕ → AuditEvent → AuditEvent
interrupted now row = record row {
  status = Status.failed;
  succeeded = false;
  error_code = interrupted_code;
  finished_at = some now;
}

-- the calls on a trail
pub data Operation : Type 0 where
  recording queueing : Entry → Operation
  starting : ℕ → Operation
  finishing : ℕ → Option Text → Operation
  failing : ℕ → Text → Option Text → Text → Operation
  interrupting : Option ℕ → List ℕ → Option (List ℕ) → Operation
  sealing : ℕ → Operation

module _ (sha256 : Text → Text) (dumps : Body → Text) where
  -- What follows the commit.
  unfoldable pub seal_after_commit : Bool → Trail → Trail
  seal_after_commit available trail =
      if available then (seal_pending sha256 dumps seal_batch trail).0 else trail

  unfoldable pub record_event : Entry → ℕ → Bool → Trail → Trail
  unfolding create recorded seal_after_commit status_is_finished
  record_event entry now available trail =
      let trail' = create (recorded entry now) trail in
      if status_is_finished entry.status then seal_after_commit available trail' else trail'

  unfoldable pub queue : Entry → ℕ → Trail → Trail
  unfolding create enqueued
  queue entry now = create (enqueued entry now)

  -- `_close`
  unfoldable pub close : ℕ → Status → Option Text → Text → Text → ℕ → Bool → Trail → Trail
  unfolding update_rows is_open closed matching seal_after_commit
  close event_id status data_value error_code detail now available trail =
      let trail' =
        update_rows (is_open event_id) (closed status data_value error_code detail now) trail in
      if ltb 0 (matching (is_open event_id) trail.rows)
      then seal_after_commit available trail'
      else trail'

  unfoldable pub finish_event : ℕ → Option Text → ℕ → Bool → Trail → Trail
  unfolding close
  finish_event event_id data_value = close event_id Status.succeeded data_value [] []

  unfoldable pub fail : ℕ → Text → Option Text → Text → ℕ → Bool → Trail → Trail
  unfolding close
  fail event_id error_code data_value detail =
      close event_id Status.failed data_value error_code detail

  unfoldable pub interrupt : Option ℕ → List ℕ → Option (List ℕ) → ℕ → Bool → Trail → Trail
  unfolding update_rows is_interrupted interrupted matching seal_after_commit
  interrupt idle_since keep events now available trail =
      let trail' = update_rows (is_interrupted idle_since keep events) (interrupted now) trail in
      if ltb 0 (matching (is_interrupted idle_since keep events) trail.rows)
      then seal_after_commit available trail'
      else trail'

  unfoldable pub perform : Operation → ℕ → Bool → Trail → Trail
  unfolding record_event queue start finish_event fail interrupt
  perform (recording entry) now available = record_event entry now available
  perform (queueing entry) now available = queue entry now
  perform (starting event_id) now available = start event_id now
  perform (finishing event_id data_value) now available =
      finish_event event_id data_value now available
  perform (failing event_id error_code data_value detail) now available =
      fail event_id error_code data_value detail now available
  perform (interrupting idle_since keep events) now available =
      interrupt idle_since keep events now available
  perform (sealing limit) now available = λ trail. (seal_pending sha256 dumps limit trail).0

  -- The calls in the order of their transactions, with the clock's values.
  unfoldable pub perform_all : List (ℕ × Bool × Operation) → Trail → Trail
  unfolding perform
  perform_all [] trail = trail
  perform_all ((now, available, operation) ∷ operations) trail =
      perform_all operations (perform operation now available trail)
