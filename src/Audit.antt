-- ===== src/Audit.antt =====
-- The audit trail and its chain of hashes (dbs/audit.py). The table is the list of its rows by
-- primary key; the clock's value is an argument. What `sha256(...).hexdigest()` and `json.dumps`
-- compute are parameters.
pub mod Links
pub mod Sealing
pub mod Binding
pub mod Operations
pub mod Lifecycle
use dbs.Prelude.{
  Bool, List, Option, [], false, if◌then◌else◌, length, ltb, none, not, or_else, some, take, true,
  ℕ, ◌&&◌, ◌++◌, ◌+◌, ◌==◌, ◌||◌, ◌∷◌,
}
use dbs.Text.{Text, text_eq}

-- QUEUED, RUNNING, SUCCEEDED and FAILED
pub data Status : Type 0 where
  queued running succeeded failed : Status

pub record AuditEvent : Type 0 where
  pub pk : ℕ
  pub actor : Option ℕ
  pub action : Text
  pub target_name : Text
  pub detail : Text
  pub data_value : Text  -- the field `data`, serialised
  pub status : Status
  pub error_code : Text
  pub subject : Text
  pub remote_addr : Text
  pub succeeded : Bool
  pub started_at : Option ℕ
  pub finished_at : Option ℕ
  pub created_at : ℕ
  pub chain_index : Option ℕ
  pub chain_hash : Text

-- CHAINED_FIELDS, and the index
pub record Body : Type 0 where
  pub action : Text
  pub target_name : Text
  pub detail : Text
  pub data_value : Text
  pub status : Status
  pub error_code : Text
  pub subject : Text
  pub remote_addr : Text
  pub succeeded : Bool
  pub started_at : Option ℕ
  pub finished_at : Option ℕ
  pub created_at : ℕ
  pub chain_index : Option ℕ

pub record Trail : Type 0 where
  pub rows : List AuditEvent
  pub next_pk : ℕ

-- what `canonical` passes to `json.dumps`
unfoldable pub body_of : AuditEvent → Body
body_of event = record {
  action = event.action;
  target_name = event.target_name;
  detail = event.detail;
  data_value = event.data_value;
  status = event.status;
  error_code = event.error_code;
  subject = event.subject;
  remote_addr = event.remote_addr;
  succeeded = event.succeeded;
  started_at = event.started_at;
  finished_at = event.finished_at;
  created_at = event.created_at;
  chain_index = event.chain_index;
}

-- `status in FINISHED`
unfoldable pub is_finished : AuditEvent → Bool
is_finished event = elim event.status [ Status.succeeded ↦ true | Status.failed ↦ true | _ ↦ false ]

-- `chain_index__isnull=False`
unfoldable pub is_sealed : AuditEvent → Bool
is_sealed event = elim event.chain_index [ none ↦ false | some index ↦ true ]

unfoldable pub is_pending : AuditEvent → Bool
unfolding is_finished is_sealed
is_pending event = not (is_sealed event) && is_finished event

unfoldable pub index_of : AuditEvent → ℕ
index_of event = or_else event.chain_index 0

-- `order_by("chain_index", "pk")`: whether the first event stands before the second
unfoldable pub comes_before : AuditEvent → AuditEvent → Bool
unfolding index_of
comes_before a b = ltb (index_of a) (index_of b) || (index_of a == index_of b && ltb a.pk b.pk)

unfoldable pub insert_event : AuditEvent → List AuditEvent → List AuditEvent
unfolding comes_before
insert_event event [] = event ∷ []
insert_event event (e ∷ events) =
    let rest = insert_event event events in
    if comes_before e event then e ∷ rest else event ∷ e ∷ events

-- the query of the sealed events, in order
unfoldable pub sealed_events : List AuditEvent → List AuditEvent
unfolding is_sealed insert_event
sealed_events [] = []
sealed_events (row ∷ rows) =
    let rest = sealed_events rows in if is_sealed row then insert_event row rest else rest

-- the query of the events that wait to be sealed, by primary key
unfoldable pub pending_events : List AuditEvent → List AuditEvent
unfolding is_pending
pending_events [] = []
pending_events (row ∷ rows) =
    let rest = pending_events rows in if is_pending row then row ∷ rest else rest

-- the query of the last index and hash, `(0, "")` without one
unfoldable pub last_link : ℕ × Text → List AuditEvent → ℕ × Text
unfolding index_of
last_link found [] = found
last_link found (event ∷ events) = last_link (index_of event, event.chain_hash) events

unfoldable pub count_unfinished : List AuditEvent → ℕ
unfolding is_finished
count_unfinished [] = 0
count_unfinished (row ∷ rows) =
    let rest = count_unfinished rows in if is_finished row then rest else rest + 1

pub data Reason : Type 0 where
  appears_twice missing_links was_changed : Reason

pub record ChainCheck : Type 0 where
  pub checked : ℕ
  pub head : Text
  pub broken_at : Option ℕ
  pub event_id : Option ℕ
  pub reason : Option Reason
  pub unsealed : ℕ
  pub unfinished : ℕ

unfoldable pub intact : ChainCheck → Bool
intact check = elim check.broken_at [ none ↦ true | some index ↦ false ]

abbrev pub new_check : ChainCheck
new_check = record {
  checked = 0;
  head = [];
  broken_at = none;
  event_id = none;
  reason = none;
  unsealed = 0;
  unfinished = 0;
}

-- `events.filter(pk=event.pk, chain_index__isnull=True).update(...)`
unfoldable pub mark_sealed : ℕ → ℕ → Text → List AuditEvent → List AuditEvent
unfolding is_sealed
mark_sealed pk index chain_hash [] = []
mark_sealed pk index chain_hash (row ∷ rows) =
    (if row.pk == pk && not (is_sealed row)
      then record row { chain_index = some index; chain_hash = chain_hash }
      else row)
    ∷ mark_sealed pk index chain_hash rows

module _ (sha256 : Text → Text) (dumps : Body → Text) where
  unfoldable pub canonical : AuditEvent → Text
  unfolding body_of
  canonical event = dumps (body_of event)

  unfoldable pub link : Text → AuditEvent → Text
  unfolding canonical
  link previous_hash event = sha256 (previous_hash ++ canonical event)

  -- the loop of `seal_pending`
  unfoldable pub seal_events : List AuditEvent → ℕ → Text → List AuditEvent → List AuditEvent
  unfolding link mark_sealed
  seal_events [] index previous rows = rows
  seal_events (event ∷ pending) index previous rows =
      let chain_hash = link previous (record event { chain_index = some (index + 1) }) in
      seal_events pending (index + 1) chain_hash (mark_sealed event.pk (index + 1) chain_hash rows)

  -- the trail after the call, and the number that it returns
  unfoldable pub seal_pending : ℕ → Trail → Trail × ℕ
  unfolding pending_events last_link sealed_events seal_events
  seal_pending limit trail =
      let pending = take limit (pending_events trail.rows) in
      let last = last_link (0, []) (sealed_events trail.rows) in
      (record trail { rows = seal_events pending last.0 last.1 trail.rows }, length pending)

  -- the loop of `verify_chain`
  unfoldable pub verify_events : List AuditEvent → Text → ℕ → ChainCheck → ChainCheck
  unfolding link index_of
  verify_events [] previous expected check = record check { head = previous }
  verify_events (event ∷ events) previous expected check =
      let broken = record check { broken_at = some expected; event_id = some event.pk } in
      let rest =
        verify_events events event.chain_hash (expected + 1)
          (record check { checked = check.checked + 1 }) in
      if not (index_of event == expected)
      then (if ltb (index_of event) expected
          then record broken { reason = some appears_twice }
          else record broken { reason = some missing_links })
      else if not (text_eq (link previous event) event.chain_hash)
      then record broken { reason = some was_changed }
      else rest

  unfoldable pub verify_chain : Trail → ChainCheck
  unfolding intact verify_events sealed_events pending_events count_unfinished
  verify_chain trail =
      let check = verify_events (sealed_events trail.rows) [] 1 new_check in
      if intact check
      then record check {
        unsealed = length (pending_events trail.rows);
        unfinished = count_unfinished trail.rows;
      }
      else check
