-- ===== src/Jobs/Stopped.antt =====
-- After `recover` (dbs/jobs.py) the jobs whose processes stopped are failed, and their leases gone.
use dbs.Prelude.{
  Bool, List, [], ap, false, if◌then◌else◌, ltb, none, refl, some, take, true, ℕ, ◌+◌, ◌∙◌, ◌∷◌,
  ◌≡◌, ◌≤◌,
}
use dbs.Audit.{
  AuditEvent, Body, Status, Trail, last_link, link, mark_sealed, pending_events, seal_events,
  seal_pending, sealed_events,
}
use dbs.Audit.Operations.{
  elem_of, interrupt, interrupted, is_interrupted, matching, seal_after_commit, seal_batch,
  status_is_finished, update_rows,
}
use dbs.Jobs.{World, job_lease, recover, delete_expired, events_of, expired_names, recovered}
use dbs.Jobs.Recover.{
  live_rows, status_at, delete_expired-live_rows, elem_of-events_of, expired_names-Covers,
  expired_names-prefixed, interrupted_status, status_at-mark_sealed,
}
use dbs.Leases.{Lease, Table, row_of}
use dbs.Text.{Text}

-- where an event is listed, all is done
recovered-all :
    (event_id : ℕ) (expired : List Text) (events : List ℕ) (trail : Trail) (table : Table)
    (count : ℕ) (world : World)
    → events_of expired ≡ events
    → elem_of event_id events ≡ true
    → ((recovered expired events trail table count world).0.trail ≡ trail)
      × ((recovered expired events trail table count world).0.table ≡ table)
unfolding recovered events_of elem_of
recovered-all event_id [] [] trail table count world e h = cc
recovered-all event_id [] (event ∷ events) trail table count world e h = cc
recovered-all event_id (name ∷ names) [] trail table count world e h = cc
recovered-all event_id (name ∷ names) (event ∷ events) trail table count world e h = (refl, refl)

module _ (sha256 : Text → Text) (dumps : Body → Text) where
  status_at-seal_events :
      (pk : ℕ) (pending : List AuditEvent) (index : ℕ) (previous : Text) (rows : List AuditEvent)
      → status_at pk (seal_events sha256 dumps pending index previous rows) ≡ status_at pk rows
  unfolding seal_events
  status_at-seal_events pk [] index previous rows = refl
  status_at-seal_events pk (event ∷ pending) index previous rows =
      let hash = link sha256 dumps previous (record event { chain_index = some (index + 1) }) in
      status_at-seal_events pk pending (index + 1) hash (mark_sealed event.pk (index + 1) hash rows)
      ∙ status_at-mark_sealed pk event.pk (index + 1) hash rows

  status_at-seal_pending :
      (pk limit : ℕ) (trail : Trail)
      → status_at pk (seal_pending sha256 dumps limit trail).0.rows ≡ status_at pk trail.rows
  unfolding seal_pending
  status_at-seal_pending pk limit trail =
      let last = last_link (0, []) (sealed_events trail.rows) in
      status_at-seal_events pk (take limit (pending_events trail.rows)) last.0 last.1 trail.rows

  status_at-sealing :
      (pk : ℕ) (due available : Bool) (trail : Trail)
      → status_at pk (if due then seal_after_commit sha256 dumps available trail else trail).rows
        ≡ status_at pk trail.rows
  unfolding seal_after_commit
  status_at-sealing pk false available trail = refl
  status_at-sealing pk true false trail = refl
  status_at-sealing pk true true trail = status_at-seal_pending pk seal_batch trail

  interrupt-status :
      (pk now : ℕ) (available : Bool) (events : List ℕ) (trail : Trail) (status : Status)
      → elem_of pk events ≡ true
      → status_at pk trail.rows ≡ some status
      → status_is_finished status ≡ false
      → status_at pk (interrupt sha256 dumps none [] (some events) now available trail).rows
        ≡ some Status.failed
  unfolding interrupt update_rows
  interrupt-status pk now available events trail status m e u =
      status_at-sealing pk (ltb 0 (matching (is_interrupted none [] (some events)) trail.rows))
        available (update_rows (is_interrupted none [] (some events)) (interrupted now) trail)
      ∙ interrupted_status pk now events trail.rows status m e u

  -- The event of a job whose lease was not renewed in time, and which is not finished, is failed
  -- by `recover`; the lease is removed, with those of all such jobs, and no other lease is.
  pub recover_lem :
      (event_id now : ℕ) (available : Bool) (world : World) (lease : Lease) (status : Status)
      → row_of (job_lease event_id) world.table ≡ some lease
      → lease.expires_at ≤ now
      → status_at event_id world.trail.rows ≡ some status
      → status_is_finished status ≡ false
      → let world' = (recover sha256 dumps now available world).0 in
        (status_at event_id world'.trail.rows ≡ some Status.failed)
        × (world'.table ≡ live_rows now world.table)
  unfolding recover
  recover_lem event_id now available world lease status e l s u =
      let expired = expired_names now world.table in
      let events = events_of expired in
      let trail = interrupt sha256 dumps none [] (some events) now available world.trail in
      let listed = elem_of-events_of event_id now world.table lease e l in
      let deleted =
        delete_expired-live_rows expired now world.table
          (λ name. expired_names-prefixed now name world.table)
          (expired_names-Covers now world.table) in
      let (whole, table) =
        recovered-all event_id expired events trail (delete_expired expired now world.table)
          (matching (is_interrupted none [] (some events)) world.trail.rows) world refl listed in
      (
        ap (λ (t : Trail). status_at event_id t.rows) whole
            ∙ interrupt-status event_id now available events world.trail status listed s u,
        table ∙ deleted,
      )
