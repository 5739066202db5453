-- ===== src/Audit/Lifecycle.antt =====
-- Whatever calls are made on a trail (dbs/audit.py), its chain stays intact and only grows.
use dbs.Prelude.{
  Bool, Bool-cases, List, Option, [], ap, append-nil, append_assoc, arith, false, if◌then◌else◌,
  inl, inr, ltb, map, none, refl, some, sym, true, ℕ, ◌++◌, ◌+◌, ◌∙◌, ◌∷◌, ◌≡◌,
}
use dbs.Audit.{
  AuditEvent, Body, Trail, is_finished, is_sealed, seal_pending, sealed_events, Status,
  verify_chain,
}
use dbs.Audit.Links.{verify_chain-Links}
use dbs.Audit.Operations.{
  closed, create, seal_after_commit, seal_batch, update_rows, enqueued, fail, failing, finish_event,
  finishing, interrupt, interrupted, interrupting, is_interrupted, is_open, matching, queueing,
  record_event, recorded, recording, sealing, start, starting, status_is_finished, Entry, Operation,
  close, perform, perform_all, queue,
}
use dbs.Audit.Sealing.Whole.{
  IsSound, SealedFinished, Within, newly_sealed, seal_pending-IsSound, sealed_events-seal_pending,
}
use dbs.Text.{Text}

sealed_events-append_unsealed :
    (rows : List AuditEvent) (event : AuditEvent)
    → is_sealed event ≡ false
    → sealed_events (rows ++ event ∷ []) ≡ sealed_events rows
unfolding sealed_events
sealed_events-append_unsealed [] event s = rw s
sealed_events-append_unsealed (row ∷ rows) event s = rw (sealed_events-append_unsealed rows event s)

Within-append :
    (bound next : ℕ) (rows : List AuditEvent) (event : AuditEvent)
    → event.pk ≡ next
    → Within bound next rows
    → Within bound (next + 1) (rows ++ event ∷ [])
Within-append bound next [] event e h = (omega arith, omega arith)
Within-append bound next (row ∷ rows) event e (b, h) =
    (b, Within-append (row.pk + 1) next rows event e h)

SealedFinished-append :
    (rows : List AuditEvent) (event : AuditEvent)
    → is_sealed event ≡ false
    → SealedFinished rows
    → SealedFinished (rows ++ event ∷ [])
SealedFinished-append [] event s h = ((λ t. absurd (cc)), tt)
SealedFinished-append (row ∷ rows) event s (f, h) = (f, SealedFinished-append rows event s h)

-- A change of unfinished events that leaves their keys and links alone.
record IsHarmless (condition : AuditEvent → Bool) (change : AuditEvent → AuditEvent) : Type 0 where
  unfinished : (row : AuditEvent) → condition row ≡ true → is_finished row ≡ false
  same_pk : (row : AuditEvent) → (change row).pk ≡ row.pk
  same_link : (row : AuditEvent) → is_sealed (change row) ≡ is_sealed row

module _ (condition : AuditEvent → Bool) (change : AuditEvent → AuditEvent) where
  abbrev update_row : AuditEvent → AuditEvent
  update_row row = if condition row then change row else row

  is_unsealed :
      (row : AuditEvent)
      → (is_sealed row ≡ true → is_finished row ≡ true)
      → is_finished row ≡ false
      → is_sealed row ≡ false
  is_unsealed row f u = elim (Bool-cases (is_sealed row)) [
    | inl closed ↦ absurd (let e = f closed in cc (e, u))
    | inr open_row ↦ open_row
  ]

  sealed_events-update :
      (rows : List AuditEvent)
      → IsHarmless condition change
      → SealedFinished rows
      → sealed_events (map update_row rows) ≡ sealed_events rows
  unfolding sealed_events
  sealed_events-update [] h s = refl
  sealed_events-update (row ∷ rows) h (f, s) = elim (Bool-cases (condition row)) [
    | inl met ↦
        let open_row = is_unsealed row f (h.unfinished row met) in
        rw (met, h.same_link row, open_row) (sealed_events-update rows h s)
    | inr other ↦ rw (other, sealed_events-update rows h s)
  ]

  Within-update :
      (bound next : ℕ) (rows : List AuditEvent)
      → IsHarmless condition change
      → Within bound next rows
      → Within bound next (map update_row rows)
  Within-update bound next [] h w = w
  Within-update bound next (row ∷ rows) h (b, w) =
      let ih = Within-update (row.pk + 1) next rows h w in
      elim (Bool-cases (condition row)) [
        | inl met ↦ rw (met, h.same_pk row) (b, ih)
        | inr other ↦ rw other (b, ih)
      ]

  SealedFinished-update :
      (rows : List AuditEvent)
      → IsHarmless condition change
      → SealedFinished rows
      → SealedFinished (map update_row rows)
  SealedFinished-update [] h s = tt
  SealedFinished-update (row ∷ rows) h (f, s) =
      let ih = SealedFinished-update rows h s in
      elim (Bool-cases (condition row)) [
        | inl met ↦
            let open_row = h.same_link row ∙ is_unsealed row f (h.unfinished row met) in
            rw met ((λ t. absurd (cc (t, open_row))), ih)
        | inr other ↦ rw other (f, ih)
      ]

module _ (sha256 : Text → Text) (dumps : Body → Text) where
  -- A later state of a trail: sound, with the sealed events that were there, and perhaps more.
  abbrev pub Extends : Trail → Trail → Type 0
  Extends trail trail' =
      IsSound sha256 dumps trail'
      × ((more : List AuditEvent) × (sealed_events trail'.rows ≡ sealed_events trail.rows ++ more))

  Extends-trans : (a b c : Trail) → Extends a b → Extends b c → Extends a c
  Extends-trans a b c (s, (m, e)) (t, (n, k)) =
      (t, (m ++ n, k ∙ ap (λ xs. xs ++ n) e ∙ append_assoc (sealed_events a.rows) m n))

  update-Extends :
      (condition : AuditEvent → Bool) (change : AuditEvent → AuditEvent) (trail : Trail)
      → IsHarmless condition change
      → IsSound sha256 dumps trail
      → Extends trail (update_rows condition change trail)
  unfolding update_rows
  update-Extends condition change trail k h =
      let same = sealed_events-update condition change trail.rows k h.finished in
      (
        record {
          ordered = Within-update condition change 0 trail.next_pk trail.rows k h.ordered;
          finished = SealedFinished-update condition change trail.rows k h.finished;
          chained = rw same h.chained;
        },
        ([], same ∙ sym (append-nil (sealed_events trail.rows))),
      )

  create-Extends :
      (event : ℕ → AuditEvent) (trail : Trail)
      → ((pk : ℕ) → ((event pk).pk ≡ pk) × (is_sealed (event pk) ≡ false))
      → IsSound sha256 dumps trail
      → Extends trail (create event trail)
  unfolding create
  create-Extends event trail new h =
      let (at, unsealed) = new trail.next_pk in
      let row = event trail.next_pk in
      let same = sealed_events-append_unsealed trail.rows row unsealed in
      (
        record {
          ordered = Within-append 0 trail.next_pk trail.rows row at h.ordered;
          finished = SealedFinished-append trail.rows row unsealed h.finished;
          chained = rw same h.chained;
        },
        ([], same ∙ sym (append-nil (sealed_events trail.rows))),
      )

  seal-Extends :
      (limit : ℕ) (trail : Trail)
      → IsSound sha256 dumps trail
      → Extends trail (seal_pending sha256 dumps limit trail).0
  seal-Extends limit trail h = (
    seal_pending-IsSound sha256 dumps limit trail h,
    (newly_sealed sha256 dumps limit trail, sealed_events-seal_pending sha256 dumps limit trail h),
  )

  -- `seal_after_commit`, where it is called
  sealing-Extends :
      (due available : Bool) (trail trail' : Trail)
      → Extends trail trail'
      → Extends trail (if due then seal_after_commit sha256 dumps available trail' else trail')
  unfolding seal_after_commit
  sealing-Extends false available trail trail' h = h
  sealing-Extends true false trail trail' h = h
  sealing-Extends true true trail trail' h =
      Extends-trans trail trail' (seal_pending sha256 dumps seal_batch trail').0 h
        (seal-Extends seal_batch trail' h.0)

  open_is_unfinished :
      (event_id : ℕ) (row : AuditEvent) → is_open event_id row ≡ true → is_finished row ≡ false
  unfolding is_open
  open_is_unfinished event_id row h = ground arith

  interrupted_is_unfinished :
      (idle_since : Option ℕ) (keep : List ℕ) (events : Option (List ℕ)) (row : AuditEvent)
      → is_interrupted idle_since keep events row ≡ true
      → is_finished row ≡ false
  unfolding is_interrupted
  interrupted_is_unfinished idle_since keep events row h = elim (Bool-cases (is_finished row)) [
    | inl done ↦ absurd (let k = rw done at h in cc k)
    | inr other ↦ other
  ]

  start-Extends :
      (event_id now : ℕ) (trail : Trail)
      → IsSound sha256 dumps trail
      → Extends trail (start event_id now trail)
  unfolding start
  start-Extends event_id now trail =
      update-Extends (is_open event_id)
        (λ row. record row { status = Status.running; started_at = some now }) trail
        (record {
          unfinished = open_is_unfinished event_id;
          same_pk = λ row. refl;
          same_link = λ row. unfold is_sealed in refl;
        })

  close-Extends :
      (event_id : ℕ) (status : Status) (data_value : Option Text) (error_code detail : Text)
      (now : ℕ) (available : Bool) (trail : Trail)
      → IsSound sha256 dumps trail
      → Extends trail
          (close sha256 dumps event_id status data_value error_code detail now available trail)
  unfolding close closed
  close-Extends event_id status data_value error_code detail now available trail h =
      sealing-Extends (ltb 0 (matching (is_open event_id) trail.rows)) available trail
        (update_rows (is_open event_id) (closed status data_value error_code detail now) trail)
        (update-Extends (is_open event_id) (closed status data_value error_code detail now) trail
          (record {
            unfinished = open_is_unfinished event_id;
            same_pk = λ row. refl;
            same_link = λ row. unfold is_sealed in refl;
          })
          h)

  interrupt-Extends :
      (idle_since : Option ℕ) (keep : List ℕ) (events : Option (List ℕ)) (now : ℕ)
      (available : Bool) (trail : Trail)
      → IsSound sha256 dumps trail
      → Extends trail (interrupt sha256 dumps idle_since keep events now available trail)
  unfolding interrupt interrupted
  interrupt-Extends idle_since keep events now available trail h =
      sealing-Extends (ltb 0 (matching (is_interrupted idle_since keep events) trail.rows))
        available trail
        (update_rows (is_interrupted idle_since keep events) (interrupted now) trail)
        (update-Extends (is_interrupted idle_since keep events) (interrupted now) trail
          (record {
            unfinished = interrupted_is_unfinished idle_since keep events;
            same_pk = λ row. refl;
            same_link = λ row. unfold is_sealed in refl;
          })
          h)

  record_event-Extends :
      (entry : Entry) (now : ℕ) (available : Bool) (trail : Trail)
      → IsSound sha256 dumps trail
      → Extends trail (record_event sha256 dumps entry now available trail)
  unfolding record_event recorded is_sealed
  record_event-Extends entry now available trail h =
      sealing-Extends (status_is_finished entry.status) available trail
        (create (recorded entry now) trail)
        (create-Extends (recorded entry now) trail (λ pk. (refl, refl)) h)

  queue-Extends :
      (entry : Entry) (now : ℕ) (trail : Trail)
      → IsSound sha256 dumps trail
      → Extends trail (queue sha256 dumps entry now trail)
  unfolding queue enqueued is_sealed
  queue-Extends entry now trail = create-Extends (enqueued entry now) trail (λ pk. (refl, refl))

  perform-Extends :
      (operation : Operation) (now : ℕ) (available : Bool) (trail : Trail)
      → IsSound sha256 dumps trail
      → Extends trail (perform sha256 dumps operation now available trail)
  unfolding perform finish_event fail
  perform-Extends (recording entry) now available trail =
      record_event-Extends entry now available trail
  perform-Extends (queueing entry) now available trail = queue-Extends entry now trail
  perform-Extends (starting event_id) now available trail = start-Extends event_id now trail
  perform-Extends (finishing event_id data_value) now available trail =
      close-Extends event_id Status.succeeded data_value [] [] now available trail
  perform-Extends (failing event_id error_code data_value detail) now available trail =
      close-Extends event_id Status.failed data_value error_code detail now available trail
  perform-Extends (interrupting idle_since keep events) now available trail =
      interrupt-Extends idle_since keep events now available trail
  perform-Extends (sealing limit) now available trail = seal-Extends limit trail

  pub perform_all-Extends :
      (operations : List (ℕ × Bool × Operation)) (trail : Trail)
      → IsSound sha256 dumps trail
      → Extends trail (perform_all sha256 dumps operations trail)
  unfolding perform_all
  perform_all-Extends [] trail h = (h, ([], sym (append-nil (sealed_events trail.rows))))
  perform_all-Extends ((now, available, operation) ∷ operations) trail h =
      let trail' = perform sha256 dumps operation now available trail in
      let first = perform-Extends operation now available trail h in
      Extends-trans trail trail' (perform_all sha256 dumps operations trail') first
        (perform_all-Extends operations trail' first.0)

  abbrev pub empty_trail : Trail
  empty_trail = record { rows = []; next_pk = 1 }

  pub empty_trail-IsSound : IsSound sha256 dumps empty_trail
  unfolding sealed_events
  empty_trail-IsSound = record { ordered = omega arith; finished = tt; chained = tt }

  -- Whatever calls made a trail and whatever calls follow: its chain is intact, and the events
  -- that were sealed stay as they are, at the beginning of the chain.
  pub perform_all-intact :
      (earlier later : List (ℕ × Bool × Operation))
      → let trail = perform_all sha256 dumps earlier empty_trail in
        let trail' = perform_all sha256 dumps later trail in
        ((verify_chain sha256 dumps trail').broken_at ≡ none)
        × ((more : List AuditEvent) × (sealed_events trail'.rows
              ≡ sealed_events trail.rows ++ more))
  perform_all-intact earlier later =
      let trail = perform_all sha256 dumps earlier empty_trail in
      let sound = (perform_all-Extends earlier empty_trail empty_trail-IsSound).0 in
      let (later_sound, grown) = perform_all-Extends later trail sound in
      let check =
        verify_chain-Links sha256 dumps (perform_all sha256 dumps later trail)
          later_sound.chained in
      (rw check, grown)
