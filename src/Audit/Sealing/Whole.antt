-- ===== src/Audit/Sealing/Whole.antt =====
-- What one call of `seal_pending` (dbs/audit.py) does to a trail whose chain is intact.
use dbs.Prelude.{
  Bool-cases, List, [], ap, arith, drop, inl, inr, length, length-append, length-drop, length-take,
  if◌then◌else◌, map, not, ◌&&◌, min, none, refl, suc, sym, take, true, zero, ℕ, ◌++◌, ◌+◌, ◌-◌,
  ◌∙◌, ◌∷◌, ◌≡◌, ◌≤◌,
}
use dbs.Audit.{
  AuditEvent, Body, Trail, is_finished, is_pending, is_sealed, last_link, seal_pending,
  sealed_events, verify_chain, pending_events,
}
use dbs.Audit.Links.{Links, Links-append, head_of, verify_chain-Links}
use dbs.Audit.Sealing.{Ascends, UpTo, UpTo-of_le}
use dbs.Audit.Sealing.Fresh.{
  fresh-Links, sealed_events-seal_rows, length-fresh, pending_events-seal_rows,
}
use dbs.Audit.Sealing.Rows.{fresh, link_on, seal_events-seal_rows, seal_rows, sealed_row}
use dbs.Text.{Text}

abbrev pub SealedFinished : List AuditEvent → Type 0
SealedFinished [] = Unit {0}
SealedFinished (row ∷ rows) = (is_sealed row ≡ true → is_finished row ≡ true) × SealedFinished rows

-- The primary keys ascend from `bound` and stay below `next`.
abbrev pub Within : ℕ → ℕ → List AuditEvent → Type 0
Within bound next [] = bound ≤ next
Within bound next (row ∷ rows) = (bound ≤ row.pk) × Within (row.pk + 1) next rows

Within-Ascends :
    (bound next : ℕ) (rows : List AuditEvent) → Within bound next rows → Ascends bound rows
Within-Ascends bound next [] h = tt
Within-Ascends bound next (row ∷ rows) (b, h) = (b, Within-Ascends (row.pk + 1) next rows h)

-- The primary keys of the events that are finished and not sealed, in the order of the rows.
abbrev pub waiting : List AuditEvent → List ℕ
waiting [] = []
waiting (row ∷ rows) =
    let others = waiting rows in
    if is_finished row && not (is_sealed row) then row.pk ∷ others else others

abbrev pub pks_of : List AuditEvent → List ℕ
pks_of = map (λ row. row.pk)

waiting_row : (row : AuditEvent) → (is_finished row && not (is_sealed row)) ≡ is_pending row
unfolding is_pending
waiting_row row = ground arith

waiting-pending_events : (rows : List AuditEvent) → waiting rows ≡ pks_of (pending_events rows)
unfolding pending_events
waiting-pending_events [] = refl
waiting-pending_events (row ∷ rows) = elim (Bool-cases (is_pending row)) [
  | inl pending ↦ rw (waiting_row row, pending) (ap (◌∷◌ row.pk) (waiting-pending_events rows))
  | inr other ↦ rw (waiting_row row, other) (waiting-pending_events rows)
]

pks_of-drop : (n : ℕ) (rows : List AuditEvent) → pks_of (drop n rows) ≡ drop n (pks_of rows)
pks_of-drop zero rows = refl
pks_of-drop (suc n) [] = refl
pks_of-drop (suc n) (row ∷ rows) = pks_of-drop n rows

module _ (sha256 : Text → Text) (dumps : Body → Text) where
  pks_of-fresh :
      (limit index : ℕ) (previous : Text) (rows : List AuditEvent)
      → pks_of (fresh sha256 dumps limit index previous rows) ≡ take limit (waiting rows)
  unfolding fresh
  pks_of-fresh zero index previous rows = refl
  pks_of-fresh (suc n) index previous [] = refl
  pks_of-fresh (suc n) index previous (row ∷ rows) = elim (Bool-cases (is_pending row)) [
    | inl pending ↦
        rw (waiting_row row, pending)
          (ap (◌∷◌ row.pk)
            (pks_of-fresh n (index + 1) (link_on sha256 dumps index previous row) rows))
    | inr other ↦ rw (waiting_row row, other) (pks_of-fresh (suc n) index previous rows)
  ]

  -- A trail as the operations leave it.
  pub record IsSound (trail : Trail) : Type 0 where
    pub ordered : Within 0 trail.next_pk trail.rows
    pub finished : SealedFinished trail.rows
    pub chained : Links sha256 dumps [] 1 (sealed_events trail.rows)

  seal_rows-Within :
      (limit index bound next : ℕ) (previous : Text) (rows : List AuditEvent)
      → Within bound next rows
      → Within bound next (seal_rows sha256 dumps limit index previous rows)
  unfolding seal_rows
  seal_rows-Within zero index bound next previous rows h = h
  seal_rows-Within (suc n) index bound next previous [] h = h
  seal_rows-Within (suc n) index bound next previous (row ∷ rows) (b, h) =
      elim (Bool-cases (is_pending row)) [
        | inl pending ↦
            let hash = link_on sha256 dumps index previous row in
            rw pending (b, seal_rows-Within n (index + 1) (row.pk + 1) next hash rows h)
        | inr other ↦ rw other (b, seal_rows-Within (suc n) index (row.pk + 1) next previous rows h)
      ]

  pending_is_finished : (row : AuditEvent) → is_pending row ≡ true → is_finished row ≡ true
  unfolding is_pending
  pending_is_finished row h = ground arith

  sealed_row-is_finished :
      (index : ℕ) (previous : Text) (row : AuditEvent)
      → is_finished (sealed_row sha256 dumps index previous row) ≡ is_finished row
  unfolding is_finished
  sealed_row-is_finished index previous row = refl

  seal_rows-SealedFinished :
      (limit index : ℕ) (previous : Text) (rows : List AuditEvent)
      → SealedFinished rows
      → SealedFinished (seal_rows sha256 dumps limit index previous rows)
  unfolding seal_rows
  seal_rows-SealedFinished zero index previous rows h = h
  seal_rows-SealedFinished (suc n) index previous [] h = h
  seal_rows-SealedFinished (suc n) index previous (row ∷ rows) (f, h) =
      elim (Bool-cases (is_pending row)) [
        | inl pending ↦
            let hash = link_on sha256 dumps index previous row in
            let done : is_finished (sealed_row sha256 dumps index previous row) ≡ true =
              sealed_row-is_finished index previous row ∙ pending_is_finished row pending in
            rw pending ((λ s. done), seal_rows-SealedFinished n (index + 1) hash rows h)
        | inr other ↦ rw other (f, seal_rows-SealedFinished (suc n) index previous rows h)
      ]

  Links-UpTo :
      (previous : Text) (index : ℕ) (events : List AuditEvent)
      → Links sha256 dumps previous (index + 1) events
      → UpTo (index + length events) events
  Links-UpTo previous index [] h = tt
  Links-UpTo previous index (event ∷ events) (i, l, h) = (
    omega arith,
    UpTo-of_le (index + 1 + length events) (index + suc (length events)) events (omega arith)
        (Links-UpTo event.chain_hash (index + 1) events h),
  )

  last_link-Links :
      (previous : Text) (index : ℕ) (events : List AuditEvent)
      → Links sha256 dumps previous (index + 1) events
      → last_link (index, previous) events ≡ (index + length events, head_of previous events)
  unfolding last_link head_of
  last_link-Links previous index [] h = let e : index + 0 ≡ index = omega arith in rw e
  last_link-Links previous index (event ∷ events) (i, l, h) =
      let e : index + suc (length events) ≡ index + 1 + length events = omega arith in
      rw (i, e) (last_link-Links event.chain_hash (index + 1) events h)

  -- The rows after the call, by one pass from the end of the chain.
  seal_pending-seal_rows :
      (limit : ℕ) (trail : Trail)
      → IsSound trail
      → (seal_pending sha256 dumps limit trail).0.rows
        ≡ seal_rows sha256 dumps limit
            (length (sealed_events trail.rows))
            (head_of [] (sealed_events trail.rows))
            trail.rows
  unfolding seal_pending
  seal_pending-seal_rows limit trail h =
      let count = length (sealed_events trail.rows) in
      let e : 0 + count ≡ count = omega arith in
      rw (last_link-Links [] 0 (sealed_events trail.rows) h.chained, e)
        (seal_events-seal_rows sha256 dumps limit count 0 (head_of [] (sealed_events trail.rows))
          trail.rows (Within-Ascends 0 trail.next_pk trail.rows h.ordered))

  -- The events that the call seals.
  abbrev pub newly_sealed : ℕ → Trail → List AuditEvent
  newly_sealed limit trail =
      fresh sha256 dumps limit (length (sealed_events trail.rows))
        (head_of [] (sealed_events trail.rows)) trail.rows

  pub sealed_events-seal_pending :
      (limit : ℕ) (trail : Trail)
      → IsSound trail
      → sealed_events (seal_pending sha256 dumps limit trail).0.rows
        ≡ sealed_events trail.rows ++ newly_sealed limit trail
  sealed_events-seal_pending limit trail h =
      let count = length (sealed_events trail.rows) in
      let e : 0 + count ≡ count = omega arith in
      let bounded = Links-UpTo [] 0 (sealed_events trail.rows) h.chained in
      rw (seal_pending-seal_rows limit trail h) (
        sealed_events-seal_rows sha256 dumps limit count (head_of [] (sealed_events trail.rows))
          trail.rows (rw e at bounded))

  pub seal_pending-IsSound :
      (limit : ℕ) (trail : Trail)
      → IsSound trail
      → IsSound (seal_pending sha256 dumps limit trail).0
  unfolding seal_pending
  seal_pending-IsSound limit trail h =
      let sealed = sealed_events trail.rows in
      let e : 1 + length sealed ≡ length sealed + 1 = omega arith in
      let rows = seal_pending-seal_rows limit trail h in
      record {
        ordered = rw rows (
            seal_rows-Within limit (length sealed) 0 trail.next_pk (head_of [] sealed) trail.rows
              h.ordered);
        finished = rw rows (
            seal_rows-SealedFinished limit (length sealed) (head_of [] sealed) trail.rows
              h.finished);
        chained = rw (sealed_events-seal_pending limit trail h) (
            Links-append sha256 dumps sealed (newly_sealed limit trail) [] 1 h.chained (
              rw e
                (fresh-Links sha256 dumps limit (length sealed) (head_of [] sealed) trail.rows)));
      }

  count-seal_pending :
      (limit : ℕ) (trail : Trail)
      → (seal_pending sha256 dumps limit trail).1 ≡ length (take limit (pending_events trail.rows))
  unfolding seal_pending
  count-seal_pending limit trail = refl

  pending_events-seal_pending :
      (limit : ℕ) (trail : Trail)
      → IsSound trail
      → pending_events (seal_pending sha256 dumps limit trail).0.rows
        ≡ drop limit (pending_events trail.rows)
  pending_events-seal_pending limit trail h =
      let sealed = sealed_events trail.rows in
      rw (seal_pending-seal_rows limit trail h)
        (pending_events-seal_rows sha256 dumps limit (length sealed) (head_of [] sealed) trail.rows)

  -- In a sound trail, whose rows stand by their primary keys, a call puts the first `limit` events
  -- that are finished and not sealed at the end of the chain, in that order, and says how many;
  -- the others still wait. The chain is intact after it and longer by that number, and the check
  -- counts as many fewer events that wait.
  pub seal_pending-verify_chain :
      (limit : ℕ) (trail : Trail)
      → IsSound trail
      → let (trail', count) = seal_pending sha256 dumps limit trail in
        let check = verify_chain sha256 dumps trail in
        let check' = verify_chain sha256 dumps trail' in
        ((new : List AuditEvent) × (sealed_events trail'.rows ≡ sealed_events trail.rows ++ new)
          × (pks_of new ≡ take limit (waiting trail.rows)))
        × (waiting trail'.rows ≡ drop limit (waiting trail.rows))
        × (check'.broken_at ≡ none)
        × (count ≡ min limit check.unsealed)
        × (check'.checked ≡ check.checked + count)
        × (check'.unsealed ≡ check.unsealed - count)
  seal_pending-verify_chain limit trail h =
      let sealed = sealed_events trail.rows in
      let pending = pending_events trail.rows in
      let (trail', count) = seal_pending sha256 dumps limit trail in
      let now = verify_chain-Links sha256 dumps trail h.chained in
      let after =
        verify_chain-Links sha256 dumps trail' (seal_pending-IsSound limit trail h).chained in
      let counted = count-seal_pending limit trail ∙ length-take limit pending in
      let new =
        length-fresh sha256 dumps limit (length sealed) (head_of [] sealed) trail.rows
        ∙ sym (count-seal_pending limit trail) in
      let longer =
        ap length (sealed_events-seal_pending limit trail h)
        ∙ length-append sealed (newly_sealed limit trail)
        ∙ ap (λ n. length sealed + n) new in
      let fewer =
        ap length (pending_events-seal_pending limit trail h) ∙ length-drop limit pending in
      let left =
        waiting-pending_events trail'.rows
        ∙ ap pks_of (pending_events-seal_pending limit trail h)
        ∙ pks_of-drop limit pending
        ∙ ap (drop limit) (sym (waiting-pending_events trail.rows)) in
      rw (now, after)
        (
          (
            newly_sealed limit trail,
            sealed_events-seal_pending limit trail h,
            pks_of-fresh limit (length sealed) (head_of [] sealed) trail.rows,
          ),
          left,
          refl,
          counted,
          longer,
          omega (arith, fewer, counted),
        )
