-- ===== src/Audit/Sealing/Rows.antt =====
-- One pass over the rows that does what the loop of `seal_pending` (dbs/audit.py) does by key.
use dbs.Prelude.{
  Bool-cases, List, [], ap, arith, false, if◌then◌else◌, inl, inr, refl, some, suc, take, true,
  zero, ℕ, ◌+◌, ◌==◌, ◌∙◌, ◌∷◌, ◌≡◌,
}
use dbs.Audit.{
  AuditEvent, Body, is_pending, is_sealed, link, mark_sealed, pending_events, seal_events,
}
use dbs.Audit.Sealing.{Ascends, PksFrom, mark_sealed_absent, pending_events-PksFrom, take-PksFrom}
use dbs.Text.{Text}

module _ (sha256 : Text → Text) (dumps : Body → Text) where
  -- the next link, on `row`
  abbrev pub link_on : ℕ → Text → AuditEvent → Text
  link_on index previous row =
      link sha256 dumps previous (record row { chain_index = some (index + 1) })

  abbrev pub sealed_row : ℕ → Text → AuditEvent → AuditEvent
  sealed_row index previous row = record row {
    chain_index = some (index + 1);
    chain_hash = link_on index previous row;
  }

  unfoldable pub seal_rows : ℕ → ℕ → Text → List AuditEvent → List AuditEvent
  seal_rows zero index previous rows = rows
  seal_rows (suc n) index previous [] = []
  seal_rows (suc n) index previous (row ∷ rows) =
      let sealed =
        sealed_row index previous row ∷ seal_rows n (index + 1) (link_on index previous row) rows in
      let kept = row ∷ seal_rows (suc n) index previous rows in
      if is_pending row then sealed else kept

  -- the events that the pass seals
  unfoldable pub fresh : ℕ → ℕ → Text → List AuditEvent → List AuditEvent
  fresh zero index previous rows = []
  fresh (suc n) index previous [] = []
  fresh (suc n) index previous (row ∷ rows) =
      let sealed =
        sealed_row index previous row ∷ fresh n (index + 1) (link_on index previous row) rows in
      let others = fresh (suc n) index previous rows in if is_pending row then sealed else others

  seal_events-cons :
      (pending : List AuditEvent) (index : ℕ) (previous : Text) (row : AuditEvent)
      (rows : List AuditEvent)
      → PksFrom (row.pk + 1) pending
      → seal_events sha256 dumps pending index previous (row ∷ rows)
        ≡ row ∷ seal_events sha256 dumps pending index previous rows
  unfolding seal_events mark_sealed
  seal_events-cons [] index previous row rows h = refl
  seal_events-cons (event ∷ pending) index previous row rows (b, h) =
      let differs : (row.pk == event.pk) ≡ false = ground arith in
      rw differs (
        seal_events-cons pending (index + 1) (link_on index previous event) row
          (mark_sealed event.pk (index + 1) (link_on index previous event) rows) h)

  seal_events_pending :
      (n index : ℕ) (previous : Text) (row : AuditEvent) (rows : List AuditEvent)
      → Ascends (row.pk + 1) rows
      → is_pending row ≡ true
      → seal_events sha256 dumps
          (take (suc n) (pending_events (row ∷ rows)))
          index
          previous
          (row ∷ rows)
        ≡ sealed_row index previous row
          ∷ seal_events sha256 dumps
              (take n (pending_events rows))
              (index + 1)
              (link_on index previous row)
              rows
  unfolding pending_events seal_events mark_sealed is_pending
  seal_events_pending n index previous row rows h pending =
      let hash = link_on index previous row in
      let ready : is_sealed row ≡ false = ground arith in
      let same : (row.pk == row.pk) ≡ true = ground arith in
      let others = mark_sealed_absent row.pk (index + 1) (row.pk + 1) hash rows (omega arith) h in
      rw (pending, same, ready, others)
        (seal_events-cons (take n (pending_events rows)) (index + 1) hash
          (sealed_row index previous row) rows
          (take-PksFrom n (row.pk + 1) (pending_events rows)
            (pending_events-PksFrom (row.pk + 1) rows h)))

  seal_events_kept :
      (limit index : ℕ) (previous : Text) (row : AuditEvent) (rows : List AuditEvent)
      → Ascends (row.pk + 1) rows
      → is_pending row ≡ false
      → seal_events sha256 dumps
          (take limit (pending_events (row ∷ rows)))
          index
          previous
          (row ∷ rows)
        ≡ row ∷ seal_events sha256 dumps (take limit (pending_events rows)) index previous rows
  unfolding pending_events
  seal_events_kept limit index previous row rows h other = rw other (
      seal_events-cons (take limit (pending_events rows)) index previous row rows (
        take-PksFrom limit (row.pk + 1) (pending_events rows)
          (pending_events-PksFrom (row.pk + 1) rows h)))

  pub seal_events-seal_rows :
      (limit index bound : ℕ) (previous : Text) (rows : List AuditEvent)
      → Ascends bound rows
      → seal_events sha256 dumps (take limit (pending_events rows)) index previous rows
        ≡ seal_rows limit index previous rows
  unfolding seal_rows
  seal_events-seal_rows zero index bound previous rows h = unfold seal_events in refl
  seal_events-seal_rows (suc n) index bound previous [] h =
      unfold seal_events pending_events in refl
  seal_events-seal_rows (suc n) index bound previous (row ∷ rows) (b, h) =
      elim (Bool-cases (is_pending row)) [
        | inl pending ↦
            let hash = link_on index previous row in
            let ih = seal_events-seal_rows n (index + 1) (row.pk + 1) hash rows h in
            seal_events_pending n index previous row rows h pending
            ∙ rw pending (ap (◌∷◌ (sealed_row index previous row)) ih)
        | inr other ↦
            let ih = seal_events-seal_rows (suc n) index (row.pk + 1) previous rows h in
            seal_events_kept (suc n) index previous row rows h other ∙ rw other (ap (◌∷◌ row) ih)
      ]
