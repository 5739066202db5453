-- ===== src/Audit/Sealing/Fresh.antt =====
-- The events that `seal_pending` (dbs/audit.py) seals, as links at the end of the chain.
use dbs.Prelude.{
  Bool-cases, List, [], ap, append-nil, arith, drop, false, inl, inr, length, refl, suc, sym, take,
  true, zero, ℕ, ◌++◌, ◌+◌, ◌∙◌, ◌∷◌, ◌≡◌, ◌≤◌,
}
use dbs.Audit.{
  AuditEvent, Body, body_of, canonical, index_of, is_pending, is_sealed, link, pending_events,
  sealed_events, insert_event,
}
use dbs.Audit.Links.{Links}
use dbs.Audit.Sealing.{
  Above, UpTo, UpTo-of_le, insert_event-UpTo, insert_event-append, insert_event-append_new,
}
use dbs.Audit.Sealing.Rows.{fresh, link_on, seal_rows, sealed_row}
use dbs.Text.{Text}

module _ (sha256 : Text → Text) (dumps : Body → Text) where
  pub fresh-Links :
      (limit index : ℕ) (previous : Text) (rows : List AuditEvent)
      → Links sha256 dumps previous (index + 1) (fresh sha256 dumps limit index previous rows)
  unfolding fresh
  fresh-Links zero index previous rows = tt
  fresh-Links (suc n) index previous [] = tt
  fresh-Links (suc n) index previous (row ∷ rows) = elim (Bool-cases (is_pending row)) [
    | inl pending ↦ rw pending (
      (unfold index_of in refl),
      (unfold link canonical body_of in refl),
      fresh-Links n (index + 1) (link_on sha256 dumps index previous row) rows,
    )
    | inr other ↦ rw other (fresh-Links (suc n) index previous rows)
  ]

  pub length-fresh :
      (limit index : ℕ) (previous : Text) (rows : List AuditEvent)
      → length (fresh sha256 dumps limit index previous rows)
        ≡ length (take limit (pending_events rows))
  unfolding fresh pending_events
  length-fresh zero index previous rows = refl
  length-fresh (suc n) index previous [] = refl
  length-fresh (suc n) index previous (row ∷ rows) = elim (Bool-cases (is_pending row)) [
    | inl pending ↦
        rw pending
          (ap suc (length-fresh n (index + 1) (link_on sha256 dumps index previous row) rows))
    | inr other ↦ rw other (length-fresh (suc n) index previous rows)
  ]

  pub pending_events-seal_rows :
      (limit index : ℕ) (previous : Text) (rows : List AuditEvent)
      → pending_events (seal_rows sha256 dumps limit index previous rows)
        ≡ drop limit (pending_events rows)
  unfolding seal_rows pending_events
  pending_events-seal_rows zero index previous rows = refl
  pending_events-seal_rows (suc n) index previous [] = refl
  pending_events-seal_rows (suc n) index previous (row ∷ rows) =
      elim (Bool-cases (is_pending row)) [
        | inl pending ↦
            rw pending (
              pending_events-seal_rows n (index + 1) (link_on sha256 dumps index previous row) rows)
        | inr other ↦ rw (other, other) (pending_events-seal_rows (suc n) index previous rows)
      ]

  fresh-Above :
      (limit index k : ℕ) (previous : Text) (rows : List AuditEvent)
      → k ≤ index
      → Above k (fresh sha256 dumps limit index previous rows)
  unfolding fresh
  fresh-Above zero index k previous rows l = tt
  fresh-Above (suc n) index k previous [] l = tt
  fresh-Above (suc n) index k previous (row ∷ rows) l = elim (Bool-cases (is_pending row)) [
    | inl pending ↦ rw pending (unfold index_of in omega arith)
    | inr other ↦ rw other (fresh-Above (suc n) index k previous rows l)
  ]

  -- A pending event is not sealed, and stands behind all that are.
  pending_is_unsealed : (row : AuditEvent) → is_pending row ≡ true → is_sealed row ≡ false
  unfolding is_pending
  pending_is_unsealed row h = ground arith

  sealed_events-UpTo :
      (n : ℕ) (row : AuditEvent) (rows : List AuditEvent)
      → is_sealed row ≡ true
      → UpTo n (sealed_events (row ∷ rows))
      → (index_of row ≤ n) × UpTo n (sealed_events rows)
  unfolding sealed_events
  sealed_events-UpTo n row rows s u =
      let v : UpTo n (insert_event row (sealed_events rows)) = rw s at u in
      insert_event-UpTo n row (sealed_events rows) v

  sealed_events_unsealed :
      (row : AuditEvent) (rows : List AuditEvent)
      → is_sealed row ≡ false
      → sealed_events (row ∷ rows) ≡ sealed_events rows
  unfolding sealed_events
  sealed_events_unsealed row rows s = rw s

  sealed_events_sealed :
      (row : AuditEvent) (rows : List AuditEvent)
      → is_sealed row ≡ true
      → sealed_events (row ∷ rows) ≡ insert_event row (sealed_events rows)
  unfolding sealed_events
  sealed_events_sealed row rows s = rw s

  -- sealing the first row
  sealed_events-sealed_row :
      (n index : ℕ) (previous : Text) (row : AuditEvent) (rows : List AuditEvent)
      → UpTo index (sealed_events rows)
      → UpTo (index + 1) (sealed_events rows)
        × (insert_event (sealed_row sha256 dumps index previous row) (
              sealed_events rows
              ++ fresh sha256 dumps n (index + 1) (link_on sha256 dumps index previous row) rows)
            ≡ sealed_events rows
              ++ sealed_row sha256 dumps index previous row
                ∷ fresh sha256 dumps n (index + 1) (link_on sha256 dumps index previous row) rows)
  unfolding index_of
  sealed_events-sealed_row n index previous row rows u = (
    UpTo-of_le index (index + 1) (sealed_events rows) (omega arith) u,
    insert_event-append_new (sealed_row sha256 dumps index previous row) index (sealed_events rows)
        (fresh sha256 dumps n (index + 1) (link_on sha256 dumps index previous row) rows)
        (omega arith) u
        (fresh-Above n (index + 1) (index + 1) (link_on sha256 dumps index previous row) rows
          (omega arith)),
  )

  pub sealed_events-seal_rows :
      (limit index : ℕ) (previous : Text) (rows : List AuditEvent)
      → UpTo index (sealed_events rows)
      → sealed_events (seal_rows sha256 dumps limit index previous rows)
        ≡ sealed_events rows ++ fresh sha256 dumps limit index previous rows
  unfolding seal_rows fresh
  sealed_events-seal_rows zero index previous rows u = sym (append-nil (sealed_events rows))
  sealed_events-seal_rows (suc n) index previous [] u = unfold sealed_events in refl
  sealed_events-seal_rows (suc n) index previous (row ∷ rows) u =
      elim (Bool-cases (is_pending row)) [
        | inl pending ↦
            let hash = link_on sha256 dumps index previous row in
            let open_row = sealed_events_unsealed row rows (pending_is_unsealed row pending) in
            let v : UpTo index (sealed_events rows) = rw open_row at u in
            let (w, step) = sealed_events-sealed_row n index previous row rows v in
            let ih = sealed_events-seal_rows n (index + 1) hash rows w in
            rw (pending, open_row)
              (sealed_events_sealed (sealed_row sha256 dumps index previous row)
                  (seal_rows sha256 dumps n (index + 1) hash rows) (unfold is_sealed in refl)
                ∙ rw ih step)
        | inr other ↦ elim (Bool-cases (is_sealed row)) [
          | inl closed ↦
              let (l, v) = sealed_events-UpTo index row rows closed u in
              let ih = sealed_events-seal_rows (suc n) index previous rows v in
              rw (other, sealed_events_sealed row rows closed)
                (sealed_events_sealed row (seal_rows sha256 dumps (suc n) index previous rows)
                    closed
                  ∙ rw ih (
                      insert_event-append row (sealed_events rows)
                        (fresh sha256 dumps (suc n) index previous rows)
                        (fresh-Above (suc n) index (index_of row) previous rows l)))
          | inr open_row ↦
              let v : UpTo index (sealed_events rows) =
                rw (sealed_events_unsealed row rows open_row) at u in
              rw (other, sealed_events_unsealed row rows open_row)
                (sealed_events_unsealed row (seal_rows sha256 dumps (suc n) index previous rows)
                    open_row
                  ∙ sealed_events-seal_rows (suc n) index previous rows v)
        ]
      ]
