-- ===== src/Audit/Links.antt =====
-- What `verify_chain` (dbs/audit.py) finds intact, as a predicate on the sealed events in order.
use dbs.Prelude.{
  ==_iff, Bool-cases, List, Option-cases, [], arith, inl, inr, length, none, suc, true, ℕ, ◌++◌,
  ◌+◌, ◌==◌, ◌∷◌, ◌≡◌,
}
use dbs.Audit.{
  AuditEvent, Body, ChainCheck, index_of, link, verify_events, Trail, count_unfinished, intact,
  new_check, pending_events, sealed_events, verify_chain,
}
use dbs.Text.{Text, text_eq, text_eq_refl, text_eq_sound}

-- the hash that the next link is built on
unfoldable pub head_of : Text → List AuditEvent → Text
head_of previous [] = previous
head_of previous (event ∷ events) = head_of event.chain_hash events

module _ (sha256 : Text → Text) (dumps : Body → Text) where
  -- The events carry consecutive indices, and each hash covers its event and the hash before.
  abbrev pub Links : Text → ℕ → List AuditEvent → Type 0
  Links previous expected [] = Unit {0}
  Links previous expected (event ∷ events) =
      (index_of event ≡ expected)
      × (link sha256 dumps previous event ≡ event.chain_hash)
      × Links event.chain_hash (expected + 1) events

  pub Links-append :
      (xs ys : List AuditEvent) (previous : Text) (expected : ℕ)
      → Links previous expected xs
      → Links (head_of previous xs) (expected + length xs) ys
      → Links previous expected (xs ++ ys)
  unfolding head_of
  Links-append [] ys previous expected h k =
      let e : expected + 0 ≡ expected = omega arith in rw (← e) k
  Links-append (x ∷ xs) ys previous expected (i, l, h) k =
      let e : expected + suc (length xs) ≡ expected + 1 + length xs = omega arith in
      (i, l, Links-append xs ys x.chain_hash (expected + 1) h (rw (← e) k))

  verify_events-Links :
      (events : List AuditEvent) (previous : Text) (expected : ℕ) (check : ChainCheck)
      → Links previous expected events
      → verify_events sha256 dumps events previous expected check
        ≡ record check { checked = check.checked + length events; head = head_of previous events }
  unfolding verify_events head_of
  verify_events-Links [] previous expected check h =
      let e : check.checked + 0 ≡ check.checked = omega arith in rw e
  verify_events-Links (event ∷ events) previous expected check (i, l, h) =
      let e : check.checked + suc (length events) ≡ check.checked + 1 + length events =
        omega arith in
      let same : (index_of event == expected) ≡ true = (==_iff (index_of event) expected).1 i in
      rw (same, l, text_eq_refl event.chain_hash, e)
        (verify_events-Links events event.chain_hash (expected + 1)
          (record check { checked = check.checked + 1 }) h)

  Links-verify_events :
      (events : List AuditEvent) (previous : Text) (expected : ℕ) (check : ChainCheck)
      → (verify_events sha256 dumps events previous expected check).broken_at ≡ none
      → Links previous expected events
  unfolding verify_events
  Links-verify_events [] previous expected check h = tt
  Links-verify_events (event ∷ events) previous expected check h =
      elim (Bool-cases (index_of event == expected)) [
        | inl same ↦
            elim (Bool-cases (text_eq (link sha256 dumps previous event) event.chain_hash)) [
              | inl linked ↦ (
                (==_iff (index_of event) expected).0 same,
                text_eq_sound (link sha256 dumps previous event) event.chain_hash linked,
                Links-verify_events events event.chain_hash (expected + 1)
                    (record check { checked = check.checked + 1 })
                    (let k = rw (same, linked) at h in k),
              )
              | inr other ↦ absurd (let k = rw (same, other) at h in cc k)
            ]
        | inr other ↦ absurd (ground arith)
      ]

  pub Links-verify_chain :
      (trail : Trail)
      → (verify_chain sha256 dumps trail).broken_at ≡ none
      → Links [] 1 (sealed_events trail.rows)
  unfolding verify_chain intact
  Links-verify_chain trail h =
      let check = verify_events sha256 dumps (sealed_events trail.rows) [] 1 new_check in
      Links-verify_events (sealed_events trail.rows) [] 1 new_check
        (elim (Option-cases check.broken_at) [
          | inl none_found ↦ none_found
          | inr (index, found) ↦ absurd (let k = rw found at h in cc (k, found))
        ])

  pub verify_chain-Links :
      (trail : Trail)
      → Links [] 1 (sealed_events trail.rows)
      → verify_chain sha256 dumps trail ≡ record new_check {
        checked = length (sealed_events trail.rows);
        head = head_of [] (sealed_events trail.rows);
        unsealed = length (pending_events trail.rows);
        unfinished = count_unfinished trail.rows;
      }
  unfolding verify_chain intact
  verify_chain-Links trail h =
      let e : 0 + length (sealed_events trail.rows) ≡ length (sealed_events trail.rows) =
        omega arith in
      rw (verify_events-Links (sealed_events trail.rows) [] 1 new_check h, e)
