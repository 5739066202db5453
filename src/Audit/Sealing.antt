-- ===== src/Audit/Sealing.antt =====
-- `seal_pending` (dbs/audit.py): the events it seals follow the chain that is there.
pub mod Rows
pub mod Fresh
pub mod Whole
use dbs.Prelude.{
  Bool-cases, List, [], ap, arith, false, inl, inr, refl, suc, take, true, zero, ℕ, ◌++◌, ◌+◌, ◌<◌,
  ◌==◌, ◌∷◌, ◌≡◌, ◌≤◌,
}
use dbs.Audit.{
  AuditEvent, comes_before, index_of, insert_event, is_pending, mark_sealed, pending_events,
}
use dbs.Text.{Text}

-- The rows stand in the order of their primary keys, which are at least `bound`.
abbrev pub Ascends : ℕ → List AuditEvent → Type 0
Ascends bound [] = Unit {0}
Ascends bound (row ∷ rows) = (bound ≤ row.pk) × Ascends (row.pk + 1) rows

abbrev pub PksFrom : ℕ → List AuditEvent → Type 0
PksFrom bound [] = Unit {0}
PksFrom bound (event ∷ events) = (bound ≤ event.pk) × PksFrom bound events

PksFrom-of_le : (m n : ℕ) (events : List AuditEvent) → m ≤ n → PksFrom n events → PksFrom m events
PksFrom-of_le m n [] l h = tt
PksFrom-of_le m n (event ∷ events) l (b, h) = (omega arith, PksFrom-of_le m n events l h)

pub take-PksFrom :
    (limit bound : ℕ) (events : List AuditEvent)
    → PksFrom bound events
    → PksFrom bound (take limit events)
take-PksFrom zero bound events h = tt
take-PksFrom (suc n) bound [] h = tt
take-PksFrom (suc n) bound (event ∷ events) (b, h) = (b, take-PksFrom n bound events h)

pub pending_events-PksFrom :
    (bound : ℕ) (rows : List AuditEvent) → Ascends bound rows → PksFrom bound (pending_events rows)
unfolding pending_events
pending_events-PksFrom bound [] h = tt
pending_events-PksFrom bound (row ∷ rows) (b, h) =
    let rest =
      PksFrom-of_le bound (row.pk + 1) (pending_events rows) (omega arith)
        (pending_events-PksFrom (row.pk + 1) rows h) in
    elim (Bool-cases (is_pending row)) [
      | inl pending ↦ rw pending (b, rest)
      | inr other ↦ rw other rest
    ]

pub mark_sealed_absent :
    (pk index bound : ℕ) (chain_hash : Text) (rows : List AuditEvent)
    → pk < bound
    → Ascends bound rows
    → mark_sealed pk index chain_hash rows ≡ rows
unfolding mark_sealed
mark_sealed_absent pk index bound chain_hash [] l h = refl
mark_sealed_absent pk index bound chain_hash (row ∷ rows) l (b, h) =
    let ih = mark_sealed_absent pk index (row.pk + 1) chain_hash rows (omega arith) h in
    let differs : (row.pk == pk) ≡ false = ground arith in rw (differs, ih)

-- Every index is at most `n`.
abbrev pub UpTo : ℕ → List AuditEvent → Type 0
UpTo n [] = Unit {0}
UpTo n (event ∷ events) = (index_of event ≤ n) × UpTo n events

pub UpTo-of_le : (m n : ℕ) (events : List AuditEvent) → m ≤ n → UpTo m events → UpTo n events
UpTo-of_le m n [] l h = tt
UpTo-of_le m n (event ∷ events) l (i, h) = (omega arith, UpTo-of_le m n events l h)

-- The first index, if there is one, is above `n`.
abbrev pub Above : ℕ → List AuditEvent → Type 0
Above n [] = Unit {0}
Above n (event ∷ events) = n < index_of event

pub insert_event-UpTo :
    (n : ℕ) (event : AuditEvent) (events : List AuditEvent)
    → UpTo n (insert_event event events)
    → (index_of event ≤ n) × UpTo n events
unfolding insert_event
insert_event-UpTo n event [] h = h
insert_event-UpTo n event (e ∷ events) h = elim (Bool-cases (comes_before e event)) [
  | inl before ↦
      let (i, rest) : UpTo n (e ∷ insert_event event events) = rw before at h in
      let (j, others) = insert_event-UpTo n event events rest in (j, (i, others))
  | inr after ↦ let k : UpTo n (event ∷ e ∷ events) = rw after at h in k
]

comes_before_above : (a b : AuditEvent) → index_of b < index_of a → comes_before a b ≡ false
unfolding comes_before
comes_before_above a b h = ground arith

comes_before_below : (a b : AuditEvent) → index_of a < index_of b → comes_before a b ≡ true
unfolding comes_before
comes_before_below a b h = ground arith

pub insert_event-append :
    (event : AuditEvent) (xs ys : List AuditEvent)
    → Above (index_of event) ys
    → insert_event event (xs ++ ys) ≡ insert_event event xs ++ ys
unfolding insert_event
insert_event-append event [] [] h = refl
insert_event-append event [] (y ∷ ys) h = rw (comes_before_above y event h)
insert_event-append event (x ∷ xs) ys h = elim (Bool-cases (comes_before x event)) [
  | inl before ↦ rw before (ap (◌∷◌ x) (insert_event-append event xs ys h))
  | inr after ↦ rw after
]

pub insert_event-append_new :
    (event : AuditEvent) (n : ℕ) (xs ys : List AuditEvent)
    → n < index_of event
    → UpTo n xs
    → Above (index_of event) ys
    → insert_event event (xs ++ ys) ≡ xs ++ event ∷ ys
unfolding insert_event
insert_event-append_new event n [] [] l h k = refl
insert_event-append_new event n [] (y ∷ ys) l h k = rw (comes_before_above y event k)
insert_event-append_new event n (x ∷ xs) ys l (i, h) k =
    rw (comes_before_below x event (omega arith))
      (ap (◌∷◌ x) (insert_event-append_new event n xs ys l h k))
