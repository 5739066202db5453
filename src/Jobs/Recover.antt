-- ===== src/Jobs/Recover.antt =====
-- What `recover` (dbs/jobs.py) does to the leases and to the audit trail.
use mathlib.Core.Path.{subst}
use dbs.Prelude.{
  ==_iff, Bool-cases, List, Option, [], ap, arith, drop-append, false, if◌then◌else◌, inl, inr, leb,
  map, none, not, refl, some, sym, true, ℕ, ◌&&◌, ◌++◌, ◌+◌, ◌==◌, ◌∙◌, ◌∷◌, ◌≡◌, ◌≤◌,
}
use dbs.Audit.{AuditEvent, Status, is_sealed, mark_sealed, is_finished}
use dbs.Audit.Operations.{elem_of, interrupted, is_interrupted, status_is_finished, is_idle}
use dbs.Jobs.{
  delete_expired, expired_names, is_expired_job, job_lease_prefix, starts_with, events_of,
  job_lease, digits,
}
use dbs.Jobs.Decimal.{digits-read}
use dbs.Leases.{Lease, Table, row_of}
use dbs.Text.{Text, elem, elem_self, text_eq, text_eq_sound}

-- the rows of the leases of jobs that still run, and all other rows
unfoldable pub live_rows : ℕ → Table → Table
unfolding is_expired_job
live_rows now [] = []
live_rows now (row ∷ table) =
    let rest = live_rows now table in if is_expired_job now row then rest else row ∷ rest

-- the status of the event with a primary key
unfoldable pub status_at : ℕ → List AuditEvent → Option Status
status_at pk [] = none
status_at pk (row ∷ rows) =
    let rest = status_at pk rows in if row.pk == pk then some row.status else rest

pub expired_names-prefixed :
    (now : ℕ) (name : Text) (table : Table)
    → elem name (expired_names now table) ≡ true
    → starts_with job_lease_prefix name ≡ true
unfolding expired_names elem
expired_names-prefixed now name [] h = cc
expired_names-prefixed now name ((n, lease) ∷ table) h =
    elim (Bool-cases (is_expired_job now (n, lease))) [
      | inr live ↦ expired_names-prefixed now name table (rw live at h)
      | inl old ↦ elim (Bool-cases (text_eq n name)) [
        | inl same ↦
            let prefixed : starts_with job_lease_prefix n ≡ true =
              unfold is_expired_job in ground arith in
            ap (starts_with job_lease_prefix) (sym (text_eq_sound n name same)) ∙ prefixed
        | inr other ↦ expired_names-prefixed now name table (rw (old, other) at h)
      ]
    ]

-- Every expired job's lease in the rows is among the names.
abbrev pub Covers : List Text → ℕ → Table → Type 0
Covers names now [] = Unit {0}
Covers names now (row ∷ table) =
    (is_expired_job now row ≡ true → elem row.0 names ≡ true) × Covers names now table

Covers-cons :
    (name : Text) (names : List Text) (now : ℕ) (table : Table)
    → Covers names now table
    → Covers (name ∷ names) now table
unfolding elem
Covers-cons name names now [] h = tt
Covers-cons name names now (row ∷ table) (c, h) =
    ((λ old. ground (arith, c old)), Covers-cons name names now table h)

expired_names_old :
    (now : ℕ) (row : Text × Lease) (table : Table)
    → is_expired_job now row ≡ true
    → expired_names now (row ∷ table) ≡ row.0 ∷ expired_names now table
unfolding expired_names
expired_names_old now row table old = rw old

expired_names_live :
    (now : ℕ) (row : Text × Lease) (table : Table)
    → is_expired_job now row ≡ false
    → expired_names now (row ∷ table) ≡ expired_names now table
unfolding expired_names
expired_names_live now row table live = rw live

pub expired_names-Covers : (now : ℕ) (table : Table) → Covers (expired_names now table) now table
expired_names-Covers now [] = tt
expired_names-Covers now (row ∷ table) =
    let ih = expired_names-Covers now table in
    let All = λ (names : List Text). Covers names now (row ∷ table) in
    elim (Bool-cases (is_expired_job now row)) [
      | inl old ↦ subst All (sym (expired_names_old now row table old)) (
        (λ again. elem_self row.0 (expired_names now table)),
        Covers-cons row.0 (expired_names now table) now table ih,
      )
      | inr live ↦
          subst All (sym (expired_names_live now row table live))
            ((λ old. absurd (cc (live, old))), ih)
    ]

kept_alive :
    (name : Text) (lease : Lease) (names : List Text) (now : ℕ)
    → is_expired_job now (name, lease) ≡ false
    → (elem name names ≡ true → starts_with job_lease_prefix name ≡ true)
    → elem name names && leb lease.expires_at now ≡ false
unfolding is_expired_job
kept_alive name lease names now live p = elim (Bool-cases (elem name names)) [
  | inr absent ↦ rw absent
  | inl named ↦ rw named (let prefixed = p named in ground arith)
]

pub delete_expired-live_rows :
    (names : List Text) (now : ℕ) (table : Table)
    → ((name : Text) → elem name names ≡ true → starts_with job_lease_prefix name ≡ true)
    → Covers names now table
    → delete_expired names now table ≡ live_rows now table
unfolding delete_expired live_rows
delete_expired-live_rows names now [] p c = refl
delete_expired-live_rows names now ((name, lease) ∷ table) p (c, h) =
    let ih = delete_expired-live_rows names now table p h in
    elim (Bool-cases (is_expired_job now (name, lease))) [
      | inl old ↦
          let named = c old in
          let past : leb lease.expires_at now ≡ true = unfold is_expired_job in ground arith in
          rw (old, named, past) ih
      | inr live ↦
          rw (live, kept_alive name lease names now live (p name)) (ap (◌∷◌ (name, lease)) ih)
    ]

starts_with-append : (prefix name : Text) → starts_with prefix (prefix ++ name) ≡ true
unfolding starts_with
starts_with-append [] name = refl
starts_with-append (c ∷ prefix) name =
    let same : (c == c) ≡ true = ground arith in rw (same, starts_with-append prefix name)

elem_of_first : (k : ℕ) (ks : List ℕ) → elem_of k (k ∷ ks) ≡ true
unfolding elem_of
elem_of_first k ks = let same : (k == k) ≡ true = ground arith in rw same

events_of-job_lease :
    (event_id : ℕ) (names : List Text)
    → elem_of event_id (events_of (job_lease event_id ∷ names)) ≡ true
unfolding events_of job_lease
events_of-job_lease event_id names =
    let name = digits (event_id + 1) event_id in
    let (value, every, some_digits) = digits-read (event_id + 1) event_id (omega arith) in
    rw (drop-append job_lease_prefix name, some_digits, value)
      (elem_of_first event_id (events_of names))

events_of-cons :
    (event_id : ℕ) (name : Text) (names : List Text)
    → elem_of event_id (events_of names) ≡ true
    → elem_of event_id (events_of (name ∷ names)) ≡ true
unfolding events_of elem_of
events_of-cons event_id name names h = ground arith

job_lease-is_expired_job :
    (event_id now : ℕ) (lease : Lease)
    → lease.expires_at ≤ now
    → is_expired_job now (job_lease event_id, lease) ≡ true
unfolding is_expired_job job_lease
job_lease-is_expired_job event_id now lease l =
    rw (starts_with-append job_lease_prefix (digits (event_id + 1) event_id)) (ground arith)

same_expiry : (a b : Lease) → some a ≡ some b → a.expires_at ≡ b.expires_at
same_expiry a b e = cc

pub elem_of-events_of :
    (event_id now : ℕ) (table : Table) (lease : Lease)
    → row_of (job_lease event_id) table ≡ some lease
    → lease.expires_at ≤ now
    → elem_of event_id (events_of (expired_names now table)) ≡ true
unfolding row_of
elem_of-events_of event_id now [] lease e l = cc
elem_of-events_of event_id now ((name, found) ∷ table) lease e l =
    elim (Bool-cases (text_eq name (job_lease event_id))) [
      | inl same ↦
          let is : some found ≡ some lease = rw same at e in
          let named = text_eq_sound name (job_lease event_id) same in
          let old : is_expired_job now (name, found) ≡ true = rw named (
            job_lease-is_expired_job event_id now found
              (omega (arith, l, same_expiry found lease is))) in
          rw (expired_names_old now (name, found) table old, named)
            (events_of-job_lease event_id (expired_names now table))
      | inr other ↦
          let ih = elem_of-events_of event_id now table lease (rw other at e) l in
          elim (Bool-cases (is_expired_job now (name, found))) [
            | inl old ↦
                rw (expired_names_old now (name, found) table old)
                  (events_of-cons event_id name (expired_names now table) ih)
            | inr live ↦ rw (expired_names_live now (name, found) table live) ih
          ]
    ]

pub status_at-mark_sealed :
    (pk k index : ℕ) (hash : Text) (rows : List AuditEvent)
    → status_at pk (mark_sealed k index hash rows) ≡ status_at pk rows
unfolding status_at mark_sealed
status_at-mark_sealed pk k index hash [] = refl
status_at-mark_sealed pk k index hash (row ∷ rows) =
    elim (Bool-cases (row.pk == k && not (is_sealed row))) [
      | inl met ↦ rw (met, status_at-mark_sealed pk k index hash rows)
      | inr other ↦ rw (other, status_at-mark_sealed pk k index hash rows)
    ]

interrupted_row :
    (pk now : ℕ) (events : List ℕ) (row : AuditEvent)
    → elem_of pk events ≡ true
    → row.pk ≡ pk
    → is_finished row ≡ false
    → is_interrupted none [] (some events) row ≡ true
unfolding is_interrupted is_idle
interrupted_row pk now events row m e u =
    let listed : elem_of row.pk events ≡ true = ap (λ k. elem_of k events) e ∙ m in
    rw (u, listed) (unfold elem_of in refl)

open_status :
    (status : Status)
    → status_is_finished status ≡ false
    → (elim status [ Status.succeeded ↦ true | Status.failed ↦ true | _ ↦ false ]) ≡ false
unfolding status_is_finished
open_status Status.queued u = refl
open_status Status.running u = refl
open_status Status.succeeded u = u
open_status Status.failed u = u

row_status :
    (row : AuditEvent) (status : Status)
    → row.status ≡ status
    → status_is_finished status ≡ false
    → is_finished row ≡ false
unfolding is_finished status_is_finished
row_status row status e u = rw e (open_status status u)

pub interrupted_status :
    (pk now : ℕ) (events : List ℕ) (rows : List AuditEvent) (status : Status)
    → elem_of pk events ≡ true
    → status_at pk rows ≡ some status
    → status_is_finished status ≡ false
    → status_at pk (
        map
          (λ row. if is_interrupted none [] (some events) row then interrupted now row else row)
          rows)
      ≡ some Status.failed
unfolding status_at interrupted
interrupted_status pk now events [] status m e u = cc
interrupted_status pk now events (row ∷ rows) status m e u = elim (Bool-cases (row.pk == pk)) [
  | inl same ↦
      let is : some row.status ≡ some status = rw same at e in
      let open_row = row_status row status (cc is) u in
      let met = interrupted_row pk now events row m ((==_iff row.pk pk).0 same) open_row in
      rw (met, same)
  | inr other ↦
      let ih = interrupted_status pk now events rows status m (rw other at e) u in
      elim (Bool-cases (is_interrupted none [] (some events) row)) [
        | inl met ↦ rw (met, other) ih
        | inr left ↦ rw (left, other) ih
      ]
]
