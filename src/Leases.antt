-- ===== src/Leases.antt =====
-- The leases that keep two processes from one piece of work (dbs/leases.py). The table is keyed by
-- the unique name of a lease; the clock's value is an argument. The empty owner is no owner.
pub mod Exclusive
use dbs.Prelude.{
  Bool, List, Option, [], false, if◌then◌else◌, leb, ltb, none, not, some, true, ℕ, ◌&&◌, ◌+◌, ◌||◌,
  ◌∷◌,
}
use dbs.Text.{Text, text_eq}

pub record Lease : Type 0 where
  pub owner : Text
  pub expires_at : ℕ
  pub renewed_at : ℕ

abbrev pub Table : Type 0
Table = List (Text × Lease)

-- `Lease.objects.filter(name=name).first()`
unfoldable pub row_of : Text → Table → Option Lease
row_of name [] = none
row_of name ((n, lease) ∷ table) =
    let rest = row_of name table in if text_eq n name then some lease else rest

unfoldable pub put : Text → Lease → Table → Table
put name lease [] = (name, lease) ∷ []
put name lease ((n, old) ∷ table) =
    let rest = put name lease table in
    if text_eq n name then (n, lease) ∷ table else (n, old) ∷ rest

unfoldable pub delete : Text → Table → Table
delete name [] = []
delete name ((n, lease) ∷ table) =
    let rest = delete name table in if text_eq n name then rest else (n, lease) ∷ rest

-- the table after `get_or_create`
unfoldable pub ensure : Text → ℕ → Table → Table
ensure name now table = elim (row_of name table) [
  | some lease ↦ table
  | none ↦ put name (record { owner = []; expires_at = now; renewed_at = now }) table
]

-- `filter(name=name).filter(condition).update(...)`: the table, and whether a row was updated
unfoldable pub update : Text → (Lease → Bool) → (Lease → Lease) → Table → Table × Bool
update name condition change table = elim (row_of name table) [
  | none ↦ (table, false)
  | some lease ↦ if condition lease then (put name (change lease) table, true) else (table, false)
]

unfoldable pub acquire : Text → Text → ℕ → ℕ → Table → Table × Bool
unfolding ensure update
acquire name owner ttl_seconds now table =
    update name (λ lease. leb lease.expires_at now || text_eq lease.owner owner)
      (λ lease. record { owner = owner; expires_at = now + ttl_seconds; renewed_at = now })
      (ensure name now table)

unfoldable pub renew : Text → Text → ℕ → ℕ → Table → Table × Bool
unfolding update
renew name owner ttl_seconds now table =
    update name (λ lease. text_eq lease.owner owner)
      (λ lease. record lease { expires_at = now + ttl_seconds; renewed_at = now }) table

unfoldable pub release : Text → Text → ℕ → Table → Table
unfolding update
release name owner now table =
    (update name (λ lease. text_eq lease.owner owner)
      (λ lease. record lease { owner = []; expires_at = now }) table).0

unfoldable pub drop_lease : Text → Text → Table → Table
unfolding delete
drop_lease name owner table = elim (row_of name table) [
  | none ↦ table
  | some lease ↦ if text_eq lease.owner owner then delete name table else table
]

unfoldable pub holder : Text → ℕ → Table → Option Lease
holder name now table = elim (row_of name table) [
  | none ↦ none
  | some lease ↦
      if ltb now lease.expires_at && not (text_eq lease.owner []) then some lease else none
]

unfoldable pub last_renewed : Text → Table → Option ℕ
last_renewed name table = elim (row_of name table) [
  | none ↦ none
  | some lease ↦ some lease.renewed_at
]

-- What one round of a heartbeat finds for a lease; `renewable` is false where the database fails.
unfoldable pub beat : List (Text × Bool) → Text → ℕ → ℕ → Table × Bool → Table × Bool
unfolding renew
beat [] owner ttl_seconds now (table, lost) = (table, lost)
beat ((name, renewable) ∷ names) owner ttl_seconds now (table, lost) =
    let (table', renewed) = renew name owner ttl_seconds now table in
    if renewable
    then beat names owner ttl_seconds now (table', lost || not renewed)
    else beat names owner ttl_seconds now (table, lost)

-- What the processes do to the table.
pub data Operation : Type 0 where
  acquiring : Text → Text → ℕ → Operation
  renewing : Text → Text → ℕ → Operation
  releasing : Text → Text → Operation
  dropping : Text → Text → Operation

abbrev pub owner_of : Operation → Text
owner_of (acquiring name owner ttl_seconds) = owner
owner_of (renewing name owner ttl_seconds) = owner
owner_of (releasing name owner) = owner
owner_of (dropping name owner) = owner

unfoldable pub perform : Operation → ℕ → Table → Table
perform (acquiring name owner ttl_seconds) now table = (acquire name owner ttl_seconds now table).0
perform (renewing name owner ttl_seconds) now table = (renew name owner ttl_seconds now table).0
perform (releasing name owner) now table = release name owner now table
perform (dropping name owner) now table = drop_lease name owner table

-- The operations in the order in which the database commits them, each with the clock's value.
unfoldable pub perform_all : List (ℕ × Operation) → Table → Table
unfolding perform
perform_all [] table = table
perform_all ((now, operation) ∷ operations) table =
    perform_all operations (perform operation now table)
