-- ===== src/Examples/Programs.antt =====
-- Concrete runs of the leases, the retention, the nonces and the shell's buffer.
use mathlib.Core.List.{reverse}
use dbs.Prelude.{
  Bool, List, [], arith, drop, false, inr, length, min, inl, refl, replicate, some, none, ◌≢◌, ◌==◌,
  if◌then◌else◌, take, true, ℕ, ◌*◌, ◌++◌, ◌+◌, ◌↔◌, ◌∷◌, ◌≡◌, ◌≤◌, ◌⊎◌,
}
use dbs.Bytes.{to_bytes}
use dbs.Crypto.{chunk_nonce, chunk_nonce-injective}
use dbs.Crypto.Limits.{IsAffordable, KdfParams, validate_untrusted, validate_untrusted-IsAffordable}
use dbs.Leases.{
  Lease, Operation, Table, acquire, acquiring, ensure, holder, perform_all, put, releasing, row_of,
  update,
}
use dbs.Leases.Exclusive.{acquire-exclusive}
use dbs.OutputBuffer.{
  OutputBuffer, added, append, end_of, new_buffer, read_chunk, read_max, acknowledge, read, trim,
}
use dbs.OutputBuffer.Lossless.{begins, appends, Reachable, read-Reachable}
use dbs.Result.{ok}
use dbs.Retention.{
  StoredBackup, kept_names, stale_from, first_passed, insert_newest, names_of, newest_first,
  not_older, passed, stale_beyond_limit, stale_stored_backups, truthy, unknown, without,
}
use dbs.Retention.Kept.{Keeps, stale_stored_backups-Keeps}
use dbs.Retention.Limit.{AllIn, stale_beyond_limit-IsEnough, stale_beyond_limit-Keeps}
use dbs.Tee.{Folder, Linking, install_backup, max_ordinal, new_tee, put_file, unsupported}
use dbs.Tee.Kept.{AllTaken, install_backup-first, tee_writes, tee_writes-new_tee}
use dbs.Text.{Text, elem, text_eq, text_leb}

abbrev table_after : Table
table_after = (acquire (1 ∷ []) (2 ∷ []) 60 1000 []).0

acquired : (acquire (1 ∷ []) (2 ∷ []) 60 1000 []).1 ≡ true
unfolding acquire ensure update row_of put text_eq
acquired = refl

-- Another process tries to release and to acquire the lease in vain.
abbrev tries : List (ℕ × Operation)
tries = (1010, releasing (1 ∷ []) (3 ∷ [])) ∷ (1020, acquiring (1 ∷ []) (3 ∷ []) 60) ∷ []

differs : text_eq (2 ∷ []) (3 ∷ []) ≡ false
unfolding text_eq
differs = refl

nonempty : text_eq (2 ∷ []) [] ≡ false
unfolding text_eq
nonempty = refl

acquire-exclusive_example :
    ((lease : Lease) × (holder (1 ∷ []) 1059 (perform_all tries table_after) ≡ some lease)
      × (lease.owner ≡ 2 ∷ []))
    × ((acquire (1 ∷ []) (3 ∷ []) 60 1059 (perform_all tries table_after)).1 ≡ false)
acquire-exclusive_example =
    acquire-exclusive (1 ∷ []) (2 ∷ []) (3 ∷ []) 60 60 1000 1059 [] tries nonempty differs acquired
      (omega arith, differs, (omega arith, differs, tt)) (omega arith)

abbrev old_backup : StoredBackup
old_backup = record { name = 1 ∷ []; moment = 10; verification = passed }

abbrev new_backup : StoredBackup
new_backup = record { name = 2 ∷ []; moment = 20; verification = unknown }

abbrev first_backup : StoredBackup
first_backup = record { name = 3 ∷ []; moment = 5; verification = passed }

-- Two backups passed and the newest one is not verified: it fills the run's single place, and the
-- newer one of the two that passed is kept beside it.
stale_stored_backups-Keeps_example :
    (stale : List Text) × (stale_stored_backups (first_backup ∷ old_backup ∷ new_backup ∷ []) 1
      ≡ ok stale)
    × Keeps (1 ∷ []) stale
unfolding text_leb
stale_stored_backups-Keeps_example =
    stale_stored_backups-Keeps (first_backup ∷ old_backup ∷ new_backup ∷ []) 1 old_backup
      (omega arith) (inr (inl refl)) (inr (refl, omega arith))

oldest_removed :
    stale_stored_backups (first_backup ∷ old_backup ∷ new_backup ∷ []) 1 ≡ ok ((3 ∷ []) ∷ [])
unfolding stale_stored_backups stale_from kept_names elem text_eq newest_first not_older
oldest_removed = refl

safe_old :
    elem (1 ∷ []) ([] ++ truthy (first_passed (newest_first (old_backup ∷ new_backup ∷ [])))) ≡ true
unfolding elem text_eq first_passed newest_first insert_newest not_older
safe_old = refl

stale_beyond_limit-Keeps_example :
    (stale : List Text) × (stale_beyond_limit (old_backup ∷ new_backup ∷ []) 1 [] ≡ ok stale)
    × Keeps (1 ∷ []) stale
stale_beyond_limit-Keeps_example =
    stale_beyond_limit-Keeps (old_backup ∷ new_backup ∷ []) 1 [] (1 ∷ []) (omega arith) safe_old

stale_beyond_limit-IsEnough_example :
    (stale : List Text) × (stale_beyond_limit (old_backup ∷ new_backup ∷ []) 1 [] ≡ ok stale)
    × (let left =
          without (reverse (names_of (newest_first (old_backup ∷ new_backup ∷ [])))) stale in
        (length left ≤ 1)
        ⊎ AllIn ([] ++ truthy (first_passed (newest_first (old_backup ∷ new_backup ∷ [])))) left)
stale_beyond_limit-IsEnough_example =
    stale_beyond_limit-IsEnough (old_backup ∷ new_backup ∷ []) 1 [] (omega arith)

abbrev one_nonce : List ℕ
one_nonce = replicate 7 9 ++ (0 ∷ 0 ∷ 0 ∷ 5 ∷ 1 ∷ [])

nonce_5 : chunk_nonce (replicate 7 9) 5 true ≡ ok one_nonce
unfolding chunk_nonce to_bytes
nonce_5 = refl

chunk_nonce-injective_example : (◌≡◌ {A = ℕ} 5 5) × (◌≡◌ {A = Bool} true true)
chunk_nonce-injective_example =
    chunk_nonce-injective (replicate 7 9) 5 5 true true one_nonce nonce_5 nonce_5

abbrev default_params : KdfParams
default_params = record { time_cost = 3; memory_cost = 64 * 1024; parallelism = 4; key_length = 32 }

validate_untrusted-IsAffordable_example :
    (validate_untrusted default_params ≡ ok tt) ↔ IsAffordable default_params
validate_untrusted-IsAffordable_example = validate_untrusted-IsAffordable default_params

abbrev filled : OutputBuffer
filled = record (new_buffer 8) { data_bytes = 1 ∷ 2 ∷ [] }

fills : append (1 ∷ 2 ∷ []) (new_buffer 8) ≡ added filled
unfolding append end_of new_buffer
fills = refl

intact : (read 1 filled).3 ≡ false
unfolding read read_chunk new_buffer acknowledge end_of trim
intact = refl

read-Reachable_example :
    let (after, chunk, next, dropped) = read 1 filled in
    Reachable 8 (1 ∷ 2 ∷ []) after
    × (chunk ≡ take read_max (drop (min 1 2) (1 ∷ 2 ∷ [])))
    × (next ≡ min 1 2 + length chunk)
read-Reachable_example =
    read-Reachable 8 (1 ∷ 2 ∷ []) filled 1 (appends (1 ∷ 2 ∷ []) begins fills) intact

tee_writes-new_tee_example :
    let t = tee_writes ((false, 1 ∷ []) ∷ (true, 2 ∷ []) ∷ (false, 3 ∷ []) ∷ []) (new_tee true) in
    (t.file ≡ 1 ∷ 2 ∷ 3 ∷ []) × (t.size ≡ 3) × (t.streamed ≡ 1 ∷ [])
tee_writes-new_tee_example =
    tee_writes-new_tee ((false, 1 ∷ []) ∷ (true, 2 ∷ []) ∷ (false, 3 ∷ []) ∷ [])

-- The first name is taken; the folder's file system has no hard links, and another process makes a
-- file under the second name.
abbrev one_backup : Folder
one_backup k = if k == 1 then some (5 ∷ []) else none

abbrev no_links : ℕ → Linking
no_links ordinal = unsupported (some (6 ∷ []))

abbrev two_backups : Folder
two_backups k = put_file 2 (some (9 ∷ [])) (put_file 2 (some (6 ∷ [])) one_backup) k

second_name : install_backup no_links (9 ∷ []) one_backup ≡ ok (2, two_backups)
unfolding install_backup
second_name = refl

install_backup-first_example :
    (1 ≤ 2)
    × (2 ≤ max_ordinal)
    × (one_backup 2 ≡ none)
    × AllTaken one_backup 1 2
    × (two_backups 2 ≡ some (9 ∷ []))
    × ((k : ℕ) → k ≢ 2 → two_backups k ≡ one_backup k)
install_backup-first_example =
    install_backup-first no_links (9 ∷ []) one_backup two_backups 2 second_name
