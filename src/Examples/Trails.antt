-- ===== src/Examples/Trails.antt =====
-- Concrete runs of the audit trail, of the jobs and of the scheduled backups.
use dbs.Prelude.{
  take, drop, Bool, List, [], false, length, length-replicate, min, none, or_else, refl, replicate,
  some, true, ℕ, ◌++◌, ◌+◌, ◌-◌, ◌∷◌, ◌≡◌, ◌⊎◌,
}
use dbs.Audit.{AuditEvent, Body, Status, Trail, seal_pending, sealed_events, verify_chain}
use dbs.Audit.Binding.{Collision, hashed, texts_of, verify_chain-binding}
use dbs.Audit.Lifecycle.{empty_trail, empty_trail-IsSound, perform_all-Extends, perform_all-intact}
use dbs.Audit.Operations.{
  Entry, Operation, perform_all, queue, finishing, interrupting, queueing, recording, sealing,
}
use dbs.Audit.Sealing.Whole.{IsSound, pks_of, waiting, seal_pending-verify_chain}
use dbs.Text.{Text, text_eq}

-- 64 characters that depend on the length alone, and a text for each status and index
abbrev hash : Text → Text
hash t = replicate 64 (length t)

abbrev dumped : Body → Text
dumped body = or_else body.chain_index 0 ∷ body.target_name

abbrev backup_entry : Entry
backup_entry = record {
  actor = some (record { is_authenticated = true; pk = some 7 });
  action = 1 ∷ [];
  target = 2 ∷ 3 ∷ [];
  detail = [];
  data_value = 4 ∷ [];
  status = Status.running;
  error_code = [];
  remote_addr = [];
  subject = [];
  started_at = none;
  finished_at = none;
}

abbrev prune_entry : Entry
prune_entry = record backup_entry { action = 5 ∷ []; status = Status.succeeded }

-- A backup begins and a prune is recorded while the trail cannot be sealed; the backup finishes.
abbrev first_calls : List (ℕ × Bool × Operation)
first_calls =
    (10, true, recording backup_entry)
    ∷ (20, false, recording prune_entry)
    ∷ (30, true, finishing 1 none)
    ∷ []

abbrev more_calls : List (ℕ × Bool × Operation)
more_calls =
    (40, true, queueing backup_entry)
    ∷ (50, true, interrupting (some 45) [] none)
    ∷ (60, true, sealing 10)
    ∷ []

perform_all-intact_example :
    ((verify_chain hash dumped (
        perform_all hash dumped more_calls
          (perform_all hash dumped first_calls (empty_trail hash dumped)))).broken_at
      ≡ none)
    × ((more : List AuditEvent) × (sealed_events
            (perform_all hash dumped more_calls
              (perform_all hash dumped first_calls (empty_trail hash dumped))).rows
          ≡ sealed_events (perform_all hash dumped first_calls (empty_trail hash dumped)).rows
            ++ more))
perform_all-intact_example = perform_all-intact hash dumped first_calls more_calls

-- Two events that wait to be sealed.
abbrev unsealed_calls : List (ℕ × Bool × Operation)
unsealed_calls =
    (10, false, recording prune_entry)
    ∷ (20, true, recording backup_entry)
    ∷ (30, false, recording prune_entry)
    ∷ []

abbrev unsealed_trail : Trail
unsealed_trail = perform_all hash dumped unsealed_calls (empty_trail hash dumped)

unsealed_trail-IsSound : IsSound hash dumped unsealed_trail
unsealed_trail-IsSound =
    (perform_all-Extends hash dumped unsealed_calls (empty_trail hash dumped)
      (empty_trail-IsSound hash dumped)).0

seal_pending-verify_chain_example :
    ((new : List AuditEvent) × (sealed_events (seal_pending hash dumped 1 unsealed_trail).0.rows
        ≡ sealed_events unsealed_trail.rows ++ new)
      × (pks_of new ≡ take 1 (waiting unsealed_trail.rows)))
    × (waiting (seal_pending hash dumped 1 unsealed_trail).0.rows
        ≡ drop 1 (waiting unsealed_trail.rows))
    × ((verify_chain hash dumped (seal_pending hash dumped 1 unsealed_trail).0).broken_at ≡ none)
    × ((seal_pending hash dumped 1 unsealed_trail).1
        ≡ min 1 (verify_chain hash dumped unsealed_trail).unsealed)
    × ((verify_chain hash dumped (seal_pending hash dumped 1 unsealed_trail).0).checked
        ≡ (verify_chain hash dumped unsealed_trail).checked
          + (seal_pending hash dumped 1 unsealed_trail).1)
    × ((verify_chain hash dumped (seal_pending hash dumped 1 unsealed_trail).0).unsealed
        ≡ (verify_chain hash dumped unsealed_trail).unsealed
          - (seal_pending hash dumped 1 unsealed_trail).1)
seal_pending-verify_chain_example =
    seal_pending-verify_chain hash dumped 1 unsealed_trail unsealed_trail-IsSound

-- The trail without the queued event, and with it.
abbrev sealed_trail : Trail
sealed_trail = (seal_pending hash dumped 10 unsealed_trail).0

abbrev longer_trail : Trail
longer_trail = queue hash dumped backup_entry 70 sealed_trail

sealed_trail_check : (verify_chain hash dumped sealed_trail).broken_at ≡ none
sealed_trail_check =
    (seal_pending-verify_chain hash dumped 10 unsealed_trail unsealed_trail-IsSound).2

same_checked :
    (verify_chain hash dumped sealed_trail).checked
    ≡ (verify_chain hash dumped longer_trail).checked
unfolding verify_chain perform_all seal_pending queue text_eq
same_checked = refl

same_head :
    (verify_chain hash dumped sealed_trail).head ≡ (verify_chain hash dumped longer_trail).head
unfolding verify_chain perform_all seal_pending queue text_eq
same_head = refl

longer_trail_check : (verify_chain hash dumped longer_trail).broken_at ≡ none
unfolding verify_chain perform_all seal_pending queue text_eq
longer_trail_check = refl

verify_chain-binding_example :
    (texts_of hash dumped (sealed_events sealed_trail.rows)
      ≡ texts_of hash dumped (sealed_events longer_trail.rows))
    ⊎ Collision hash
        (hashed hash dumped [] (sealed_events sealed_trail.rows))
        (hashed hash dumped [] (sealed_events longer_trail.rows))
verify_chain-binding_example =
    verify_chain-binding hash dumped sealed_trail longer_trail (λ t. length-replicate 64 (length t))
      sealed_trail_check longer_trail_check same_checked same_head
