-- ===== src/Container/Stream/Reader/Order.antt =====
-- What every consumer of a pass sees (`_resolved`, dbs/container/stream.py): the blocks from 0 on,
-- each once and in order, up to the last one.
use mathlib.Core.Path.{subst}
use dbs.Prelude.{
  Bool, Bool-cases, List, Option, Option-cases, [], arith, if◌then◌else◌, inl, inr, length, none,
  refl, some, suc, zero, ℕ, ◌+◌, ◌-◌, ◌<◌, ◌∷◌, ◌≡◌, ◌≤◌,
}
use dbs.Container.Stream.Reader.{Block, Checks, Reader, StreamRepairReport, clean, repair}
use dbs.Container.Stream.Reader.Pass.{
  Consumer, Progress, Resolving, advance, contains, deliver, fail_block, first_slot, give_up,
  nothing_resolved, resolve_rounds, resolved, second_slot, settle, slots,
}
use dbs.Container.Stream.Schedule.{All, IsPlaced, Placed, schedule, schedule-IsPlaced}
use dbs.Dict.{KeysBelow, erase, erase-KeysBelow, find, find-KeysBelow, insert-KeysBelow}
use dbs.Result.{Ensures, bind-Ensures}

-- Between two slots: the next index is within range, and so is every block that is ready.
abbrev InRange : ℕ → Resolving → Type 0
InRange blocks res = (res.next_index ≤ blocks) × KeysBelow blocks res.ready

-- `E` is what is known when a pass is ended by an error, `Inv n` what holds when the first `n`
-- blocks have been yielded.
module _ (E : Type 0) (c : Checks) (r : Reader)
    (fixable : (index : ℕ) (first second : Option (List ℕ)) (report : StreamRepairReport)
      → Ensures E (λ found. Unit) (repair c r index first second report))
    (consume : Consumer) (Inv : ℕ → Progress → Type 0)
    (forgets : (n : ℕ) (p : Progress) (report : StreamRepairReport)
      → Inv n p
      → Inv n (record p { report = report }))
    (keeps : (index : ℕ) (block : Option Block) (p : Progress)
      → Inv index p
      → Ensures E (Inv (index + 1)) (deliver consume index block p)) where
  Settled : Resolving → Resolving × StreamRepairReport → Type 0
  Settled res (res', report) = InRange r.blocks res' × (res'.next_index ≡ res.next_index)

  first_slot-InRange :
      (check_spares : Bool) (index : ℕ) (complete : Bool) (raw : List ℕ) (res : Resolving)
      (report : StreamRepairReport)
      → index < r.blocks
      → InRange r.blocks res
      → Ensures E (Settled res) (first_slot c r check_spares index complete raw res report)
  unfolding first_slot Settled
  first_slot-InRange check_spares index complete raw res report l (n, k) =
      elim (Option-cases (if complete then clean c r raw index else none)) [
        | inl bad ↦ rw (bad, first_slot) ((n, k), refl)
        | inr (block, good) ↦
            rw (good, first_slot)
              ((n, insert-KeysBelow r.blocks index (some block) res.ready l k), refl)
      ]

  second_slot-InRange :
      (check_spares : Bool) (index : ℕ) (complete : Bool) (raw : List ℕ) (res : Resolving)
      (report : StreamRepairReport)
      → index < r.blocks
      → InRange r.blocks res
      → Ensures E (Settled res) (second_slot c r check_spares index complete raw res report)
  unfolding second_slot Settled
  second_slot-InRange check_spares index complete raw res report l (n, k) =
      elim (Option-cases (find index res.waiting)) [
        | inl clean_copy ↦ rw (clean_copy, second_slot) ((n, k), refl)
        | inr (first, waits) ↦
            rw (waits, second_slot)
              (bind-Ensures E (λ found. Unit) (Settled res)
                (repair c r index first (if complete then some raw else none) report) _
                (fixable index first (if complete then some raw else none) report)
                (λ (block, repaired) u.
                  ((n, insert-KeysBelow r.blocks index block res.ready l k), refl)))
      ]

  settle-InRange :
      (check_spares : Bool) (e : Placed) (raw : List ℕ) (res : Resolving)
      (report : StreamRepairReport)
      → e.index < r.blocks
      → InRange r.blocks res
      → Ensures E (Settled res) (settle c r check_spares e raw res report)
  unfolding settle
  settle-InRange check_spares e raw res report l h = elim (Bool-cases e.first) [
    | inl first ↦ rw first (first_slot-InRange check_spares e.index _ raw res _ l h)
    | inr second ↦ rw second (second_slot-InRange check_spares e.index _ raw res _ l h)
  ]

  Advanced : Resolving × Progress → Type 0
  Advanced (res, p) = InRange r.blocks res × Inv res.next_index p

  advance-Inv :
      (fuel : ℕ) (res : Resolving) (p : Progress)
      → InRange r.blocks res
      → Inv res.next_index p
      → Ensures E Advanced (advance consume fuel res p)
  unfolding advance Advanced
  advance-Inv zero res p h i = (h, i)
  advance-Inv (suc fuel) res p (n, k) i = elim (Option-cases (find res.next_index res.ready)) [
    | inl absent ↦ rw (absent, advance) ((n, k), i)
    | inr (block, present) ↦
        rw (present, advance)
          (bind-Ensures E (Inv (res.next_index + 1)) Advanced
            (deliver consume res.next_index block p) _ (keeps res.next_index block p i)
            (λ p' i'.
              advance-Inv fuel
                (record res {
                  ready = erase res.next_index res.ready;
                  next_index = res.next_index + 1;
                })
                p'
                (
                  (let below = find-KeysBelow r.blocks res.next_index res.ready k present in
                      omega (arith, below)),
                  erase-KeysBelow r.blocks res.next_index res.ready k,
                )
                i'))
  ]

  resolve_rounds-Inv :
      (check_spares : Bool) (entries : List Placed) (raws : List (List ℕ)) (res : Resolving)
      (p : Progress)
      → All (IsPlaced r.blocks r.layout.interleave) entries
      → InRange r.blocks res
      → Inv res.next_index p
      → Ensures E Advanced (resolve_rounds c r check_spares consume entries raws res p)
  unfolding resolve_rounds Advanced Settled
  resolve_rounds-Inv check_spares [] raws res p placed h i = (h, i)
  resolve_rounds-Inv check_spares (e ∷ entries) [] res p placed h i = (h, i)
  resolve_rounds-Inv check_spares (e ∷ entries) (raw ∷ raws) res p placed h i =
      bind-Ensures E (Settled res) Advanced (settle c r check_spares e raw res p.report) _
        (settle-InRange check_spares e raw res p.report placed.0.0 h)
        (λ (settled, report) s.
          bind-Ensures E Advanced Advanced
            (advance consume (length settled.ready) settled (record p { report = report })) _
            (advance-Inv (length settled.ready) settled (record p { report = report }) s.0
              (forgets settled.next_index p report (rw s.1 i)))
            (λ (res', p') a. resolve_rounds-Inv check_spares entries raws res' p' placed.1 a.0 a.1))

  give_up-Inv :
      (n index : ℕ) (p : Progress)
      → Inv index p
      → Ensures E (Inv (index + n)) (give_up consume n index p)
  unfolding give_up
  give_up-Inv zero index p i = let z : index + 0 ≡ index = omega arith in rw z i
  give_up-Inv (suc n) index p i =
      let z : index + suc n ≡ index + 1 + n = omega arith in
      let report =
        if contains index p.report.failed_blocks then p.report else fail_block index p.report in
      rw z (
        bind-Ensures E (Inv (index + 1)) (Inv (index + 1 + n))
          (deliver consume index none (record p { report = report })) _
          (keeps index none (record p { report = report }) (forgets index p report i))
          (λ p' i'. give_up-Inv n (index + 1) p' i'))

  -- Whatever the slots hold, a pass that starts with `Inv 0` ends with `Inv` of the number of
  -- blocks.
  pub resolved-Inv :
      (check_spares : Bool) (p : Progress)
      → Inv 0 p
      → Ensures E (Inv r.blocks) (resolved c r check_spares consume p)
  unfolding resolved Advanced
  resolved-Inv check_spares p i =
      bind-Ensures E Advanced (Inv r.blocks)
        (resolve_rounds c r check_spares consume (schedule r.blocks r.layout.interleave) (slots r)
          nothing_resolved p)
        _
        (resolve_rounds-Inv check_spares (schedule r.blocks r.layout.interleave) (slots r)
          nothing_resolved p (schedule-IsPlaced r.blocks r.layout.interleave) ((omega arith, tt)) i)
        (λ (res, p') a.
          let z : res.next_index + (r.blocks - res.next_index) ≡ r.blocks = omega (arith, a.0.0) in
          subst
            (λ n. Ensures E (Inv n) (give_up consume (r.blocks - res.next_index) res.next_index p'))
            z (give_up-Inv (r.blocks - res.next_index) res.next_index p' a.1))
