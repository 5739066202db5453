-- ===== src/Container/Stream/Reader/Total.antt =====
-- The repair of a block and `verify` raise nothing under a usable layout (dbs/container/stream.py).
use dbs.Prelude.{
  Bool, List, Option, Option-cases, [], ap, arith, inl, inr, length, map, none, not, refl, some,
  suc, take, true, zero, ℕ, ◌&&◌, ◌++◌, ◌+◌, ◌∷◌, ◌≡◌,
}
use dbs.Container.Rs.Decode.{Codec, split}
use dbs.Container.Rs.Encode.{encode-codewords_of}
use dbs.Container.Rs.Parity.{parity-row_parity}
use dbs.Container.Rs.Repair.{Repaired, masks_of, repair_from_copies, same_length, unrepaired}
use dbs.Container.Rs.Sizes.{IsNsym, is_well_formed}
use dbs.Container.Stream.Layout.{encoded_size}
use dbs.Container.Stream.Reader.{
  Block, Checks, Reader, StreamRepairReport, clean, copies_of, rebuild, repair, chunk_len_of,
  is_last,
}
use dbs.Container.Stream.Reader.Order.{resolved-Inv}
use dbs.Container.Stream.Reader.Pass.{
  Progress, check_chunk, deliver, ciphertext_of, final_check, resolved, run_pass, verify, start_of,
}
use dbs.Result.{Result, ◌>>=◌, ok, Ensures, bind-Ensures, if-Ensures, ok, Ensures-never}

-- 0, 1 and so on, up to n - 1
abbrev pub upto : ℕ → List ℕ
upto zero = []
upto (suc n) = upto n ++ n ∷ []

yielded-upto :
    (index : ℕ) (p : Progress) → p.yielded ≡ upto index → p.yielded ++ index ∷ [] ≡ upto (index + 1)
yielded-upto index p i =
    let z : index + 1 ≡ suc index = omega arith in rw z (ap (λ xs. xs ++ index ∷ []) i)

masks_of-Returns :
    (copies : List (List ℕ)) (nsym : ℕ)
    → IsNsym nsym
    → Ensures ⊥ (λ masks. Unit {0}) (masks_of copies nsym)
unfolding masks_of
masks_of-Returns [] nsym h = tt
masks_of-Returns (copy ∷ copies) nsym h = rw (parity-row_parity (split copy nsym).0 nsym h) (
    bind-Ensures ⊥ (λ masks. Unit {0}) (λ masks. Unit {0}) (masks_of copies nsym) _
      (masks_of-Returns copies nsym h) (λ masks u. tt))

repair_from_copies-Returns :
    (codec : Codec) (copies : List (List ℕ)) (nsym : ℕ)
    → IsNsym nsym
    → Ensures ⊥ (λ repaired. Unit {0}) (repair_from_copies codec copies nsym)
unfolding repair_from_copies
repair_from_copies-Returns codec [] nsym h = tt
repair_from_copies-Returns codec (first ∷ others) nsym h =
    if-Ensures {A = Repaired} ⊥ (λ repaired. Unit {0})
      (same_length (length first) (first ∷ others) && is_well_formed (length first) nsym) _
      (ok unrepaired)
      (bind-Ensures ⊥ (λ masks. Unit {0}) (λ repaired. Unit {0}) (masks_of (first ∷ others) nsym) _
        (masks_of-Returns (first ∷ others) nsym h) (λ masks u. tt))
      tt

module _ (c : Checks) (r : Reader) (h : IsNsym r.layout.nsym) where
  rebuild-Returns :
      (index : ℕ) (copies : List (Bool × List ℕ)) (report : StreamRepairReport)
      → Ensures ⊥ (λ found. Unit {0}) (rebuild c r index copies report)
  unfolding rebuild
  rebuild-Returns index [] report = tt
  rebuild-Returns index (copy ∷ copies) report =
      bind-Ensures ⊥ (λ repaired. Unit {0}) (λ found. Unit {0})
        (repair_from_copies c.codec
          (map (take (encoded_size r.layout)) (map (λ labelled. labelled.1) (copy ∷ copies)))
          r.layout.nsym)
        _ (repair_from_copies-Returns c.codec _ r.layout.nsym h)
        (λ repaired u. elim (Option-cases repaired.block) [
          | inl absent ↦ rw (absent, rebuild) tt
          | inr (block, found) ↦ elim (Option-cases (chunk_len_of r block index)) [
            | inl unfit ↦ rw (found, unfit, rebuild) tt
            | inr (chunk_len, fit) ↦
                rw (found, fit, rebuild, encode-codewords_of block r.layout.nsym h) tt
          ]
        ])

  repair-Returns :
      (index : ℕ) (first second : Option (List ℕ)) (report : StreamRepairReport)
      → Ensures ⊥ (λ found. Unit {0}) (repair c r index first second report)
  unfolding repair
  repair-Returns index first none report = rebuild-Returns index (copies_of first none) report
  repair-Returns index first (some second) report = elim (Option-cases (clean c r second index)) [
    | inl bad ↦ rw (bad, repair) (rebuild-Returns index (copies_of first (some second)) report)
    | inr (block, good) ↦ rw (good, repair) tt
  ]

  check_chunk-Yielded :
      (index : ℕ) (block : Option Block) (p : Progress)
      → p.yielded ≡ upto index
      → Ensures ⊥ (λ p'. p'.yielded ≡ upto (index + 1)) (deliver (check_chunk c r) index block p)
  unfolding deliver check_chunk
  check_chunk-Yielded index none p i = yielded-upto index p i
  check_chunk-Yielded index (some block) p i =
      if-Ensures {A = Progress} ⊥ (λ p'. p'.yielded ≡ upto (index + 1)) (not r.keyed) _ _
        (yielded-upto index p i)
        (elim (Option-cases (c.decrypt index (ciphertext_of c r block) (is_last r index))) [
          | inl refused ↦ rw (refused, check_chunk) (yielded-upto index p i)
          | inr (piece, opened) ↦ rw (opened, check_chunk) (yielded-upto index p i)
        ])

-- `verify` returns a report whatever the container holds, when the layout has a parity length that
-- the Reed-Solomon layer accepts; its pass looks at each block once, in the order of their numbers.
pub verify-upto :
    (c : Checks) (r : Reader)
    → IsNsym r.layout.nsym
    → (p : Progress) × (run_pass c r true (check_chunk c r) ≡ ok p)
      × (verify c r ≡ ok p.report)
      × (p.yielded ≡ upto r.blocks)
unfolding verify run_pass
verify-upto c r h =
    let (p, e, y) =
      Ensures-never (λ p. p.yielded ≡ upto r.blocks)
        (resolved c r true (check_chunk c r) (start_of r))
        (resolved-Inv ⊥ c r (repair-Returns c r h) (check_chunk c r) (λ n p. p.yielded ≡ upto n)
          (λ n p report i. i) (check_chunk-Yielded c r h) true (start_of r) refl) in
    (
      record p { report = final_check c r p },
      ap (λ m. m >>= check_end) e,
      ap (λ m. (m >>= check_end) >>= λ q. ok q.report) e,
      y,
    )
  where
    check_end : Progress → Result Progress
    check_end q = ok (record q { report = final_check c r q })
