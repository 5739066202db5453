-- ===== src/Container/Stream/Reader/Read.antt =====
-- What `chunks` and `verify` give (dbs/container/stream.py).
use mathlib.Core.List.{flatten}
use dbs.Prelude.{
  Bool, Bool-cases, List, Option, Option-cases, [], ap, append-nil, append_assoc, arith, inl, inr,
  length, length-append, none, not, refl, some, suc, sym, true, ℕ, ◌++◌, ◌+◌, ◌∙◌, ◌∷◌, ◌≡◌,
}
use dbs.Container.Stream.Reader.{Block, Checks, Reader, is_last, StreamRepairReport, is_ok, repair}
use dbs.Container.Stream.Reader.Order.{resolved-Inv}
use dbs.Container.Stream.Reader.Pass.{
  Progress, ciphertext_of, deliver, take_chunk, chunks, resolved, run_pass, start_of,
}
use dbs.Result.{
  Ensures, Ensures-ok, Ensures-trivial, ok, bind-Ensures, container_error, err, if-Ensures,
}

-- Each piece is what the cipher opens some ciphertext to under its own number, and under the flag
-- that marks the last one.
abbrev pub AllOpened : Checks → Reader → ℕ → List (List ℕ) → Type 0
AllOpened c r index [] = Unit
AllOpened c r index (piece ∷ pieces) =
    ((ciphertext : List ℕ) × (c.decrypt index ciphertext (is_last r index) ≡ some piece))
    × AllOpened c r (index + 1) pieces

AllOpened-append :
    (c : Checks) (r : Reader) (index : ℕ) (pieces : List (List ℕ)) (piece : List ℕ)
    → AllOpened c r index pieces
    → AllOpened c r (index + length pieces) (piece ∷ [])
    → AllOpened c r index (pieces ++ piece ∷ [])
AllOpened-append c r index [] piece h k = let z : index + 0 ≡ index = omega arith in rw z at k
AllOpened-append c r index (q ∷ pieces) piece h k =
    let z : index + suc (length pieces) ≡ index + 1 + length pieces = omega arith in
    (h.0, AllOpened-append c r (index + 1) pieces piece h.1 (rw z at k))

abbrev pub Opened : Checks → Reader → ℕ → Progress → Type 0
Opened c r n p =
    (pieces : List (List ℕ)) × (length pieces ≡ n)
    × (p.plaintext ≡ flatten pieces)
    × AllOpened c r 0 pieces

flatten-append_one :
    (pieces : List (List ℕ)) (piece : List ℕ)
    → flatten (pieces ++ piece ∷ []) ≡ flatten pieces ++ piece
unfolding flatten
flatten-append_one [] piece = append-nil piece
flatten-append_one (q ∷ pieces) piece = rw (flatten-append_one pieces piece, append_assoc) refl

take_chunk-Opened :
    (c : Checks) (r : Reader) (index : ℕ) (block : Option Block) (p : Progress)
    → Opened c r index p
    → Ensures (Unit {0}) (Opened c r (index + 1)) (deliver (take_chunk c r) index block p)
unfolding deliver take_chunk
take_chunk-Opened c r index none p i = tt
take_chunk-Opened c r index (some block) p (pieces, l, e, a) =
    elim (Option-cases (c.decrypt index (ciphertext_of c r block) (is_last r index))) [
      | inl refused ↦ rw (refused, take_chunk) tt
      | inr (piece, opened) ↦
          rw (opened, take_chunk)
            (
              pieces ++ piece ∷ [],
              length-append pieces (piece ∷ []) ∙ ap (λ k. k + 1) l,
              ap (λ text. text ++ piece) e ∙ sym (flatten-append_one pieces piece),
              AllOpened-append c r 0 pieces piece a (
                (
                  ciphertext_of c r block,
                  (let z : 0 + length pieces ≡ index = omega (arith, l) in rw z opened),
                ),
                tt,
              ),
            )
    ]

resolved-Opened :
    (c : Checks) (r : Reader) (check_spares : Bool)
    → Ensures
        (Unit {0})
        (Opened c r r.blocks)
        (resolved c r check_spares (take_chunk c r) (start_of r))
unfolding flatten
resolved-Opened c r check_spares =
    resolved-Inv (Unit {0}) c r
      (λ index first second report. Ensures-trivial (repair c r index first second report))
      (take_chunk c r) (Opened c r) (λ n p report i. i) (take_chunk-Opened c r) check_spares
      (start_of r) ([], refl, refl, tt)

-- The pieces of what `chunks` returns, and its report.
abbrev pub AllRead : Checks → Reader → List ℕ × StreamRepairReport → Type 0
AllRead c r (plaintext, report) =
    ((pieces : List (List ℕ)) × (length pieces ≡ r.blocks)
      × (plaintext ≡ flatten pieces)
      × AllOpened c r 0 pieces)
    × (is_ok report ≡ true)

chunks-AllRead :
    (c : Checks) (r : Reader) (check_spares : Bool)
    → Ensures (Unit {0}) (AllRead c r) (chunks c r check_spares)
unfolding chunks run_pass
chunks-AllRead c r check_spares =
    if-Ensures (Unit {0}) (AllRead c r) (not r.keyed) (err container_error) _ tt (
      bind-Ensures (Unit {0}) (Opened c r r.blocks) (AllRead c r)
        (run_pass c r check_spares (take_chunk c r)) _
        (bind-Ensures (Unit {0}) (Opened c r r.blocks) (Opened c r r.blocks)
          (resolved c r check_spares (take_chunk c r) (start_of r)) _
          (resolved-Opened c r check_spares) (λ p i. i))
        (λ p i. elim (Bool-cases (is_ok p.report)) [
          | inl fine ↦ rw fine (i, fine)
          | inr bad ↦ rw bad tt
        ]))

-- What `chunks` returns is, in order, what the cipher opens one ciphertext for each block to, under
-- the number of the block and with only the last one marked as such; and no block failed, nor did
-- the final check find a problem.
pub chunks-AllOpened :
    (c : Checks) (r : Reader) (check_spares : Bool) (plaintext : List ℕ)
    (report : StreamRepairReport)
    → chunks c r check_spares ≡ ok (plaintext, report)
    → ((pieces : List (List ℕ)) × (length pieces ≡ r.blocks)
        × (plaintext ≡ flatten pieces)
        × AllOpened c r 0 pieces)
      × (is_ok report ≡ true)
chunks-AllOpened c r check_spares plaintext report e =
    Ensures-ok (Unit {0}) (AllRead c r) (chunks c r check_spares) (chunks-AllRead c r check_spares)
      e
