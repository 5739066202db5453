-- ===== src/Container/Format/Tail.antt =====
-- The search for a header at the end of a file (dbs/container/format.py).
use dbs.Prelude.{
  Bool-cases, List, Option, Option-cases, ap, arith, drop, false, inl, inr, length, none, refl,
  slice, some, suc, true, zero, ℕ, ◌+◌, ◌-◌, ◌<◌, ◌==◌, ◌≡◌, ◌≤◌,
}
use dbs.Container.Format.{
  sealed, FormatChecks, last_magic, magic, rfind_magic, tail_rounds, VerifiedHeader,
  open_sealed_header, sealed_checksum_size, sealed_prefix_size,
}
use dbs.Container.Rs.Decode.{equal_rows}

last_magic-lt :
    (n : ℕ) (tail : List ℕ) {position : ℕ} → last_magic n tail ≡ some position → position < n
unfolding last_magic
last_magic-lt zero tail e = cc
last_magic-lt (suc n) tail e = elim (Bool-cases (equal_rows (slice n (n + 8) tail) magic)) [
  | inl here ↦ let p = rw here at e in ground (arith, p)
  | inr there ↦ let p = rw there at e in let l = last_magic-lt n tail p in omega (arith, l)
]

-- Fuel beyond the number of positions makes no difference to the search.
tail_rounds_enough :
    (c : FormatChecks) (source : List ℕ) (fuel start : ℕ) (tail : List ℕ) (stop : ℕ)
    → stop ≤ fuel
    → tail_rounds c source (suc fuel) start tail stop ≡ tail_rounds c source fuel start tail stop
unfolding tail_rounds rfind_magic last_magic
tail_rounds_enough c source zero start tail stop h = let z : stop ≡ 0 = omega arith in rw z refl
tail_rounds_enough c source (suc fuel) start tail stop h =
    elim (Option-cases (rfind_magic stop tail)) [
      | inl absent ↦ rw (absent, tail_rounds) refl
      | inr (position, found) ↦
          let l : position < stop - 7 = last_magic-lt (stop - 7) tail found in
          let ih = tail_rounds_enough c source fuel start tail position (omega (arith, l)) in
          rw (found, tail_rounds)
            (ap
              (λ earlier.
                elim (open_sealed_header c.sealed_checksum (drop position tail))
                  as (λ x. Option VerifiedHeader) [
                    | none ↦ earlier
                    | some (version, body) ↦
                        elim (sealed_prefix_size + length body + sealed_checksum_size
                            == length (drop position tail))
                          as (λ x. Option VerifiedHeader) [
                            | true ↦ some (
                                sealed c source version (start + position) (drop position tail)
                                  body)
                            | false ↦ earlier
                          ]
                  ])
              ih)
    ]
