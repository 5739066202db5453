-- ===== src/Container/Format/Sealed.antt =====
-- Sealed headers are found again (dbs/container/format.py).
use dbs.Prelude.{
  List, ap, append_assoc, arith, drop, drop-append_of_length, false, leb, length, length-append,
  ltb, min, refl, slice, slice_field, some, sym, take, take-append_of_length, true, ℕ, ◌++◌, ◌+◌,
  ◌-◌, ◌<◌, ◌^◌, ◌∙◌, ◌≡◌, ◌≤◌,
}
use dbs.Bytes.{to_bytes, from_bytes, from_bytes-to_bytes, length-to_bytes}
use dbs.Container.Format.{
  magic, seal_header, sealed_max_size, sealed_min_size, v1_format_version, open_sealed_header,
}
use dbs.Container.Rs.RoundTrip.{equal_rows_refl}
use dbs.Result.{ok}

-- What a version and a body must be to be sealed.
pub record IsSealable (version : ℕ) (body : List ℕ) : Type 0 where
  pub is_later : v1_format_version < version
  pub packs : version < 2 ^ 16
  pub fits : length body ≤ sealed_max_size - sealed_min_size

-- The fields of a header whose two numbers are `vf` and `sf`.
module _ (vf sf body sum rest : List ℕ) (v2 : length vf ≡ 2) (s2 : length sf ≡ 2) where
  abbrev unsealed_of : List ℕ
  unsealed_of = magic ++ (vf ++ (sf ++ body))

  abbrev raw_of : List ℕ
  raw_of = (unsealed_of ++ sum) ++ rest

  raw_of-eq : raw_of ≡ magic ++ (vf ++ (sf ++ (body ++ (sum ++ rest))))
  raw_of-eq = simp append_assoc

  length-unsealed_of : length unsealed_of ≡ 12 + length body
  length-unsealed_of = omega (arith, length-append vf (sf ++ body), length-append sf body, v2, s2)

  version_read : slice 8 10 raw_of ≡ vf
  version_read =
      ap (slice 8 10) raw_of-eq ∙ slice_field 8 10 magic vf (sf ++ (body ++ (sum ++ rest))) refl v2

  size_read : slice 10 12 raw_of ≡ sf
  size_read =
      ap (slice 10 12) (raw_of-eq ∙ sym (append_assoc magic vf (sf ++ (body ++ (sum ++ rest)))))
      ∙ slice_field 10 12 (magic ++ vf) sf (body ++ (sum ++ rest))
          (omega (arith, length-append magic vf, v2)) s2

  checksum_read :
      (size : ℕ)
      → size ≡ 12 + length body + 16
      → length sum ≡ 16
      → slice (size - 16) size raw_of ≡ sum
  checksum_read size e l =
      ap (slice (size - 16) size) (append_assoc unsealed_of sum rest)
      ∙ slice_field (size - 16) size unsealed_of sum rest (omega (arith, length-unsealed_of, e))
          (omega (arith, e, l))

  unsealed_read : (size : ℕ) → size ≡ 12 + length body + 16 → take (size - 16) raw_of ≡ unsealed_of
  unsealed_read size e =
      ap (take (size - 16)) (append_assoc unsealed_of sum rest)
      ∙ take-append_of_length (size - 16) unsealed_of (sum ++ rest)
          (omega (arith, length-unsealed_of, e))

  body_read : drop 12 unsealed_of ≡ body
  body_read =
      ap (drop 12)
        (sym (append_assoc magic (vf ++ sf) body ∙ ap (λ t. magic ++ t) (append_assoc vf sf body)))
      ∙ drop-append_of_length 12 (magic ++ (vf ++ sf)) body
          (omega (arith, length-append vf sf, v2, s2))

opens_by :
    (sealed_checksum : List ℕ → List ℕ) (raw : List ℕ) (n sz : ℕ) (un body : List ℕ)
    → from_bytes (slice 8 10 raw) ≡ n
    → from_bytes (slice 10 12 raw) ≡ sz
    → take (sz - 16) raw ≡ un
    → slice (sz - 16) sz raw ≡ sealed_checksum un
    → slice 0 8 raw ≡ magic
    → ltb (length raw) 28 ≡ false
    → leb n 1 ≡ false
    → leb 28 sz ≡ true
    → leb sz (min (length raw) 4096) ≡ true
    → drop 12 un ≡ body
    → open_sealed_header sealed_checksum raw ≡ some (n, body)
unfolding open_sealed_header
opens_by sealed_checksum raw n sz un body v s u k m long later low high b =
    rw
      (
        v,
        s,
        u,
        k,
        m,
        long,
        later,
        low,
        high,
        equal_rows_refl (sealed_checksum un),
        equal_rows_refl magic,
        b,
      )
      refl

module _ (sealed_checksum : List ℕ → List ℕ)
    (sixteen : (bytes : List ℕ) → length (sealed_checksum bytes) ≡ 16) (version : ℕ)
    (body rest : List ℕ) (h : IsSealable version body) where
  abbrev size : ℕ
  size = 12 + length body + 16

  abbrev vf : List ℕ
  vf = to_bytes 2 version

  abbrev sf : List ℕ
  sf = to_bytes 2 size

  abbrev unsealed : List ℕ
  unsealed = magic ++ (vf ++ (sf ++ body))

  abbrev sum : List ℕ
  sum = sealed_checksum unsealed

  length-raw : length ((unsealed ++ sum) ++ rest) ≡ size + length rest
  length-raw = omega (
    arith,
    length-append (unsealed ++ sum) rest,
    length-append unsealed sum,
    length-unsealed_of vf sf body sum rest (length-to_bytes 2 version) (length-to_bytes 2 size),
    sixteen unsealed,
  )

  open-raw : open_sealed_header sealed_checksum ((unsealed ++ sum) ++ rest) ≡ some (version, body)
  unfolding open_sealed_header
  open-raw =
      let v2 = length-to_bytes 2 version in
      let s2 = length-to_bytes 2 size in
      let v : from_bytes (slice 8 10 ((unsealed ++ sum) ++ rest)) ≡ version =
        ap from_bytes (version_read vf sf body sum rest v2 s2)
        ∙ from_bytes-to_bytes 2 version (omega (arith, h.packs)) in
      let s : from_bytes (slice 10 12 ((unsealed ++ sum) ++ rest)) ≡ size =
        ap from_bytes (size_read vf sf body sum rest v2 s2)
        ∙ from_bytes-to_bytes 2 size (omega (arith, h.fits)) in
      let u = unsealed_read vf sf body sum rest v2 s2 size refl in
      let k = checksum_read vf sf body sum rest v2 s2 size refl (sixteen unsealed) in
      let m : slice 0 8 ((unsealed ++ sum) ++ rest) ≡ magic = refl in
      let long : ltb (length ((unsealed ++ sum) ++ rest)) 28 ≡ false = ground (arith, length-raw) in
      let later : leb version 1 ≡ false = ground (arith, h.is_later) in
      let low : leb 28 size ≡ true = ground arith in
      let high : leb size (min (length ((unsealed ++ sum) ++ rest)) 4096) ≡ true =
        ground (arith, length-raw, h.fits) in
      let b = body_read vf sf body sum rest v2 s2 in
      opens_by sealed_checksum ((unsealed ++ sum) ++ rest) version size unsealed body v s u k refl
        long later low high b

-- A header that was sealed is opened with its version and its body, whatever follows it.
pub open_sealed_header-seal_header :
    (sealed_checksum : List ℕ → List ℕ)
    → ((bytes : List ℕ) → length (sealed_checksum bytes) ≡ 16)
    → (version : ℕ) (body rest : List ℕ) → IsSealable version body
    → (raw : List ℕ) × (seal_header sealed_checksum version body ≡ ok raw)
      × (open_sealed_header sealed_checksum (raw ++ rest) ≡ some (version, body))
unfolding seal_header
open_sealed_header-seal_header sealed_checksum sixteen version body rest h = (
  unsealed ++ sum,
  ground (arith, h.is_later, h.fits),
  open-raw sealed_checksum sixteen version body rest h,
)
  where
    unsealed : List ℕ
    unsealed = magic ++ (to_bytes 2 version ++ (to_bytes 2 (12 + length body + 16) ++ body))

    sum : List ℕ
    sum = sealed_checksum unsealed
