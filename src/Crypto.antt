-- ===== src/Crypto.antt =====
-- The nonces of the chunk cipher (dbs/crypto/chunked.py) and the limits on the parameters of the
-- key derivation (dbs/crypto/kdf.py). The AEAD cipher itself is a parameter.
pub mod Limits
use dbs.Prelude.{
  Bool, Bool-cases, List, Option, [], ap, append_assoc, arith, false, get_or, get_or-append,
  if◌then◌else◌, inl, inr, length, length-append, ltb, none, not, refl, slice, slice_field, some,
  sym, true, ℕ, ◌++◌, ◌==◌, ◌^◌, ◌∙◌, ◌∷◌, ◌≡◌,
}
use dbs.Bytes.{to_bytes, from_bytes, from_bytes-to_bytes, length-to_bytes}
use dbs.Result.{Result, corruption_error, err, ok, value_error, ◌>>=◌, Ensures, Ensures-ok}

abbrev pub nonce_prefix_length : ℕ
nonce_prefix_length = 7

abbrev pub max_chunks : ℕ
max_chunks = 2 ^ 32

unfoldable pub chunk_nonce : List ℕ → ℕ → Bool → Result (List ℕ)
chunk_nonce prefix index final =
    if not (length prefix == nonce_prefix_length)
    then err value_error
    else if not (ltb index max_chunks)
    then err value_error
    else ok (prefix ++ (to_bytes 4 index ++ (if final then 1 else 0) ∷ []))

-- `AESGCM.encrypt` and `AESGCM.decrypt` under one key and one piece of associated data
pub record Aead : Type 0 where
  pub encrypt : List ℕ → List ℕ → List ℕ
  pub decrypt : List ℕ → List ℕ → Option (List ℕ)

unfoldable pub seal_chunk : Aead → List ℕ → ℕ → List ℕ → Bool → Result (List ℕ)
unfolding chunk_nonce
seal_chunk aead prefix index plaintext final = do
  nonce ← chunk_nonce prefix index final
  ok (aead.encrypt nonce plaintext)

unfoldable pub open_chunk : Aead → List ℕ → ℕ → List ℕ → Bool → Result (List ℕ)
unfolding chunk_nonce
open_chunk aead prefix index ciphertext final = do
  nonce ← chunk_nonce prefix index final
  elim (aead.decrypt nonce ciphertext) [
    | some plaintext ↦ ok plaintext
    | none ↦ err corruption_error
  ]

abbrev flag : Bool → ℕ
flag final = if final then 1 else 0

flag-injective : (a b : Bool) → flag a ≡ flag b → a ≡ b
flag-injective true true e = refl
flag-injective true false e = absurd (omega (arith, e))
flag-injective false true e = absurd (omega (arith, e))
flag-injective false false e = refl

-- A nonce holds the number of its chunk and its flag.
abbrev Names : ℕ → Bool → List ℕ → Type 0
Names index final nonce = (from_bytes (slice 7 11 nonce) ≡ index) × (get_or nonce 11 0 ≡ flag final)

chunk_nonce-Names :
    (prefix : List ℕ) (index : ℕ) (final : Bool)
    → Ensures (Unit {0}) (Names index final) (chunk_nonce prefix index final)
unfolding chunk_nonce
chunk_nonce-Names prefix index final = elim (Bool-cases (length prefix == nonce_prefix_length)) [
  | inr short ↦ rw short tt
  | inl whole ↦ elim (Bool-cases (ltb index max_chunks)) [
    | inr large ↦ rw (whole, large) tt
    | inl small ↦
        let seven : length prefix ≡ 7 = ground (arith, whole) in
        let four = length-to_bytes 4 index in
        let number : from_bytes (slice 7 11 (prefix ++ (to_bytes 4 index ++ flag final ∷ [])))
            ≡ index =
          ap from_bytes (slice_field 7 11 prefix (to_bytes 4 index) (flag final ∷ []) seven four)
          ∙ from_bytes-to_bytes 4 index (ground (arith, small)) in
        let eleven : length (prefix ++ to_bytes 4 index) ≡ 11 =
          omega (arith, length-append prefix (to_bytes 4 index), seven, four) in
        let last : get_or (prefix ++ (to_bytes 4 index ++ flag final ∷ [])) 11 0 ≡ flag final =
          rw (← append_assoc prefix (to_bytes 4 index) (flag final ∷ []), ← eleven)
            (get_or-append (prefix ++ to_bytes 4 index) (flag final ∷ []) 0) in
        rw (whole, small) (number, last)
  ]
]

-- Under one prefix, two chunks have the same nonce only if they have the same number and are both
-- final or both not: no nonce is used for two chunks of a container.
pub chunk_nonce-injective :
    (prefix : List ℕ) (i j : ℕ) (final final' : Bool) (nonce : List ℕ)
    → chunk_nonce prefix i final ≡ ok nonce
    → chunk_nonce prefix j final' ≡ ok nonce
    → (i ≡ j) × (final ≡ final')
chunk_nonce-injective prefix i j final final' nonce e e' =
    let (number, last) =
      Ensures-ok (Unit {0}) (Names i final) (chunk_nonce prefix i final)
        (chunk_nonce-Names prefix i final) e in
    let (number', last') =
      Ensures-ok (Unit {0}) (Names j final') (chunk_nonce prefix j final')
        (chunk_nonce-Names prefix j final') e' in
    (sym number ∙ number', flag-injective final final' (sym last ∙ last'))
