-- ===== src/Bytes.antt =====
-- Big-endian integers, as `struct` packs them under `>`.
use native.Mathlib.Nat.{pow-suc}
use dbs.Prelude.{
  List, [], arith, length, length-append, refl, suc, zero, ℕ, ◌%◌, ◌*◌, ◌++◌, ◌+◌, ◌/◌, ◌<◌, ◌^◌,
  ◌∙◌, ◌∷◌, ◌≡◌,
}

-- `n` in `width` bytes. `struct` refuses a number that does not fit; the callers' ranges are
-- hypotheses where they matter.
unfoldable pub to_bytes : ℕ → ℕ → List ℕ
to_bytes zero n = []
to_bytes (suc width) n = to_bytes width (n / 256) ++ n % 256 ∷ []

from_bytes_rounds : ℕ → List ℕ → ℕ
from_bytes_rounds value [] = value
from_bytes_rounds value (b ∷ bytes) = from_bytes_rounds (value * 256 + b) bytes

unfoldable pub from_bytes : List ℕ → ℕ
unfolding from_bytes_rounds
from_bytes = from_bytes_rounds 0

pub length-to_bytes : (width n : ℕ) → length (to_bytes width n) ≡ width
unfolding to_bytes
length-to_bytes zero n = refl
length-to_bytes (suc width) n = omega (
  arith,
  length-append (to_bytes width (n / 256)) (n % 256 ∷ []),
  length-to_bytes width (n / 256),
)

from_bytes_rounds-append :
    (value : ℕ) (bytes : List ℕ) (b : ℕ)
    → from_bytes_rounds value (bytes ++ b ∷ []) ≡ from_bytes_rounds value bytes * 256 + b
unfolding from_bytes_rounds
from_bytes_rounds-append value [] b = refl
from_bytes_rounds-append value (c ∷ bytes) b = from_bytes_rounds-append (value * 256 + c) bytes b

-- A number that fits is read back.
pub from_bytes-to_bytes : (width n : ℕ) → n < 256 ^ width → from_bytes (to_bytes width n) ≡ n
unfolding from_bytes to_bytes
from_bytes-to_bytes zero n h = omega arith
from_bytes-to_bytes (suc width) n h =
    let ih : from_bytes_rounds 0 (to_bytes width (n / 256)) ≡ n / 256 =
      from_bytes-to_bytes width (n / 256) (omega (arith, pow-suc 256 width)) in
    from_bytes_rounds-append 0 (to_bytes width (n / 256)) (n % 256) ∙ omega (arith, ih)
