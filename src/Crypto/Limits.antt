-- ===== src/Crypto/Limits.antt =====
-- The limits on the parameters of the key derivation (dbs/crypto/kdf.py).
use dbs.Prelude.{Bool, arith, leb, ℕ, ◌&&◌, ◌*◌, ◌==◌, ◌↔◌, ◌≡◌, ◌≤◌}
use dbs.Result.{◌>>◌, Result, crypto_error, guard, ok}

pub record KdfParams : Type 0 where
  pub time_cost : ℕ
  pub memory_cost : ℕ
  pub parallelism : ℕ
  pub key_length : ℕ

abbrev in_range : ℕ → ℕ → ℕ → Bool
in_range value lower upper = leb lower value && leb value upper

unfoldable pub validate : KdfParams → Result (Unit {0})
validate p =
    guard
      (in_range p.time_cost 1 16
        && in_range p.memory_cost 8 (1024 * 1024)
        && in_range p.parallelism 1 16
        && in_range p.key_length 16 64)
      crypto_error

-- The ceilings and the two last checks raise the same error.
unfoldable pub validate_untrusted : KdfParams → Result (Unit {0})
unfolding validate
validate_untrusted p = do
  validate p
  guard (leb p.time_cost 10 && leb p.memory_cost (256 * 1024) && leb p.parallelism 16) crypto_error
  guard (leb (8 * p.parallelism) p.memory_cost) crypto_error
  guard (p.key_length == 32) crypto_error

-- Parameters that a backup file may ask for: what they cost is bounded, and the derivation
-- accepts them.
pub record IsAffordable (p : KdfParams) : Type 0 where
  pub some_time : 1 ≤ p.time_cost
  pub little_time : p.time_cost ≤ 10
  pub little_memory : p.memory_cost ≤ 256 * 1024
  pub some_lanes : 1 ≤ p.parallelism
  pub few_lanes : p.parallelism ≤ 16
  pub enough_memory : 8 * p.parallelism ≤ p.memory_cost
  pub whole_key : p.key_length ≡ 32

-- Parameters from a file are accepted only if what they cost is bounded, and every bounded choice
-- is accepted.
pub validate_untrusted-IsAffordable :
    (p : KdfParams) → (validate_untrusted p ≡ ok tt) ↔ IsAffordable p
unfolding validate_untrusted validate
validate_untrusted-IsAffordable p = (
  λ e. record {
    some_time = ground (arith, e);
    little_time = ground (arith, e);
    little_memory = ground (arith, e);
    some_lanes = ground (arith, e);
    few_lanes = ground (arith, e);
    enough_memory = ground (arith, e);
    whole_key = ground (arith, e);
  },
  λ h. ground (
    arith, h.some_time, h.little_time, h.little_memory, h.some_lanes, h.few_lanes, h.enough_memory,
    h.whole_key,
  ),
)
