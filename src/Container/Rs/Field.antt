-- ===== src/Container/Rs/Field.antt =====
-- The field of 256 elements: its tables and its multiplication (dbs/container/rs.py).
use dbs.Prelude.{
  List, bit_and, bit_xor, get_or, if◌then◌else◌, replicate, set, suc, zero, ℕ, ◌*◌, ◌+◌, ◌-◌, ◌==◌,
  ◌||◌,
}

abbrev pub primitive_polynomial : ℕ
primitive_polynomial = 0x11d

pub record Tables : Type 0 where
  pub exp : List ℕ
  pub log : List ℕ
  pub value : ℕ

-- `value <<= 1` and the reduction under it
double : ℕ → ℕ
double value =
    let shifted = value * 2 in
    if bit_and shifted 0x100 == 0 then shifted else bit_xor shifted primitive_polynomial

field_round : ℕ → Tables → Tables
unfolding double
field_round power t = record {
  exp = set t.exp power t.value;
  log = set t.log t.value power;
  value = double t.value;
}

-- the rounds of the first loop, from `power` on
field_rounds : ℕ → ℕ → Tables → Tables
unfolding field_round
field_rounds zero power t = t
field_rounds (suc n) power t = field_rounds n (power + 1) (field_round power t)

-- the rounds of the second loop
repeat_rounds : ℕ → ℕ → List ℕ → List ℕ
repeat_rounds zero power exp = exp
repeat_rounds (suc n) power exp =
    repeat_rounds n (power + 1) (set exp power (get_or exp (power - 255) 0))

unfoldable pub field_tables : Tables
unfolding field_rounds repeat_rounds
field_tables =
    let filled =
      field_rounds 255 0 (record { exp = replicate 512 0; log = replicate 256 0; value = 1 }) in
    record filled { exp = repeat_rounds 257 255 filled.exp }

unfoldable pub exp_at : ℕ → ℕ
unfolding field_tables
exp_at power = get_or field_tables.exp power 0

unfoldable pub log_at : ℕ → ℕ
unfolding field_tables
log_at value = get_or field_tables.log value 0

unfoldable pub multiply : ℕ → ℕ → ℕ
unfolding exp_at log_at
multiply a b = if a == 0 || b == 0 then 0 else exp_at (log_at a + log_at b)
