-- ===== src/Jobs/Decimal.antt =====
-- The names of job leases (dbs/jobs.py) give back the numbers of their events.
use dbs.Prelude.{
  Bool-cases, [], arith, inl, inr, leb, ltb, refl, suc, true, zero, ℕ, ◌%◌, ◌&&◌, ◌*◌, ◌++◌, ◌+◌,
  ◌-◌, ◌/◌, ◌<◌, ◌∙◌, ◌∷◌, ◌≡◌,
}
use dbs.Jobs.{all_digits, digits, int_rounds, is_digits}
use dbs.Text.{Text}

int_rounds-append :
    (value c : ℕ) (s : Text) → int_rounds value (s ++ c ∷ []) ≡ int_rounds value s * 10 + (c - b'0')
unfolding int_rounds
int_rounds-append value c [] = refl
int_rounds-append value c (d ∷ s) = int_rounds-append (value * 10 + (d - b'0')) c s

all_digits-append :
    (s : Text) (c : ℕ)
    → all_digits s ≡ true
    → leb b'0' c && leb c b'9' ≡ true
    → all_digits (s ++ c ∷ []) ≡ true
unfolding all_digits
all_digits-append [] c h k = ground arith
all_digits-append (d ∷ s) c h k = ground (arith, all_digits-append s c)

is_digits-append :
    (s : Text) (c : ℕ) → all_digits (s ++ c ∷ []) ≡ true → is_digits (s ++ c ∷ []) ≡ true
unfolding is_digits
is_digits-append [] c h = h
is_digits-append (d ∷ s) c h = h

last_digit : (n : ℕ) → leb b'0' (b'0' + n % 10) && leb (b'0' + n % 10) b'9' ≡ true
last_digit n = ground arith

pub digits-read :
    (fuel n : ℕ)
    → n < fuel
    → (int_rounds 0 (digits fuel n) ≡ n)
      × (all_digits (digits fuel n) ≡ true)
      × (is_digits (digits fuel n) ≡ true)
unfolding digits
digits-read zero n h = absurd (omega arith)
digits-read (suc fuel) n h = elim (Bool-cases (ltb n 10)) [
  | inl small ↦
      let one = all_digits-append [] (b'0' + n % 10) (unfold all_digits in refl) (last_digit n) in
      rw small ((unfold int_rounds in ground arith), one, is_digits-append [] (b'0' + n % 10) one)
  | inr large ↦
      let (value, every, some_digits) = digits-read fuel (n / 10) (ground arith) in
      let more = all_digits-append (digits fuel (n / 10)) (b'0' + n % 10) every (last_digit n) in
      rw large (
        int_rounds-append 0 (b'0' + n % 10) (digits fuel (n / 10)) ∙ omega (arith, value),
        more,
        is_digits-append (digits fuel (n / 10)) (b'0' + n % 10) more,
      )
]
