-- ===== src/Result.antt =====
-- The exceptions that the program raises, as values. `out_of_fuel` is none of them: it ends a loop
-- of this library whose fuel is used up.
use mathlib.Core.Path.{subst}
use dbs.Prelude.{Bool, false, if◌then◌else◌, refl, true, ◌≡◌}

pub data Error : Type 0 where
  value_error configuration_error container_error corruption_error crypto_error dbs_error : Error
  runtime_error type_error os_error out_of_fuel : Error

pub data Result {ℓ} (A : Type ℓ) : Type ℓ where
  err : Error → Result A
  ok : A → Result A

-- `if not condition: raise`
abbrev pub guard : Bool → Error → Result (Unit {0})
guard false raised = err raised
guard true raised = ok tt

-- What follows a call that may raise.
infixl 5 ◌>>=◌
abbrev pub ◌>>=◌ {ℓ κ} : {X : Type ℓ} {Y : Type κ} → Result X → (X → Result Y) → Result Y
err raised >>= rest = err raised
ok value >>= rest = rest value

infixl 5 ◌>>◌
abbrev pub ◌>>◌ {κ} : {Y : Type κ} (check : Result (Unit {0})) (rest : Result Y) → Result Y
check >> rest = check >>= λ done. rest

pub bind_assoc {ℓ} :
    {A B C : Type ℓ} (m : Result A) (f : A → Result B) (g : B → Result C)
    → ((m >>= f) >>= g) ≡ (m >>= λ a. f a >>= g)
bind_assoc (ok a) f g = refl
bind_assoc (err e) f g = refl

pub bind_ext {ℓ} :
    {A B : Type ℓ} (m : Result A) (f g : A → Result B)
    → ((a : A) → f a ≡ g a)
    → (m >>= f) ≡ (m >>= g)
bind_ext (ok a) f g h = h a
bind_ext (err e) f g h = refl

-- The rest of a block may use what did not raise.
pub bind_ext_ok {ℓ} :
    {A B : Type ℓ} (m : Result A) (f g : A → Result B)
    → ((a : A) → m ≡ ok a → f a ≡ g a)
    → (m >>= f) ≡ (m >>= g)
bind_ext_ok (ok a) f g h = h a refl
bind_ext_ok (err e) f g h = refl

pub bind-eq-ok {ℓ} :
    {A B : Type ℓ} (call : Result A) (rest : A → Result B) {value : B}
    → (call >>= rest) ≡ ok value
    → (found : A) × (rest found ≡ ok value) × (call ≡ ok found)
bind-eq-ok (ok found) rest e = (found, e, refl)
bind-eq-ok (err raised) rest e = cc

-- What a result satisfies: `P` of what is returned, and `E` of what is raised.
abbrev pub Ensures {ℓ κ} : {A : Type ℓ} → Type κ → (A → Type κ) → Result A → Type κ
Ensures E P (ok a) = P a
Ensures E P (err e) = E

pub bind-Ensures {ℓ κ} :
    {A B : Type ℓ} (E : Type κ) (Q : A → Type κ) (P : B → Type κ) (m : Result A) (f : A → Result B)
    → Ensures E Q m
    → ((a : A) → Q a → Ensures E P (f a))
    → Ensures E P (m >>= f)
bind-Ensures E Q P (ok a) f q h = h a q
bind-Ensures E Q P (err e) f q h = q

-- Where nothing may be raised, there is a result, and it satisfies `P`.
pub Ensures-never {ℓ} :
    {A : Type ℓ} (P : A → Type 0) (m : Result A) → Ensures ⊥ P m → (a : A) × (m ≡ ok a) × P a
Ensures-never P (ok a) h = (a, refl, h)
Ensures-never P (err e) h = elim h [ ]

pub Ensures-ok {ℓ κ} :
    {A : Type ℓ} (E : Type κ) (P : A → Type κ) (m : Result A) {a : A}
    → Ensures E P m
    → m ≡ ok a
    → P a
Ensures-ok E P m {a = a} h e = subst (Ensures E P) e h

-- Where all may be raised, nothing is claimed of it.
pub Ensures-trivial {ℓ} : {A : Type ℓ} (m : Result A) → Ensures (Unit {0}) (λ a. Unit {0}) m
Ensures-trivial (ok a) = tt
Ensures-trivial (err e) = tt

pub if-Ensures {ℓ κ} :
    {A : Type ℓ} (E : Type κ) (P : A → Type κ) (b : Bool) (x y : Result A)
    → Ensures E P x
    → Ensures E P y
    → Ensures E P (if b then x else y)
if-Ensures E P true x y h k = h
if-Ensures E P false x y h k = k

pub guard-Ensures {ℓ κ} :
    {A : Type ℓ} (E : Type κ) (P : A → Type κ) (b : Bool) (e : Error) (m : Result A)
    → E
    → (b ≡ true → Ensures E P m)
    → Ensures E P (guard b e >> m)
guard-Ensures E P true e m raised h = h refl
guard-Ensures E P false e m raised h = raised

-- What a result satisfies: `P` of what is returned, and `E` of the exception.
abbrev pub Holds {ℓ} : {A : Type ℓ} → (Error → Type 0) → (A → Type 0) → Result A → Type 0
Holds E P (ok a) = P a
Holds E P (err e) = E e

pub bind-Holds {ℓ} :
    {A B : Type ℓ} (E : Error → Type 0) (Q : A → Type 0) (P : B → Type 0) (m : Result A)
    (f : A → Result B)
    → Holds E Q m
    → ((a : A) → Q a → Holds E P (f a))
    → Holds E P (m >>= f)
bind-Holds E Q P (ok a) f q h = h a q
bind-Holds E Q P (err e) f q h = q

pub guard-Holds {ℓ} :
    {A : Type ℓ} (E : Error → Type 0) (P : A → Type 0) (b : Bool) (e : Error) (m : Result A)
    → E e
    → Holds E P m
    → Holds E P (guard b e >> m)
guard-Holds E P true e m raised h = h
guard-Holds E P false e m raised h = raised

pub if-Holds {ℓ} :
    {A : Type ℓ} (E : Error → Type 0) (P : A → Type 0) (b : Bool) (x y : Result A)
    → Holds E P x
    → Holds E P y
    → Holds E P (if b then x else y)
if-Holds E P true x y h k = h
if-Holds E P false x y h k = k

pub weaken-Holds {ℓ} :
    {A : Type ℓ} (E : Error → Type 0) (P Q : A → Type 0) (m : Result A)
    → Holds E P m
    → ((a : A) → P a → Q a)
    → Holds E Q m
weaken-Holds E P Q (ok a) h f = f a h
weaken-Holds E P Q (err e) h f = h
