-- ===== src/Retention/Order.antt =====
-- The order in which a retention run (dbs/retention.py) goes through the backups, described by
-- their moments and names.
use dbs.Prelude.{
  Bool, Bool-cases, List, [], ap, arith, false, if◌then◌else◌, inl, inr, ltb, not, refl, suc, sym,
  take, true, zero, ℕ, ◌&&◌, ◌+◌, ◌==◌, ◌∙◌, ◌∷◌, ◌≡◌, ◌≤◌, ◌||◌, ◌⊎◌,
}
use dbs.Retention.{
  StoredBackup, first_passed, insert_newest, is_failed, is_passed, names_of, newest_first,
  not_failed, not_older, to_list,
}
use dbs.Text.{Text, elem, elem_self, text_leb}

-- `a` has the later moment, or the same one and a name that does not come before that of `b`.
abbrev pub is_as_new : StoredBackup → StoredBackup → Bool
is_as_new a b = ltb b.moment a.moment || (b.moment == a.moment && text_leb b.name a.name)

abbrev pub In : StoredBackup → List StoredBackup → Type 0
In b [] = ⊥
In b (a ∷ backups) = (a ≡ b) ⊎ In b backups

abbrev pub count_of : (StoredBackup → Bool) → List StoredBackup → ℕ
count_of p [] = 0
count_of p (a ∷ backups) = (if p a then 1 else 0) + count_of p backups

-- Each backup is as new as all that follow it.
abbrev pub IsSorted : List StoredBackup → Type 0
IsSorted [] = Unit {0}
IsSorted (a ∷ backups) =
    ((b : StoredBackup) → In b backups → is_as_new a b ≡ true) × IsSorted backups

text_leb_refl : (s : Text) → text_leb s s ≡ true
unfolding text_leb
text_leb_refl [] = refl
text_leb_refl (a ∷ s) = ground (arith, text_leb_refl s)

text_leb_total : (s t : Text) → text_leb s t ≡ false → text_leb t s ≡ true
unfolding text_leb
text_leb_total [] t h = cc
text_leb_total (a ∷ s) [] h = refl
text_leb_total (a ∷ s) (b ∷ t) h = ground (arith, text_leb_total s t)

text_leb_trans : (s t u : Text) → text_leb s t ≡ true → text_leb t u ≡ true → text_leb s u ≡ true
unfolding text_leb
text_leb_trans [] t u h k = refl
text_leb_trans (a ∷ s) [] u h k = cc
text_leb_trans (a ∷ s) (b ∷ t) [] h k = cc
text_leb_trans (a ∷ s) (b ∷ t) (c ∷ u) h k = ground (arith, text_leb_trans s t u)

not_older-is_as_new : (a b : StoredBackup) → not_older a b ≡ is_as_new a b
unfolding not_older
not_older-is_as_new a b = ground arith

is_as_new_self : (a : StoredBackup) → is_as_new a a ≡ true
is_as_new_self a = ground (arith, text_leb_refl a.name)

is_as_new_total : (a b : StoredBackup) → is_as_new a b ≡ false → is_as_new b a ≡ true
is_as_new_total a b h = ground (arith, text_leb_total b.name a.name)

is_as_new_trans :
    (a b c : StoredBackup) → is_as_new a b ≡ true → is_as_new b c ≡ true → is_as_new a c ≡ true
is_as_new_trans a b c h k = ground (arith, text_leb_trans c.name b.name a.name)

In-insert_newest :
    (b a : StoredBackup) (backups : List StoredBackup)
    → In b (a ∷ backups)
    → In b (insert_newest a backups)
unfolding insert_newest
In-insert_newest b a [] h = h
In-insert_newest b a (c ∷ backups) h = elim (Bool-cases (not_older a c)) [
  | inl newer ↦ rw newer h
  | inr older ↦ rw older (elim h [
    | inl same ↦ inr (In-insert_newest b a backups (inl same))
    | inr (inl same) ↦ inl same
    | inr (inr later) ↦ inr (In-insert_newest b a backups (inr later))
  ])
]

insert_newest-In :
    (b a : StoredBackup) (backups : List StoredBackup)
    → In b (insert_newest a backups)
    → In b (a ∷ backups)
unfolding insert_newest
insert_newest-In b a [] h = h
insert_newest-In b a (c ∷ backups) h = elim (Bool-cases (not_older a c)) [
  | inl newer ↦ rw newer at h
  | inr older ↦ elim (rw older at h) [
    | inl same ↦ inr (inl same)
    | inr later ↦ elim (insert_newest-In b a backups later) [
      | inl same ↦ inl same
      | inr rest ↦ inr (inr rest)
    ]
  ]
]

pub In-newest_first :
    (b : StoredBackup) (backups : List StoredBackup) → In b backups → In b (newest_first backups)
unfolding newest_first
In-newest_first b [] h = h
In-newest_first b (a ∷ backups) (inl same) = In-insert_newest b a (newest_first backups) (inl same)
In-newest_first b (a ∷ backups) (inr later) =
    In-insert_newest b a (newest_first backups) (inr (In-newest_first b backups later))

count_of-insert_newest :
    (p : StoredBackup → Bool) (a : StoredBackup) (backups : List StoredBackup)
    → count_of p (insert_newest a backups) ≡ count_of p (a ∷ backups)
unfolding insert_newest
count_of-insert_newest p a [] = refl
count_of-insert_newest p a (c ∷ backups) = elim (Bool-cases (not_older a c)) [
  | inl newer ↦ rw newer refl
  | inr older ↦ rw older (omega (arith, count_of-insert_newest p a backups))
]

pub count_of-newest_first :
    (p : StoredBackup → Bool) (backups : List StoredBackup)
    → count_of p (newest_first backups) ≡ count_of p backups
unfolding newest_first
count_of-newest_first p [] = refl
count_of-newest_first p (a ∷ backups) =
    count_of-insert_newest p a (newest_first backups)
    ∙ ap (λ n. (if p a then 1 else 0) + n) (count_of-newest_first p backups)

insert_newest-IsSorted :
    (a : StoredBackup) (backups : List StoredBackup)
    → IsSorted backups
    → IsSorted (insert_newest a backups)
unfolding insert_newest
insert_newest-IsSorted a [] h = ((λ b m. absurd m), tt)
insert_newest-IsSorted a (c ∷ backups) (first, h) = elim (Bool-cases (not_older a c)) [
  | inl newer ↦
      let n = sym (not_older-is_as_new a c) ∙ newer in
      rw newer (
        (λ b m. elim m [
          | inl same ↦ rw (sym same) n
          | inr later ↦ is_as_new_trans a c b n (first b later)
        ]),
        (first, h),
      )
  | inr older ↦
      let n = is_as_new_total a c (sym (not_older-is_as_new a c) ∙ older) in
      rw older (
        (λ b m. elim (insert_newest-In b a backups m) [
          | inl same ↦ rw (sym same) n
          | inr later ↦ first b later
        ]),
        insert_newest-IsSorted a backups h,
      )
]

pub newest_first-IsSorted : (backups : List StoredBackup) → IsSorted (newest_first backups)
unfolding newest_first
newest_first-IsSorted [] = tt
newest_first-IsSorted (a ∷ backups) =
    insert_newest-IsSorted a (newest_first backups) (newest_first-IsSorted backups)

elem_later : (s t : Text) (names : List Text) → elem s names ≡ true → elem s (t ∷ names) ≡ true
unfolding elem
elem_later s t names h = ground arith

count_of-In :
    (p : StoredBackup → Bool) (b : StoredBackup) (backups : List StoredBackup)
    → In b backups
    → p b ≡ true
    → 1 ≤ count_of p backups
count_of-In p b [] m h = absurd m
count_of-In p b (a ∷ backups) (inl same) h =
    let e : p a ≡ true = ap p same ∙ h in rw e (omega arith)
count_of-In p b (a ∷ backups) (inr later) h = omega (arith, count_of-In p b backups later h)

-- In sorted backups, one that did not fail is among the first `keep` such ones.
pub elem-names_of :
    (b : StoredBackup) (keep : ℕ) (backups : List StoredBackup)
    → IsSorted backups
    → In b backups
    → is_failed b.verification ≡ false
    → count_of (λ a. not (is_failed a.verification) && is_as_new a b) backups ≤ keep
    → elem b.name (names_of (take keep (not_failed backups))) ≡ true
unfolding not_failed
elem-names_of b keep [] s m f few = absurd m
elem-names_of b zero (a ∷ backups) s m f few =
    let p : StoredBackup → Bool = λ a. not (is_failed a.verification) && is_as_new a b in
    absurd (omega (arith, few, count_of-In p b (a ∷ backups) m (rw (f, is_as_new_self b) refl)))
elem-names_of b (suc k) (a ∷ backups) (first, s) (inl same) f few =
    let e : is_failed a.verification ≡ false =
      ap (λ (c : StoredBackup). is_failed c.verification) same ∙ f in
    rw (e, ap (λ (c : StoredBackup). c.name) same)
      (elem_self b.name (names_of (take k (not_failed backups))))
elem-names_of b (suc k) (a ∷ backups) (first, s) (inr later) f few =
    elim (Bool-cases (is_failed a.verification)) [
      | inl bad ↦
          rw bad
            (elem-names_of b (suc k) backups s later f (let n = rw bad at few in omega (arith, n)))
      | inr sound ↦ rw sound (
          elem_later b.name a.name (names_of (take k (not_failed backups))) (
            elem-names_of b k backups s later f
              (let n = rw (sound, first b later) at few in omega (arith, n))))
    ]

-- In sorted backups, the first that passed has the name of one that has none as new beside it.
pub elem-first_passed :
    (b : StoredBackup) (backups : List StoredBackup)
    → IsSorted backups
    → In b backups
    → is_passed b.verification ≡ true
    → count_of (λ a. is_passed a.verification && is_as_new a b) backups ≤ 1
    → elem b.name (to_list (first_passed backups)) ≡ true
unfolding first_passed
elem-first_passed b [] s m f few = absurd m
elem-first_passed b (a ∷ backups) (first, s) (inl same) f few =
    let e : is_passed a.verification ≡ true =
      ap (λ (c : StoredBackup). is_passed c.verification) same ∙ f in
    rw (e, ap (λ (c : StoredBackup). c.name) same) (elem_self b.name [])
elem-first_passed b (a ∷ backups) (first, s) (inr later) f few =
    let p : StoredBackup → Bool = λ a. is_passed a.verification && is_as_new a b in
    elim (Bool-cases (is_passed a.verification)) [
      | inl good ↦
          let n = rw (good, first b later) at few in
          absurd (omega (arith, n, count_of-In p b backups later (rw (f, is_as_new_self b) refl)))
      | inr other ↦
          rw other
            (elem-first_passed b backups s later f (let n = rw other at few in omega (arith, n)))
    ]
