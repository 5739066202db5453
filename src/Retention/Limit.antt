-- ===== src/Retention/Limit.antt =====
-- The hard limit of a retention run, `stale_beyond_limit` (dbs/retention.py).
use mathlib.Core.List.{reverse, reverse-append}
use dbs.Prelude.{
  Bool-cases, List, [], ap, append-nil, arith, false, inl, inr, length, length-append, not, refl,
  sym, true, ℕ, ◌&&◌, ◌++◌, ◌+◌, ◌-◌, ◌==◌, ◌∙◌, ◌∷◌, ◌≡◌, ◌≤◌, ◌⊎◌,
}
use dbs.Result.{ok}
use dbs.Retention.{
  drop_surplus, those_in, without, StoredBackup, first_passed, kept_names, names_of, newest_first,
  stale_beyond_limit, stale_from, stale_stored_backups, truthy,
}
use dbs.Retention.Kept.{Keeps}
use dbs.Text.{Text, elem, text_eq, text_eq_sound, elem_cons_of_ne, elem_self}

elem-without :
    (name : Text) (names others : List Text)
    → elem name (without names others) ≡ elem name names && not (elem name others)
unfolding without elem
elem-without name [] others = refl
elem-without name (n ∷ names) others = elim (Bool-cases (text_eq n name)) [
  | inl same ↦
      let e : elem n others ≡ elem name others =
        ap (λ k. elem k others) (text_eq_sound n name same) in
      ground (arith, e, elem-without name names others)
  | inr other ↦ ground (arith, elem-without name names others)
]

elem-those_in :
    (name : Text) (names others : List Text)
    → elem name (those_in names others) ≡ elem name names && elem name others
unfolding those_in elem
elem-those_in name [] others = refl
elem-those_in name (n ∷ names) others = elim (Bool-cases (text_eq n name)) [
  | inl same ↦
      let e : elem n others ≡ elem name others =
        ap (λ k. elem k others) (text_eq_sound n name same) in
      ground (arith, e, elem-those_in name names others)
  | inr other ↦ ground (arith, elem-those_in name names others)
]

drop_surplus-protected :
    (protected : List Text) (surplus : ℕ) (stale names : List Text) (name : Text)
    → elem name protected ≡ true
    → Keeps name stale
    → Keeps name (drop_surplus protected surplus stale names)
unfolding drop_surplus
drop_surplus-protected protected surplus stale [] name p k = k
drop_surplus-protected protected surplus stale (n ∷ names) name p k =
    elim (Bool-cases (surplus == 0)) [
      | inl done ↦ rw (done, drop_surplus) k
      | inr more ↦ elim (Bool-cases (elem n protected)) [
        | inl safe ↦
            rw (more, drop_surplus, safe)
              (drop_surplus-protected protected surplus stale names name p k)
        | inr loose ↦
            rw (more, drop_surplus, loose)
              (drop_surplus-protected protected (surplus - 1) (n ∷ stale) names name p
                (fresh loose))
      ]
    ]
  where
    fresh : elem n protected ≡ false → Keeps name (n ∷ stale)
    fresh loose = elem_cons_of_ne name n stale protected p loose ∙ k

-- What was to go before the surplus is dropped still goes.
drop_surplus-grows :
    (protected : List Text) (surplus : ℕ) (stale names : List Text) (name : Text)
    → elem name stale ≡ true
    → elem name (drop_surplus protected surplus stale names) ≡ true
unfolding drop_surplus
drop_surplus-grows protected surplus stale [] name h = h
drop_surplus-grows protected surplus stale (n ∷ names) name h = ground (
  arith,
  drop_surplus-grows protected surplus stale names name h,
  drop_surplus-grows protected (surplus - 1) (n ∷ stale) names name
      (unfold elem in ground (arith, h)),
)

length-without-le : (names others : List Text) → length (without names others) ≤ length names
unfolding without
length-without-le [] others = omega arith
length-without-le (n ∷ names) others = ground (arith, length-without-le names others)

-- All names are protected.
abbrev pub AllIn : List Text → List Text → Type 0
AllIn protected [] = Unit
AllIn protected (n ∷ names) = (elem n protected ≡ true) × AllIn protected names

-- Of the names, at least `surplus` are in `gone`, or all the others are protected.
abbrev pub IsEnough : List Text → ℕ → List Text → List Text → Type 0
IsEnough protected surplus names gone =
    (length (without names gone) + surplus ≤ length names) ⊎ AllIn protected (without names gone)

IsEnough-safe :
    (protected : List Text) (surplus : ℕ) (names gone : List Text) (n : Text)
    → elem n protected ≡ true
    → IsEnough protected surplus names gone
    → IsEnough protected surplus (n ∷ names) gone
unfolding without
IsEnough-safe protected surplus names gone n safe (inl h) = inl (ground (arith, h))
IsEnough-safe protected surplus names gone n safe (inr h) = elim (Bool-cases (elem n gone)) [
  | inl out ↦ inr (rw out h)
  | inr stays ↦ inr (rw stays (safe, h))
]

IsEnough-dropped :
    (protected : List Text) (surplus : ℕ) (names gone : List Text) (n : Text)
    → elem n gone ≡ true
    → IsEnough protected (surplus - 1) names gone
    → IsEnough protected surplus (n ∷ names) gone
unfolding without
IsEnough-dropped protected surplus names gone n out (inl h) = inl (rw out (omega (arith, h)))
IsEnough-dropped protected surplus names gone n out (inr h) = inr (rw out h)

drop_surplus-IsEnough :
    (protected : List Text) (surplus : ℕ) (stale names : List Text)
    → IsEnough protected surplus names (drop_surplus protected surplus stale names)
unfolding drop_surplus without
drop_surplus-IsEnough protected surplus stale [] = inr tt
drop_surplus-IsEnough protected surplus stale (n ∷ names) = elim (Bool-cases (surplus == 0)) [
  | inl done ↦
      let z : surplus ≡ 0 = ground (arith, done) in
      let le = length-without-le (n ∷ names) stale in
      inl (rw (done, drop_surplus) (omega (arith, le, z)))
  | inr more ↦ elim (Bool-cases (elem n protected)) [
    | inl safe ↦
        rw (more, drop_surplus, safe)
          (IsEnough-safe protected surplus names (drop_surplus protected surplus stale names) n safe
            (drop_surplus-IsEnough protected surplus stale names))
    | inr loose ↦
        let gone = drop_surplus protected (surplus - 1) (n ∷ stale) names in
        rw (more, drop_surplus, loose)
          (IsEnough-dropped protected surplus names gone n
            (drop_surplus-grows protected (surplus - 1) (n ∷ stale) names n (elem_self n stale))
            (drop_surplus-IsEnough protected (surplus - 1) (n ∷ stale) names))
  ]
]

-- Taking out fewer names first changes nothing.
without-without :
    (names few many : List Text)
    → ((name : Text) → elem name few ≡ true → elem name many ≡ true)
    → without (without names few) many ≡ without names many
unfolding without
without-without [] few many h = refl
without-without (n ∷ names) few many h = elim (Bool-cases (elem n few)) [
  | inl out ↦ rw (out, h n out) (without-without names few many h)
  | inr stays ↦ rw stays (rw (without-without names few many h) refl)
]

without-append :
    (xs ys others : List Text) → without (xs ++ ys) others ≡ without xs others ++ without ys others
unfolding without
without-append [] ys others = refl
without-append (x ∷ xs) ys others = ground (arith, without-append xs ys others)

without-reverse :
    (xs others : List Text) → without (reverse xs) others ≡ reverse (without xs others)
unfolding without
without-reverse [] others = refl
without-reverse (x ∷ xs) others =
    rw
      (
        reverse-append (x ∷ []) xs,
        without-append (reverse xs) (x ∷ []) others,
        without-reverse xs others,
      )
      (elim (Bool-cases (elem x others)) [
        | inl out ↦ rw (out, append-nil (reverse (without xs others)))
        | inr stays ↦ rw stays (sym (reverse-append (x ∷ []) (without xs others)))
      ])

length-reverse : (xs : List Text) → length (reverse xs) ≡ length xs
length-reverse [] = refl
length-reverse (x ∷ xs) =
    rw (reverse-append (x ∷ []) xs, length-append (reverse xs) (x ∷ []))
      (omega (arith, length-reverse xs))

without-those_in :
    (names all : List Text) (others : List Text)
    → ((name : Text) → elem name names ≡ true → elem name all ≡ true)
    → (gone : List Text) → ((name : Text) → elem name gone ≡ elem name all && elem name others)
    → without names gone ≡ without names others
unfolding without elem
without-those_in [] all others inside gone e = refl
without-those_in (n ∷ names) all others inside gone e =
    let here = e n ∙ ap (λ b. b && elem n others) (inside n (elem_self n names)) in
    let rest =
      without-those_in names all others (λ name h. inside name (ground (arith, h))) gone e in
    rw (here, rest)

-- The parts of a run of the hard limit, which refuses nothing else.
module _ (backups : List StoredBackup) (keep : ℕ) (protect : List Text) where
  abbrev shielded : List Text
  shielded = protect ++ truthy (first_passed (newest_first backups))

  abbrev old_names : List Text
  old_names =
      reverse (stale_from keep 0 (kept_names keep (newest_first backups)) (newest_first backups))

  abbrev first_stale : List Text
  first_stale = without old_names shielded

  abbrev remaining : List Text
  remaining = without (names_of (newest_first backups)) first_stale

  abbrev gone : List Text
  gone = drop_surplus shielded (length remaining - keep) first_stale (reverse remaining)

  stale_beyond_limit-eq :
      1 ≤ keep
      → stale_beyond_limit backups keep protect
        ≡ ok (those_in (reverse (names_of (newest_first backups))) gone)
  unfolding stale_beyond_limit stale_stored_backups
  stale_beyond_limit-eq h = ground arith

  -- The hard limit, with a positive `keep`, removes neither a name it is told to protect nor the
  -- newest backup that passed verification, when that one's name is not empty.
  pub stale_beyond_limit-Keeps :
      (name : Text)
      → 1 ≤ keep
      → elem name (protect ++ truthy (first_passed (newest_first backups))) ≡ true
      → (stale : List Text) × (stale_beyond_limit backups keep protect ≡ ok stale)
        × Keeps name stale
  stale_beyond_limit-Keeps name h safe =
      let start : Keeps name first_stale =
        elem-without name old_names shielded ∙ ground (arith, safe) in
      (
        those_in (reverse (names_of (newest_first backups))) gone,
        stale_beyond_limit-eq h,
        elem-those_in name (reverse (names_of (newest_first backups))) gone
            ∙ ground (
              arith,
              drop_surplus-protected shielded (length remaining - keep) first_stale
                  (reverse remaining) name safe start,
            ),
      )

  -- After the hard limit, with a positive `keep`, at most `keep` backups are left, or every one
  -- that is left is protected: named by the caller, or the newest that passed verification.
  pub stale_beyond_limit-IsEnough :
      1 ≤ keep
      → (stale : List Text) × (stale_beyond_limit backups keep protect ≡ ok stale)
        × (let left = without (reverse (names_of (newest_first backups))) stale in
            (length left ≤ keep)
            ⊎ AllIn (protect ++ truthy (first_passed (newest_first backups))) left)
  stale_beyond_limit-IsEnough h = (
    those_in (reverse (names_of (newest_first backups))) gone,
    stale_beyond_limit-eq h,
    rw
        (
          without-those_in names names gone (λ name i. i) (those_in names gone)
              (λ name. elem-those_in name names gone),
          ← same,
        )
        (elim (drop_surplus-IsEnough shielded (length remaining - keep) first_stale
          (reverse remaining)) [
            | inl few ↦ inl (omega (arith, few, length-reverse remaining))
            | inr safe ↦ inr safe
          ]),
  )
    where
      names : List Text
      names = reverse (names_of (newest_first backups))

      same : without (reverse remaining) gone ≡ without names gone
      same =
          without-reverse remaining gone
          ∙ ap reverse (
              without-without (names_of (newest_first backups)) first_stale gone (
                drop_surplus-grows shielded (length remaining - keep) first_stale
                  (reverse remaining)))
          ∙ sym (without-reverse (names_of (newest_first backups)) gone)
