-- ===== src/Leases/Exclusive.antt =====
-- A lease has one holder until it expires (dbs/leases.py).
use dbs.Prelude.{
  Bool, Bool-cases, List, Option-cases, [], ap, arith, false, if◌then◌else◌, inl, inr, leb, ltb,
  refl, some, true, ℕ, ◌+◌, ◌<◌, ◌||◌, ◌∙◌, ◌∷◌, ◌≡◌, ◌≤◌,
}
use dbs.Leases.{
  Lease, Table, put, row_of, delete, ensure, update, Operation, acquire, acquiring, drop_lease,
  dropping, owner_of, perform, perform_all, release, releasing, renew, renewing, holder,
}
use dbs.Text.{Text, text_eq, text_eq_sound, text_eq_euclidean, text_eq_refl}

different : (s t u : Text) → text_eq s u ≡ true → text_eq s t ≡ false → text_eq t u ≡ false
different s t u h k = elim (Bool-cases (text_eq t u)) [
  | inl same ↦ cc (text_eq_euclidean s t u h same, k)
  | inr other ↦ other
]

row_of-put :
    (name n : Text) (lease : Lease) (table : Table)
    → row_of name (put n lease table) ≡ (if text_eq n name then some lease else row_of name table)
unfolding row_of put
row_of-put name n lease [] = refl
row_of-put name n lease ((m, old) ∷ table) = elim (Bool-cases (text_eq m n)) [
  | inl same ↦
      let e : text_eq m name ≡ text_eq n name = ap (λ k. text_eq k name) (text_eq_sound m n same) in
      ground (arith, e)
  | inr other ↦ elim (Bool-cases (text_eq m name)) [
    | inl here ↦
        let e : text_eq n name ≡ false = different m n name here other in rw (other, here, e) refl
    | inr there ↦ rw (other, there) (row_of-put name n lease table)
  ]
]

row_of-delete :
    (name n : Text) (table : Table)
    → text_eq n name ≡ false
    → row_of name (delete n table) ≡ row_of name table
unfolding row_of delete
row_of-delete name n [] other = refl
row_of-delete name n ((m, lease) ∷ table) other = elim (Bool-cases (text_eq m n)) [
  | inl same ↦
      let e : text_eq m name ≡ false = ap (λ k. text_eq k name) (text_eq_sound m n same) ∙ other in
      rw (same, e) (row_of-delete name n table other)
  | inr stays ↦ rw (stays, row_of-delete name n table other) refl
]

-- The row of `name` is held by `owner`, and does not expire before `until`.
abbrev pub Held : Text → Text → ℕ → Table → Type 0
Held name owner until table =
    (lease : Lease) × (row_of name table ≡ some lease)
    × (lease.owner ≡ owner)
    × (until ≤ lease.expires_at)

module _ (name owner : Text) (until : ℕ) where
  -- A row of another name may change.
  put-Held :
      (n : Text) (lease : Lease) (table : Table)
      → text_eq n name ≡ false
      → Held name owner until table
      → Held name owner until (put n lease table)
  put-Held n lease table other (held, e, o, u) =
      (held, row_of-put name n lease table ∙ rw other e, o, u)

  delete-Held :
      (n : Text) (table : Table)
      → text_eq n name ≡ false
      → Held name owner until table
      → Held name owner until (delete n table)
  delete-Held n table other (held, e, o, u) = (held, row_of-delete name n table other ∙ e, o, u)

  -- An update under a condition that the holder's row does not meet.
  update-Held :
      (n : Text) (condition : Lease → Bool) (change : Lease → Lease) (table : Table)
      → ((lease : Lease) → lease.owner ≡ owner → until ≤ lease.expires_at → condition lease ≡ false)
      → Held name owner until table
      → Held name owner until (update n condition change table).0
  unfolding update
  update-Held n condition change table refuses (held, e, o, u) =
      elim (Bool-cases (text_eq n name)) [
        | inl same ↦
            let r : row_of n table ≡ some held =
              ap (λ k. row_of k table) (text_eq_sound n name same) ∙ e in
            let f : condition held ≡ false = refuses held o u in rw (r, update, f) (held, e, o, u)
        | inr other ↦ elim (Option-cases (row_of n table)) [
          | inl absent ↦ rw (absent, update) (held, e, o, u)
          | inr (lease, present) ↦ elim (Bool-cases (condition lease)) [
            | inl meets ↦
                rw (present, update, meets) (put-Held n (change lease) table other (held, e, o, u))
            | inr fails ↦ rw (present, update, fails) (held, e, o, u)
          ]
        ]
      ]

  ensure-Held :
      (n : Text) (now : ℕ) (table : Table)
      → Held name owner until table
      → Held name owner until (ensure n now table)
  unfolding ensure
  ensure-Held n now table (held, e, o, u) = elim (Option-cases (row_of n table)) [
    | inr (lease, present) ↦ rw (present, ensure) (held, e, o, u)
    | inl absent ↦ elim (Bool-cases (text_eq n name)) [
      | inl same ↦ absurd (cc (ap (λ k. row_of k table) (text_eq_sound n name same) ∙ e, absent))
      | inr other ↦ rw (absent, ensure) (put-Held n _ table other (held, e, o, u))
    ]
  ]

  perform-Held :
      (operation : Operation) (now : ℕ) (table : Table)
      → now < until
      → text_eq owner (owner_of operation) ≡ false
      → Held name owner until table
      → Held name owner until (perform operation now table)
  unfolding perform acquire renew release drop_lease
  perform-Held (acquiring n b ttl_seconds) now table early other h =
      update-Held n _ _ (ensure n now table)
        (λ lease o u.
          let e : text_eq lease.owner b ≡ false = ap (λ k. text_eq k b) o ∙ other in
          rw e (ground (arith, u, early)))
        (ensure-Held n now table h)
  perform-Held (renewing n b ttl_seconds) now table early other h =
      update-Held n _ _ table (λ lease o u. ap (λ k. text_eq k b) o ∙ other) h
  perform-Held (releasing n b) now table early other h =
      update-Held n _ _ table (λ lease o u. ap (λ k. text_eq k b) o ∙ other) h
  perform-Held (dropping n b) now table early other (held, e, o, u) =
      elim (Option-cases (row_of n table)) [
        | inl absent ↦ rw (absent, perform, drop_lease) (held, e, o, u)
        | inr (lease, present) ↦ elim (Bool-cases (text_eq lease.owner b)) [
          | inr owned ↦ rw (present, perform, drop_lease, owned) (held, e, o, u)
          | inl owned ↦ elim (Bool-cases (text_eq n name)) [
            | inr elsewhere ↦
                rw (present, perform, drop_lease, owned)
                  (delete-Held n table elsewhere (held, e, o, u))
            | inl here ↦
                let r : row_of n table ≡ some held =
                  ap (λ k. row_of k table) (text_eq_sound n name here) ∙ e in
                let f : text_eq held.owner b ≡ false = ap (λ k. text_eq k b) o ∙ other in
                rw (r, perform, drop_lease, f) (held, e, o, u)
          ]
        ]
      ]

-- The operations are of other owners, at times before `until`.
abbrev pub AllOthers : Text → ℕ → List (ℕ × Operation) → Type 0
AllOthers owner until [] = Unit
AllOthers owner until ((now, operation) ∷ operations) =
    (now < until) × (text_eq owner (owner_of operation) ≡ false) × AllOthers owner until operations

perform_all-Held :
    (name owner : Text) (until : ℕ) (operations : List (ℕ × Operation)) (table : Table)
    → AllOthers owner until operations
    → Held name owner until table
    → Held name owner until (perform_all operations table)
unfolding perform_all
perform_all-Held name owner until [] table others h = h
perform_all-Held name owner until ((now, operation) ∷ operations) table (early, other, others) h =
    perform_all-Held name owner until operations (perform operation now table) others
      (perform-Held name owner until operation now table early other h)

-- An update that finds its row writes it.
update_found :
    (name : Text) (condition : Lease → Bool) (change : Lease → Lease) (table : Table)
    → (update name condition change table).1 ≡ true
    → (lease : Lease) × ((update name condition change table).0 ≡ put name (change lease) table)
unfolding update
update_found name condition change table got = elim (Option-cases (row_of name table)) [
  | inl absent ↦ absurd (let e = rw (absent, update) at got in cc e)
  | inr (lease, present) ↦ elim (Bool-cases (condition lease)) [
    | inl meets ↦ (lease, rw (present, update, meets) refl)
    | inr fails ↦ absurd (let e = rw (present, update, fails) at got in cc e)
  ]
]

acquire-Held :
    (name owner : Text) (ttl_seconds now : ℕ) (table : Table)
    → (acquire name owner ttl_seconds now table).1 ≡ true
    → Held name owner (now + ttl_seconds) (acquire name owner ttl_seconds now table).0
unfolding acquire
acquire-Held name owner ttl_seconds now table got =
    let (lease, e) =
      update_found name (λ lease. leb lease.expires_at now || text_eq lease.owner owner)
        (λ lease. record { owner = owner; expires_at = now + ttl_seconds; renewed_at = now })
        (ensure name now table) got in
    (
      record { owner = owner; expires_at = now + ttl_seconds; renewed_at = now },
      ap (row_of name) e
          ∙ row_of-put name name _ (ensure name now table)
          ∙ rw (text_eq_refl name) refl,
      refl,
      omega arith,
    )

Held-holder :
    (name owner : Text) (until now : ℕ) (table : Table)
    → text_eq owner [] ≡ false
    → now < until
    → Held name owner until table
    → (lease : Lease) × (holder name now table ≡ some lease) × (lease.owner ≡ owner)
unfolding holder
Held-holder name owner until now table nonempty early (held, e, o, u) =
    let f : text_eq held.owner [] ≡ false = ap (λ k. text_eq k []) o ∙ nonempty in
    let t : ltb now held.expires_at ≡ true = ground (arith, early, u) in
    (held, rw (holder, e, t, f) refl, o)

Held-refuses :
    (name owner other : Text) (until ttl_seconds now : ℕ) (table : Table)
    → text_eq owner other ≡ false
    → now < until
    → Held name owner until table
    → (acquire name other ttl_seconds now table).1 ≡ false
unfolding acquire ensure update
Held-refuses name owner other until ttl_seconds now table differs early (held, e, o, u) =
    let f : text_eq held.owner other ≡ false = ap (λ k. text_eq k other) o ∙ differs in
    let t : leb held.expires_at now ≡ false = ground (arith, early, u) in
    rw (acquire, ensure, e, update, e, t, f) refl

-- A process that acquires a lease under a name that is not empty is its holder until the time is
-- over, whatever the other processes do to the table before then; and until then no other
-- process can acquire the lease.
pub acquire-exclusive :
    (name owner other : Text) (ttl_seconds ttl start now : ℕ) (table : Table)
    (operations : List (ℕ × Operation))
    → text_eq owner [] ≡ false
    → text_eq owner other ≡ false
    → (acquire name owner ttl_seconds start table).1 ≡ true
    → AllOthers owner (start + ttl_seconds) operations
    → now < start + ttl_seconds
    → let later = perform_all operations (acquire name owner ttl_seconds start table).0 in
      ((lease : Lease) × (holder name now later ≡ some lease) × (lease.owner ≡ owner))
      × ((acquire name other ttl now later).1 ≡ false)
acquire-exclusive name owner other ttl_seconds ttl start now table operations nonempty differs got
      others early =
    (
      Held-holder name owner (start + ttl_seconds) now later nonempty early held,
      Held-refuses name owner other (start + ttl_seconds) ttl now later differs early held,
    )
  where
    later : Table
    later = perform_all operations (acquire name owner ttl_seconds start table).0

    held : Held name owner (start + ttl_seconds) later
    held =
        perform_all-Held name owner (start + ttl_seconds) operations
          (acquire name owner ttl_seconds start table).0 others
          (acquire-Held name owner ttl_seconds start table got)
