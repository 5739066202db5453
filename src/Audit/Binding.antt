-- ===== src/Audit/Binding.antt =====
-- What the last hash of an intact chain (dbs/audit.py) vouches for.
use dbs.Prelude.{
  Bool-cases, List, [], ap, ap₂, arith, drop, drop-append_of_length, inl, inr, length, none, refl,
  sym, take, take-append_of_length, true, ℕ, ◌++◌, ◌+◌, ◌∙◌, ◌∷◌, ◌≡◌, ◌≢◌, ◌⊎◌,
}
use dbs.Audit.{AuditEvent, Body, ChainCheck, Trail, canonical, link, sealed_events, verify_chain}
use dbs.Audit.Links.{Links, Links-verify_chain, head_of, verify_chain-Links}
use dbs.Audit.Operations.{start}
use dbs.Text.{Text, elem, elem_self, text_eq, text_eq_refl, text_eq_sound}

append_cancel : (p q a b : Text) → length p ≡ length q → p ++ a ≡ q ++ b → (p ≡ q) × (a ≡ b)
append_cancel p q a b l e = (
  sym (take-append_of_length (length q) p a l)
      ∙ ap (take (length q)) e
      ∙ take-append_of_length (length q) q b refl,
  sym (drop-append_of_length (length q) p a l)
      ∙ ap (drop (length q)) e
      ∙ drop-append_of_length (length q) q b refl,
)

-- Two different texts with the same hash, one from each list.
abbrev pub Collision : (Text → Text) → List Text → List Text → Type 0
Collision sha256 xs ys =
    (s : Text) × (t : Text) × (elem s xs ≡ true)
    × (elem t ys ≡ true)
    × (s ≢ t)
    × (sha256 s ≡ sha256 t)

elem_later : (s t : Text) (ts : List Text) → elem s ts ≡ true → elem s (t ∷ ts) ≡ true
unfolding elem
elem_later s t ts h = ground arith

Collision-later :
    (sha256 : Text → Text) (s t : Text) (xs ys : List Text)
    → Collision sha256 xs ys
    → Collision sha256 (s ∷ xs) (t ∷ ys)
Collision-later sha256 s t xs ys (u, v, m, n, d, e) =
    (u, v, elem_later u s xs m, elem_later v t ys n, d, e)

collide :
    (sha256 : Text → Text) (s t : Text) (xs ys : List Text)
    → sha256 s ≡ sha256 t
    → (s ≡ t) ⊎ Collision sha256 (s ∷ xs) (t ∷ ys)
collide sha256 s t xs ys e = elim (Bool-cases (text_eq s t)) [
  | inl same ↦ inl (text_eq_sound s t same)
  | inr other ↦ inr (
    s,
    t,
    elem_self s xs,
    elem_self t ys,
    (λ k. absurd (cc (other, ap (text_eq s) k, text_eq_refl s))),
    e,
  )
]

module _ (sha256 : Text → Text) (dumps : Body → Text) where
  -- The texts of the events, in the order of the chain.
  abbrev pub texts_of : List AuditEvent → List Text
  texts_of [] = []
  texts_of (event ∷ events) = canonical sha256 dumps event ∷ texts_of events

  -- The texts that are hashed when the chain is verified.
  abbrev pub hashed : Text → List AuditEvent → List Text
  hashed previous [] = []
  hashed previous (event ∷ events) =
      (previous ++ canonical sha256 dumps event) ∷ hashed event.chain_hash events

  Links-binding :
      (xs ys : List AuditEvent) (p q : Text) (i : ℕ)
      → ((t : Text) → length (sha256 t) ≡ 64)
      → length p ≡ length q
      → length xs ≡ length ys
      → Links sha256 dumps p i xs
      → Links sha256 dumps q i ys
      → head_of p xs ≡ head_of q ys
      → ((p ≡ q) × (texts_of xs ≡ texts_of ys)) ⊎ Collision sha256 (hashed p xs) (hashed q ys)
  unfolding head_of link
  Links-binding [] [] p q i wide l n h k e = inl (e, refl)
  Links-binding [] (y ∷ ys) p q i wide l n h k e = absurd (omega arith)
  Links-binding (x ∷ xs) [] p q i wide l n h k e = absurd (omega arith)
  Links-binding (x ∷ xs) (y ∷ ys) p q i wide l n (a, b, h) (c, d, k) e =
      let cx = canonical sha256 dumps x in
      let cy = canonical sha256 dumps y in
      let same_size = ap length (sym b) ∙ wide (p ++ cx) ∙ sym (wide (q ++ cy)) ∙ ap length d in
      let ih =
        Links-binding xs ys x.chain_hash y.chain_hash (i + 1) wide same_size (omega (arith, n)) h k
          e in
      elim ih [
        | inr found ↦ inr (
            Collision-later sha256 (p ++ cx) (q ++ cy) (hashed x.chain_hash xs)
              (hashed y.chain_hash ys) found)
        | inl (hashes, rest) ↦
            elim (collide sha256 (p ++ cx) (q ++ cy) (hashed x.chain_hash xs)
              (hashed y.chain_hash ys) (b ∙ hashes ∙ sym d)) [
                | inr found ↦ inr found
                | inl same ↦
                    let (heads, first) = append_cancel p q cx cy l same in
                    inl (heads, ap₂ ◌∷◌ first rest)
              ]
      ]

  -- If two trails check as intact with the same number of links and the same last hash, then the
  -- texts of their sealed events are the same, one by one, or among the texts that are hashed to
  -- verify the one and the other there are two different ones with the same hash. Hashes are 64
  -- characters long.
  pub verify_chain-binding :
      (trail trail' : Trail)
      → ((t : Text) → length (sha256 t) ≡ 64)
      → (verify_chain sha256 dumps trail).broken_at ≡ none
      → (verify_chain sha256 dumps trail').broken_at ≡ none
      → (verify_chain sha256 dumps trail).checked ≡ (verify_chain sha256 dumps trail').checked
      → (verify_chain sha256 dumps trail).head ≡ (verify_chain sha256 dumps trail').head
      → (texts_of (sealed_events trail.rows) ≡ texts_of (sealed_events trail'.rows))
        ⊎ Collision sha256
            (hashed [] (sealed_events trail.rows))
            (hashed [] (sealed_events trail'.rows))
  verify_chain-binding trail trail' wide h h' n e =
      let k = Links-verify_chain sha256 dumps trail h in
      let k' = Links-verify_chain sha256 dumps trail' h' in
      let check = verify_chain-Links sha256 dumps trail k in
      let check' = verify_chain-Links sha256 dumps trail' k' in
      let lengths =
        sym (ap (λ (c : ChainCheck). c.checked) check)
        ∙ n
        ∙ ap (λ (c : ChainCheck). c.checked) check' in
      let heads =
        sym (ap (λ (c : ChainCheck). c.head) check) ∙ e ∙ ap (λ (c : ChainCheck). c.head) check' in
      elim (Links-binding (sealed_events trail.rows) (sealed_events trail'.rows) [] [] 1 wide refl
        lengths k k' heads) [ inl (start, texts) ↦ inl texts | inr found ↦ inr found ]
