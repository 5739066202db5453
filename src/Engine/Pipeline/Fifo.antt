-- ===== src/Engine/Pipeline/Fifo.antt =====
-- A channel of the pipeline (dbs/engine/pipeline.py) is a queue with a bound.
use mathlib.Core.Path.{subst}
use dbs.Prelude.{
  Bool-cases, List, [], ap, append_assoc, arith, false, inl, inr, refl, suc, sym, true, ℕ, ◌++◌,
  ◌+◌, ◌-◌, ◌∙◌, ◌∷◌, ◌≡◌, ◌≤◌, ◌⊎◌,
}
use dbs.Engine.Pipeline.{
  Channel, Entry, append, close_channel, done, end_mark, entry_size, get, item, must_wait, popped,
  put, is_empty,
}

module _ {ℓ} {A : Type ℓ} (size : A → ℕ) where
  -- The calls on a channel that went through while the pipeline was not stopped, with all entries
  -- that were put and all that were got.
  pub data History (capacity : ℕ) : Channel A → List (Entry A) → List (Entry A) → Type ℓ where
    begins : History capacity (record { capacity = capacity; items = []; held = 0 }) [] []
    puts :
        (a : A) (c c' : Channel A) (sent received : List (Entry A))
        → History capacity c sent received
        → put size false a c ≡ done c'
        → History capacity c' (sent ++ item a ∷ []) received
    closes :
        (c c' : Channel A) (sent received : List (Entry A))
        → History capacity c sent received
        → close_channel size false c ≡ done c'
        → History capacity c' (sent ++ end_mark ∷ []) received
    gets :
        (c c' : Channel A) (entry : Entry A) (sent received : List (Entry A))
        → History capacity c sent received
        → get size false c ≡ done (entry, c')
        → History capacity c' sent (received ++ entry ∷ [])

  abbrev pub total_size : List (Entry A) → ℕ
  total_size [] = 0
  total_size (entry ∷ entries) = entry_size size entry + total_size entries

  abbrev pub count_items : List (Entry A) → ℕ
  count_items [] = 0
  count_items (item a ∷ entries) = suc (count_items entries)
  count_items (end_mark ∷ entries) = count_items entries

  total_size-append_one :
      (entries : List (Entry A)) (entry : Entry A)
      → total_size (entries ++ entry ∷ []) ≡ total_size entries + entry_size size entry
  total_size-append_one [] entry = omega arith
  total_size-append_one (e ∷ entries) entry = omega (arith, total_size-append_one entries entry)

  count_items-append_end :
      (entries : List (Entry A)) → count_items (entries ++ end_mark ∷ []) ≡ count_items entries
  count_items-append_end [] = refl
  count_items-append_end (item a ∷ entries) = ap suc (count_items-append_end entries)
  count_items-append_end (end_mark ∷ entries) = count_items-append_end entries

  -- What holds of a channel between two calls.
  pub record IsQueue (capacity : ℕ) (c : Channel A) (sent received : List (Entry A)) : Type ℓ where
    pub limit : c.capacity ≡ capacity
    pub in_order : sent ≡ received ++ c.items
    pub measured : c.held ≡ total_size c.items
    pub bounded : (c.held ≤ capacity) ⊎ (count_items c.items ≤ 1)

  abbrev pub added : Entry A → Channel A → Channel A
  added entry c = record c { items = c.items ++ entry ∷ []; held = c.held + entry_size size entry }

  nothing_in : (entries : List (Entry A)) → is_empty entries ≡ true → entries ≡ []
  unfolding is_empty
  nothing_in [] h = refl
  nothing_in (e ∷ entries) h = cc

  may_put :
      (n : ℕ) (c : Channel A)
      → must_wait size false n c ≡ false
      → (c.items ≡ []) ⊎ (c.held + n ≤ c.capacity)
  unfolding must_wait
  may_put n c h = elim (Bool-cases (is_empty c.items)) [
    | inl empty ↦ inl (nothing_in c.items empty)
    | inr some_in ↦ inr (let k = rw some_in at h in ground (arith, k))
  ]

  -- What a put that goes through has found, and what it leaves.
  pub put-done :
      (a : A) (c c' : Channel A)
      → put size false a c ≡ done c'
      → (added (item a) c ≡ c') × ((c.items ≡ []) ⊎ (c.held + size a ≤ c.capacity))
  unfolding put append entry_size
  put-done a c c' e = elim (Bool-cases (must_wait size false (size a) c)) [
    | inl full ↦ absurd (let k = rw full at e in cc k)
    | inr room ↦ let k = rw room at e in (cc k, may_put (size a) c room)
  ]

  put-IsQueue :
      (capacity : ℕ) (a : A) (c c' : Channel A) (sent received : List (Entry A))
      → IsQueue capacity c sent received
      → put size false a c ≡ done c'
      → IsQueue capacity c' (sent ++ item a ∷ []) received
  unfolding entry_size
  put-IsQueue capacity a c c' sent received h e =
      let (same, room) = put-done a c c' e in
      subst (λ d. IsQueue capacity d (sent ++ item a ∷ []) received) same
        (record {
          limit = h.limit;
          in_order =
              ap (λ xs. xs ++ item a ∷ []) h.in_order ∙ append_assoc received c.items (item a ∷ []);
          measured = omega (arith, h.measured, total_size-append_one c.items (item a));
          bounded = elim room [
            | inl empty ↦ inr (rw empty (omega arith))
            | inr fits ↦ inl (omega (arith, h.limit))
          ];
        })

  pub closed : (c c' : Channel A) → close_channel size false c ≡ done c' → added end_mark c ≡ c'
  unfolding close_channel append entry_size
  closed c c' e = cc e

  close-IsQueue :
      (capacity : ℕ) (c c' : Channel A) (sent received : List (Entry A))
      → IsQueue capacity c sent received
      → close_channel size false c ≡ done c'
      → IsQueue capacity c' (sent ++ end_mark ∷ []) received
  unfolding close_channel append entry_size
  close-IsQueue capacity c c' sent received h e =
      subst (λ d. IsQueue capacity d (sent ++ end_mark ∷ []) received) (closed c c' e)
        (record {
          limit = h.limit;
          in_order =
              ap (λ xs. xs ++ end_mark ∷ []) h.in_order
              ∙ append_assoc received c.items (end_mark ∷ []);
          measured = omega (arith, h.measured, total_size-append_one c.items end_mark);
          bounded = elim h.bounded [
            | inl fits ↦ inl (omega arith)
            | inr single ↦ inr (rw (count_items-append_end c.items) single)
          ];
        })

  fewer :
      (entry : Entry A) (entries : List (Entry A))
      → count_items entries ≤ count_items (entry ∷ entries)
  fewer (item a) entries = omega arith
  fewer end_mark entries = omega arith

  popped-IsQueue :
      (capacity : ℕ) (items : List (Entry A)) (c c' : Channel A) (entry : Entry A)
      (sent received : List (Entry A))
      → c.items ≡ items
      → IsQueue capacity c sent received
      → popped size items c ≡ done (entry, c')
      → IsQueue capacity c' sent (received ++ entry ∷ [])
  unfolding popped
  popped-IsQueue capacity [] c c' entry sent received e h k = cc
  popped-IsQueue capacity (x ∷ items) c c' entry sent received e h k =
      let got : x ≡ entry = cc k in
      let left : record c { items = items; held = c.held - entry_size size x } ≡ c' = cc k in
      subst (λ d. IsQueue capacity d sent (received ++ entry ∷ [])) left
        (record {
          limit = h.limit;
          in_order =
              h.in_order
              ∙ ap (λ xs. received ++ xs) e
              ∙ rw got (sym (append_assoc received (entry ∷ []) items));
          measured = omega (arith, h.measured, ap total_size e);
          bounded = elim h.bounded [
            | inl fits ↦ inl (omega arith)
            | inr single ↦ inr (omega (arith, fewer x items, ap count_items e))
          ];
        })

  get-IsQueue :
      (capacity : ℕ) (c c' : Channel A) (entry : Entry A) (sent received : List (Entry A))
      → IsQueue capacity c sent received
      → get size false c ≡ done (entry, c')
      → IsQueue capacity c' sent (received ++ entry ∷ [])
  unfolding get
  get-IsQueue capacity c c' entry sent received h e =
      popped-IsQueue capacity c.items c c' entry sent received refl h e

  -- A channel gives what was put into it, in that order and up to what it still holds, and it
  -- never holds more bytes than its capacity, but for a single item that is larger.
  pub History-IsQueue :
      {capacity : ℕ} {c : Channel A} {sent received : List (Entry A)}
      → History capacity c sent received
      → IsQueue capacity c sent received
  History-IsQueue begins = record {
    limit = refl;
    in_order = refl;
    measured = refl;
    bounded = inl (omega arith);
  }
  History-IsQueue {capacity = capacity} (puts a c c' sent received past e) =
      put-IsQueue capacity a c c' sent received (History-IsQueue past) e
  History-IsQueue {capacity = capacity} (closes c c' sent received past e) =
      close-IsQueue capacity c c' sent received (History-IsQueue past) e
  History-IsQueue {capacity = capacity} (gets c c' entry sent received past e) =
      get-IsQueue capacity c c' entry sent received (History-IsQueue past) e
