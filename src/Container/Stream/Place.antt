-- ===== src/Container/Stream/Place.antt =====
-- The order in which a writer emits the two copies of each slot (`_emit`, `_place` and the drain
-- of `close`, dbs/container/stream.py).
use dbs.Prelude.{
  Bool-cases, List, [], ap, append-nil, append_assoc, arith, drop, drop_append_of_length-le,
  drop_of_length-le, false, get_or, get_or-append, get_or-append_of_lt, if◌then◌else◌, inl, inr,
  leb, length, length-append, length-drop, ltb, lt→ltb, refl, suc, sym, true, zero, ℕ, ◌++◌, ◌+◌,
  ◌-◌, ◌<◌, ◌∙◌, ◌∷◌, ◌≡◌, ◌≤◌,
}
use dbs.Container.Stream.Layout.{slot_tag_size}
use dbs.Container.Stream.Schedule.{Placed, schedule_rounds, schedule}

abbrev pub Slot : Type 0
Slot = List ℕ

-- What `_emit` and `_place` touch of a `StreamWriter`: the bytes written to the sink, in the pieces
-- they are written in, the container's size so far, the tags that the digest was fed, and the
-- slots that wait for their second copy.
pub record Output : Type 0 where
  pub sink : List (List ℕ)
  pub container_bytes : ℕ
  pub tags : List (List ℕ)
  pub window : List Slot

-- The running SHA-256 of the output is a function of the sink.
unfoldable pub emit : List ℕ → Output → Output
emit piece o = record o {
  sink = o.sink ++ piece ∷ [];
  container_bytes = o.container_bytes + length piece;
}

-- `slot[-SLOT_TAG_SIZE:]`
unfoldable pub tag_of : Slot → List ℕ
tag_of slot = drop (length slot - slot_tag_size) slot

-- `self._emit(self._window.popleft())`
unfoldable pub emit_oldest : List Slot → Output → Output
unfolding emit
emit_oldest [] o = o
emit_oldest (oldest ∷ window) o = emit oldest (record o { window = window })

unfoldable pub place : ℕ → Slot → Output → Output
unfolding emit tag_of emit_oldest
place interleave slot o =
    let sent = emit slot o in
    let kept = record sent {
      tags = sent.tags ++ tag_of slot ∷ [];
      window = sent.window ++ slot ∷ [];
    } in
    if ltb interleave (length kept.window) then emit_oldest kept.window kept else kept

unfoldable pub place_all : ℕ → List Slot → Output → Output
place_all interleave [] o = o
place_all interleave (slot ∷ slots) o = place_all interleave slots (place interleave slot o)

-- `while self._window: self._emit(self._window.popleft())`
unfoldable pub drain_rounds : List Slot → Output → Output
unfolding emit
drain_rounds [] o = o
drain_rounds (oldest ∷ window) o = drain_rounds window (emit oldest (record o { window = window }))

unfoldable pub drain : Output → Output
unfolding drain_rounds
drain o = drain_rounds o.window o

-- the slots that a schedule names, in its order
abbrev pub named : List Slot → List Placed → List Slot
named slots [] = []
named slots (e ∷ entries) = get_or slots e.index [] ∷ named slots entries

sink-drain_rounds :
    (window : List Slot) (o : Output) → (drain_rounds window o).sink ≡ o.sink ++ window
unfolding drain_rounds emit
sink-drain_rounds [] o = sym (append-nil o.sink)
sink-drain_rounds (slot ∷ window) o =
    sink-drain_rounds window (emit slot (record o { window = window }))
    ∙ append_assoc o.sink (slot ∷ []) window

drop-get_or :
    (n : ℕ) (slots : List Slot)
    → n < length slots
    → drop n slots ≡ get_or slots n [] ∷ drop (n + 1) slots
drop-get_or n [] h = absurd (omega arith)
drop-get_or zero (s ∷ slots) h = refl
drop-get_or (suc n) (s ∷ slots) h =
    let e : suc n + 1 ≡ suc (n + 1) = omega arith in rw e (drop-get_or n slots (omega arith))

-- After the last slot the schedule names the slots of the window.
named-schedule_tail :
    (n interleave step position : ℕ) (slots : List Slot)
    → step + n ≡ length slots + interleave
    → length slots ≤ step
    → named slots (schedule_rounds n (length slots) interleave step position)
      ≡ drop (step - interleave) slots
unfolding schedule_rounds
named-schedule_tail zero interleave step position slots e h =
    sym (drop_of_length-le (step - interleave) slots (omega arith))
named-schedule_tail (suc n) interleave step position slots e h =
    let late : ltb step (length slots) ≡ false = ground arith in
    elim (Bool-cases (leb interleave step)) [
      | inl due ↦
          let next : step + 1 - interleave ≡ step - interleave + 1 = ground arith in
          simp (late, due)
            (ap (◌∷◌ (get_or slots (step - interleave) [])) (
                named-schedule_tail n interleave (step + 1) (position + 1) slots (omega arith)
                  (omega arith)
                ∙ ap (λ k. drop k slots) next)
              ∙ sym (drop-get_or (step - interleave) slots (ground arith)))
      | inr early ↦
          let same : step + 1 - interleave ≡ step - interleave = ground arith in
          simp (late, early)
            (named-schedule_tail n interleave (step + 1) position slots (omega arith) (omega arith)
              ∙ ap (λ k. drop k slots) same)
    ]

-- What `place` adds to the sink when it is given the slot of number `step`.
placed_at : ℕ → ℕ → List Slot → Slot → List Slot
placed_at interleave step before slot =
    slot
    ∷ (if leb interleave step then get_or (before ++ slot ∷ []) (step - interleave) [] ∷ [] else [])

place_full :
    (interleave : ℕ) (slot oldest : Slot) (others : List Slot) (o : Output)
    → o.window ++ slot ∷ [] ≡ oldest ∷ others
    → interleave < length (oldest ∷ others)
    → ((place interleave slot o).window ≡ others)
      × ((place interleave slot o).sink ≡ o.sink ++ slot ∷ oldest ∷ [])
unfolding place
place_full interleave slot oldest others o w h =
    let full : ltb interleave (length (oldest ∷ others)) ≡ true = lt→ltb _ _ h in
    simp (w, full) (refl, append_assoc o.sink (slot ∷ []) (oldest ∷ []))

place_waits :
    (interleave : ℕ) (slot : Slot) (o : Output)
    → length (o.window ++ slot ∷ []) ≤ interleave
    → ((place interleave slot o).window ≡ o.window ++ slot ∷ [])
      × ((place interleave slot o).sink ≡ o.sink ++ slot ∷ [])
unfolding place
place_waits interleave slot o h =
    let room : ltb interleave (length (o.window ++ slot ∷ [])) ≡ false = ground arith in
    simp room (refl, refl)

place-window :
    (interleave : ℕ) (before : List Slot) (slot : Slot) (o : Output)
    → o.window ≡ drop (length before - interleave) before
    → ((place interleave slot o).window
        ≡ drop (length (before ++ slot ∷ []) - interleave) (before ++ slot ∷ []))
      × ((place interleave slot o).sink
          ≡ o.sink ++ placed_at interleave (length before) before slot)
unfolding placed_at
place-window interleave before slot o w = elim (Bool-cases (leb interleave count)) [
  | inl due ↦
      let next : count + 1 - interleave ≡ passed + 1 = ground arith in
      let kept : o.window ++ slot ∷ [] ≡ get_or all passed [] ∷ drop (passed + 1) all =
        extended ∙ drop-get_or passed all (omega (arith, longer)) in
      let done =
        place_full interleave slot (get_or all passed []) (drop (passed + 1) all) o kept
          (ground (arith, length-drop (passed + 1) all, longer)) in
      (
        done.0 ∙ ap (λ k. drop k all) (sym (ap (λ k. k - interleave) longer ∙ next)),
        done.1 ∙ rw due,
      )
  | inr early ↦
      let still : count + 1 - interleave ≡ passed = ground arith in
      let waits =
        place_waits interleave slot o
          (ground (arith, ap length extended, length-drop passed all, longer)) in
      (
        waits.0 ∙ extended ∙ ap (λ k. drop k all) (sym (ap (λ k. k - interleave) longer ∙ still)),
        waits.1 ∙ rw early,
      )
]
  where
    all : List Slot
    all = before ++ slot ∷ []

    count : ℕ
    count = length before

    passed : ℕ
    passed = count - interleave

    longer : length all ≡ count + 1
    longer = length-append before (slot ∷ [])

    extended : o.window ++ slot ∷ [] ≡ drop passed all
    extended =
        ap (λ xs. xs ++ slot ∷ []) w
        ∙ sym (drop_append_of_length-le passed before (slot ∷ []) (omega arith))

named_step :
    (n interleave position : ℕ) (before : List Slot) (slot : Slot) (others : List Slot)
    → let all = before ++ slot ∷ others in
      named all (schedule_rounds (suc n) (length all) interleave (length before) position)
      ≡ placed_at interleave (length before) before slot
        ++ named all (
            schedule_rounds n
              (length all)
              interleave
              (length before + 1)
              (if leb interleave (length before) then position + 1 + 1 else position + 1))
unfolding schedule_rounds placed_at
named_step n interleave position before slot others =
    let longer = length-append before (slot ∷ others) in
    let early : ltb (length before) (length all) ≡ true = ground (arith, longer) in
    elim (Bool-cases (leb interleave (length before))) [
      | inl due ↦
          simp (early, due, get_or-append before (slot ∷ others) [])
            (ap (λ g. slot ∷ g ∷ after (position + 1 + 1)) seen)
      | inr wait ↦ simp (early, wait, get_or-append before (slot ∷ others) [])
    ]
  where
    all : List Slot
    all = before ++ slot ∷ others

    after : ℕ → List Slot
    after p = named all (schedule_rounds n (length all) interleave (length before + 1) p)

    seen :
        get_or all (length before - interleave) []
        ≡ get_or (before ++ slot ∷ []) (length before - interleave) []
    seen =
        ap (λ xs. get_or xs (length before - interleave) [])
          (sym (append_assoc before (slot ∷ []) others))
        ∙ get_or-append_of_lt (before ++ slot ∷ []) others (length before - interleave) []
            (omega (arith, length-append before (slot ∷ [])))

place_all-rounds :
    (interleave position : ℕ) (rest before : List Slot) (o : Output)
    → o.window ≡ drop (length before - interleave) before
    → let all = before ++ rest in
      (drain (place_all interleave rest o)).sink
      ≡ o.sink
        ++ named all (
            schedule_rounds
              (length rest + interleave)
              (length all)
              interleave
              (length before)
              position)
unfolding place_all drain
place_all-rounds interleave position [] before o w = rw (append-nil before) (
    sink-drain_rounds o.window o
    ∙ ap (◌++◌ o.sink) (
        w
        ∙ sym (
            named-schedule_tail (0 + interleave) interleave (length before) position before
              (omega arith) (omega arith))))
place_all-rounds interleave position (slot ∷ rest) before o w =
    let placed = place-window interleave before slot o w in
    let next = if leb interleave (length before) then position + 1 + 1 else position + 1 in
    let ih =
      place_all-rounds interleave next rest (before ++ slot ∷ []) (place interleave slot o)
        placed.0 in
    let more : suc (length rest) + interleave ≡ suc (length rest + interleave) = omega arith in
    let count : length (before ++ slot ∷ []) ≡ length before + 1 =
      length-append before (slot ∷ []) in
    ih
    ∙ ap
        (λ xs.
          xs
          ++ named ((before ++ slot ∷ []) ++ rest) (
              schedule_rounds (length rest + interleave) (length ((before ++ slot ∷ []) ++ rest))
                interleave (length (before ++ slot ∷ [])) next))
        placed.1
    ∙ rw (append_assoc before (slot ∷ []) rest, count, more)
        (append_assoc o.sink (placed_at interleave (length before) before slot) _
          ∙ ap (◌++◌ o.sink)
              (sym (named_step (length rest + interleave) interleave position before slot rest)))

-- Whatever the number of slots, the writer emits them in the order in which the reader's schedule
-- names them: the first copies as they come, and each second copy `interleave` slots later.
pub place_all-schedule :
    (interleave : ℕ) (slots : List Slot) (o : Output)
    → o.window ≡ []
    → (drain (place_all interleave slots o)).sink
      ≡ o.sink ++ named slots (schedule (length slots) interleave)
unfolding schedule
place_all-schedule interleave slots o w =
    place_all-rounds interleave 0 slots [] o
      (w ∙ sym (drop_of_length-le {A = Slot} (0 - interleave) [] (omega arith)))
