-- ===== src/Container/Stream/Writer/Write.antt =====
-- What `write` queues, and that it does not matter how the data is divided into writes
-- (dbs/container/stream.py).
use dbs.Prelude.{
  Bool, Bool-cases, List, [], ap, append-nil, append_assoc, ap₂, arith, drop, drop-append_past,
  drop_of_length-le, false, if_false, inl, inr, length, length-append, length-drop, ltb, ltb→lt,
  lt→ltb, min, refl, suc, sym, take, take-append_past, take_of_length-le, zero, ℕ, ◌++◌, ◌+◌, ◌-◌,
  ◌<◌, ◌==◌, ◌∙◌, ◌∷◌, ◌≡◌, ◌≤◌,
}
use dbs.Container.Stream.Layout.{chunk_capacity}
use dbs.Container.Stream.Writer.{
  Encoder, Primitives, Writer, queue, queue_while, fill, flush, write,
}
use dbs.Container.Stream.Writer.Cut.{cut, cut-few, cut-more, cut-IsCut, cut-append}
use dbs.Result.{Result, ok, ◌>>=◌, bind_assoc, bind_ext, bind-eq-ok, bind_ext_ok}

module _ (p : Primitives) where
  unfoldable pub queue_all : List (List ℕ) → Encoder → Result Encoder
  queue_all [] enc = ok enc
  queue_all (chunk ∷ chunks) enc = do enc' ← queue p chunk enc; queue_all chunks enc'

  queue_all-append :
      (xs ys : List (List ℕ)) (enc : Encoder)
      → queue_all (xs ++ ys) enc ≡ (queue_all xs enc >>= queue_all ys)
  unfolding queue_all
  queue_all-append [] ys enc = refl
  queue_all-append (x ∷ xs) ys enc =
      bind_ext (queue p x enc) _ _ (λ enc'. queue_all-append xs ys enc')
      ∙ sym (bind_assoc (queue p x enc) (queue_all xs) (queue_all ys))

  -- `write` on an open writer, in terms of `cut`.
  unfoldable pub written : List ℕ → Writer → Result (Writer × ℕ)
  written view w =
      let found = cut (chunk_capacity w.encoder.layout) (w.pending ++ view) in
      queue_all found.0 w.encoder >>= λ enc. ok (
        record w {
          encoder = enc;
          pending = found.1;
          plaintext_bytes = w.plaintext_bytes + length view;
        },
        length view,
      )

  queue_while-cut :
      (fuel capacity : ℕ) (view : List ℕ) (enc : Encoder)
      → 0 < capacity
      → length view ≤ fuel
      → queue_while p fuel capacity view enc
        ≡ (queue_all (cut capacity view).0 enc >>= λ enc'. ok (enc', (cut capacity view).1))
  unfolding queue_while queue_all
  queue_while-cut zero capacity [] enc pos h = rw (cut-few capacity [] (omega arith))
  queue_while-cut zero capacity (x ∷ view) enc pos h = absurd (omega arith)
  queue_while-cut (suc fuel) capacity view enc pos h =
      elim (Bool-cases (ltb capacity (length view))) [
        | inl more ↦
            let rest = drop capacity view in
            rw (more, queue_while, cut-more capacity view pos (ltb→lt capacity (length view) more))
              (bind_ext (queue p (take capacity view) enc) _ _ (λ enc'.
                  queue_while-cut fuel capacity rest enc' pos
                    (ground (arith, length-drop capacity view)))
                ∙ sym (
                    bind_assoc (queue p (take capacity view) enc) (queue_all (cut capacity rest).0)
                      _))
        | inr rest ↦ rw (rest, queue_while, cut-few capacity view (ground arith))
      ]

  fill_nothing :
      (x : ℕ) (pending : List ℕ) (enc : Encoder)
      → fill p (x ∷ pending) [] enc ≡ ok (enc, x ∷ pending, [])
  unfolding fill
  fill_nothing x pending enc =
      let some_pending : (length (x ∷ pending) == 0) ≡ false = ground arith in simp some_pending

  fill_over :
      (x v : ℕ) (pending view : List ℕ) (enc : Encoder)
      → let room = chunk_capacity enc.layout - length (x ∷ pending) in
        room < length (v ∷ view)
        → fill p (x ∷ pending) (v ∷ view) enc ≡ (
            queue p ((x ∷ pending) ++ take room (v ∷ view)) enc >>= λ enc'.
            ok (enc', [], drop room (v ∷ view)))
  unfolding fill
  fill_over x v pending view enc over =
      let room = chunk_capacity enc.layout - length (x ∷ pending) in
      let some_pending : (length (x ∷ pending) == 0) ≡ false = ground arith in
      let some_view : (length (v ∷ view) == 0) ≡ false = ground arith in
      let all : min room (length (v ∷ view)) ≡ room = omega arith in
      simp (some_pending, some_view, all, lt→ltb room (length (v ∷ view)) over)

  fill_under :
      (x v : ℕ) (pending view : List ℕ) (enc : Encoder)
      → length (v ∷ view) ≤ chunk_capacity enc.layout - length (x ∷ pending)
      → fill p (x ∷ pending) (v ∷ view) enc ≡ ok (enc, (x ∷ pending) ++ (v ∷ view), [])
  unfolding fill
  fill_under x v pending view enc under =
      let room = chunk_capacity enc.layout - length (x ∷ pending) in
      let some_pending : (length (x ∷ pending) == 0) ≡ false = ground arith in
      let some_view : (length (v ∷ view) == 0) ≡ false = ground arith in
      let all : min room (length (v ∷ view)) ≡ length (v ∷ view) = omega arith in
      let none_left : ltb (length (v ∷ view)) (length (v ∷ view)) ≡ false = ground arith in
      simp (
        some_pending,
        some_view,
        all,
        none_left,
        take_of_length-le room (v ∷ view) under,
        drop_of_length-le (length (v ∷ view)) (v ∷ view) (omega arith),
      )

  -- The bytes that wait are filled up and the loop goes on with what is left.
  fill_and_queue : List ℕ → List ℕ → Encoder → Result (Encoder × List ℕ)
  fill_and_queue pending view enc = fill p pending view enc >>= λ filled.
      queue_while p (length filled.2) (chunk_capacity enc.layout) filled.2 filled.0 >>= λ left.
      ok (left.0, filled.1 ++ left.1)

  fill_and_queue-cut :
      (pending view : List ℕ) (enc : Encoder)
      → 0 < chunk_capacity enc.layout
      → length pending ≤ chunk_capacity enc.layout
      → let found = cut (chunk_capacity enc.layout) (pending ++ view) in
        fill_and_queue pending view enc ≡ (queue_all found.0 enc >>= λ enc'. ok (enc', found.1))
  unfolding fill_and_queue queue_all
  fill_and_queue-cut [] view enc pos short =
      unfold fill in
      ap (λ r. r >>= λ left. ok (left.0, left.1))
        (queue_while-cut (length view) (chunk_capacity enc.layout) view enc pos (omega arith))
      ∙ bind_assoc (queue_all (cut (chunk_capacity enc.layout) view).0 enc) _ _
  fill_and_queue-cut (x ∷ pending) [] enc pos short =
      rw (append-nil, cut-few (chunk_capacity enc.layout) (x ∷ pending) short)
        (unfold queue_while in simp (fill_nothing x pending enc, append-nil))
  fill_and_queue-cut (x ∷ pending) (v ∷ view) enc pos short =
      elim (Bool-cases (ltb room (length (v ∷ view)))) [
        | inl over ↦
            let rest = drop room (v ∷ view) in
            let filled = (x ∷ pending) ++ take room (v ∷ view) in
            let fits = ltb→lt room (length (v ∷ view)) over in
            let big : capacity < length ((x ∷ pending) ++ (v ∷ view)) =
              omega (arith, length-append (x ∷ pending) (v ∷ view)) in
            ap
              (λ r. r >>= λ f.
                queue_while p (length f.2) capacity f.2 f.0 >>= λ left. ok (left.0, f.1 ++ left.1))
              (fill_over x v pending view enc fits)
            ∙ bind_assoc (queue p filled enc) _ _
            ∙ bind_ext (queue p filled enc) _ _ (λ enc'.
              ap (λ r. r >>= λ left. ok (left.0, left.1))
                (queue_while-cut (length rest) capacity rest enc' pos (omega arith))
              ∙ bind_assoc (queue_all (cut capacity rest).0 enc') _ _)
            ∙ sym (bind_assoc (queue p filled enc) (queue_all (cut capacity rest).0) _)
            ∙ rw (
              cut-more capacity ((x ∷ pending) ++ (v ∷ view)) pos big,
              take-append_past capacity (x ∷ pending) (v ∷ view) short,
              drop-append_past capacity (x ∷ pending) (v ∷ view) short,
            )
        | inr under ↦
            let fits : length (v ∷ view) ≤ room = ground arith in
            rw
              (
                fill_under x v pending view enc fits,
                cut-few capacity ((x ∷ pending) ++ (v ∷ view))
                    (omega (arith, length-append (x ∷ pending) (v ∷ view))),
              )
              (unfold queue_while in rw append-nil)
      ]
    where
      capacity : ℕ
      capacity = chunk_capacity enc.layout

      room : ℕ
      room = capacity - length (x ∷ pending)

  flush-layout :
      (final : Bool) (enc enc' : Encoder) → flush p final enc ≡ ok enc' → enc'.layout ≡ enc.layout
  unfolding flush
  flush-layout final enc enc' e = ground arith

  queue-layout :
      (chunk : List ℕ) (enc enc' : Encoder) → queue p chunk enc ≡ ok enc' → enc'.layout ≡ enc.layout
  unfolding queue
  queue-layout chunk enc enc' e =
      ground (arith, flush-layout false (record enc { batch = enc.batch ++ chunk ∷ [] }) enc')

  queue_all-layout :
      (chunks : List (List ℕ)) (enc enc' : Encoder)
      → queue_all chunks enc ≡ ok enc'
      → enc'.layout ≡ enc.layout
  unfolding queue_all
  queue_all-layout [] enc enc' e = cc
  queue_all-layout (chunk ∷ chunks) enc enc' e =
      let (mid, rest, first) = bind-eq-ok (queue p chunk enc) (queue_all chunks) e in
      queue_all-layout chunks mid enc' rest ∙ queue-layout chunk enc mid first

  -- An open writer between two writes.
  pub record IsOpen (w : Writer) : Type 0 where
    pub not_closed : w.closed ≡ false
    pub roomy : 0 < chunk_capacity w.encoder.layout
    pub short : length w.pending ≤ chunk_capacity w.encoder.layout

  write-written : (view : List ℕ) (w : Writer) → IsOpen w → write p view w ≡ written view w
  unfolding write written fill_and_queue
  write-written view w h =
      if_false w.closed _ _ h.not_closed
      ∙ (sym (
            bind_assoc (fill p w.pending view w.encoder) _ _
            ∙ bind_ext (fill p w.pending view w.encoder) _ _ (λ f.
              bind_assoc (queue_while p (length f.2) (chunk_capacity w.encoder.layout) f.2 f.0) _
                _))
          ∙ ap
              (λ r. r >>= λ found. ok (
                record w {
                  encoder = found.0;
                  pending = found.1;
                  plaintext_bytes = w.plaintext_bytes + length view;
                },
                length view,
              ))
              (fill_and_queue-cut w.pending view w.encoder h.roomy h.short)
          ∙ bind_assoc
              (queue_all (cut (chunk_capacity w.encoder.layout) (w.pending ++ view)).0 w.encoder) _
              _)

  -- The data may be divided into writes in any way: two writes leave the writer as one write of
  -- all the data does, with the same chunks, and report the sum of their sizes.
  pub write-append :
      (first second : List ℕ) (w : Writer)
      → IsOpen w
      → (do (w', n) ← write p first w; (w'', m) ← write p second w'; ok (w'', n + m))
        ≡ write p (first ++ second) w
  unfolding written
  write-append first second w h =
      rw (write-written first w h, write-written (first ++ second) w h)
        (bind_assoc (queue_all one.0 w.encoder) _ _
          ∙ bind_ext_ok (queue_all one.0 w.encoder) _ _ next
          ∙ sym (bind_assoc (queue_all one.0 w.encoder) (queue_all two.0) _)
          ∙ ap (λ r. r >>= finish) (sym (queue_all-append one.0 two.0 w.encoder))
          ∙ ap
              (λ found. queue_all found.0 w.encoder >>= λ enc. ok (
                record w {
                  encoder = enc;
                  pending = found.1;
                  plaintext_bytes = w.plaintext_bytes + length (first ++ second);
                },
                length (first ++ second),
              ))
              (sym joined))
    where
      capacity : ℕ
      capacity = chunk_capacity w.encoder.layout

      one : List (List ℕ) × List ℕ
      one = cut capacity (w.pending ++ first)

      two : List (List ℕ) × List ℕ
      two = cut capacity (one.1 ++ second)

      finish : Encoder → Result (Writer × ℕ)
      finish enc = ok (
        record w {
          encoder = enc;
          pending = two.1;
          plaintext_bytes = w.plaintext_bytes + length (first ++ second);
        },
        length (first ++ second),
      )

      joined : cut capacity (w.pending ++ (first ++ second)) ≡ (one.0 ++ two.0, two.1)
      joined =
          ap (cut capacity) (sym (append_assoc w.pending first second))
          ∙ cut-append capacity (w.pending ++ first) second h.roomy

      middle : Encoder → Writer
      middle enc = record w {
        encoder = enc;
        pending = one.1;
        plaintext_bytes = w.plaintext_bytes + length first;
      }

      next :
          (enc : Encoder)
          → queue_all one.0 w.encoder ≡ ok enc
          → (write p second (middle enc) >>= λ r. ok (r.0, length first + r.1))
            ≡ (queue_all two.0 enc >>= finish)
      next enc e =
          let same = queue_all-layout one.0 w.encoder enc e in
          let opened : IsOpen (middle enc) = record {
            not_closed = h.not_closed;
            roomy = rw same h.roomy;
            short = rw same (cut-IsCut capacity (w.pending ++ first) h.roomy).short;
          } in
          ap (λ r. r >>= λ r'. ok (r'.0, length first + r'.1))
            (write-written second (middle enc) opened)
          ∙ bind_assoc (queue_all (cut (chunk_capacity enc.layout) (one.1 ++ second)).0 enc) _ _
          ∙ ap
              (λ layout. queue_all (cut (chunk_capacity layout) (one.1 ++ second)).0 enc >>= λ enc'.
                ok (
                  record w {
                    encoder = enc';
                    pending = (cut (chunk_capacity layout) (one.1 ++ second)).1;
                    plaintext_bytes = w.plaintext_bytes + length first + length second;
                  },
                  length first + length second,
                ))
              same
          ∙ ap₂
              (λ total size. queue_all two.0 enc >>= λ enc'.
                ok (record w { encoder = enc'; pending = two.1; plaintext_bytes = total }, size))
              (omega (arith, length-append first second)) (sym (length-append first second))
