-- ===== src/Engine/Pipeline/Segments.antt =====
-- The segments that are compressed, and what is read from prefetched pieces
-- (dbs/engine/pipeline.py).
use mathlib.Core.List.{flatten}
use mathlib.Core.Path.{subst}
use dbs.Prelude.{
  Bool-cases, List, [], ap, append-nil, append_assoc, arith, drop, inl, inr, leb, length,
  length-append, length-drop, length-take, ltb, ltb→lt, min, refl, suc, sym, take, take-append-drop,
  zero, ℕ, ◌++◌, ◌-◌, ◌<◌, ◌∙◌, ◌∷◌, ◌≡◌, ◌≤◌, ◌⊎◌,
}
use dbs.Engine.Pipeline.{cut_item, cut_items, segment_bytes, segments_of}

-- Every segment has the full size.
abbrev pub AllFull : List (List ℕ) → Type 0
AllFull [] = Unit {0}
AllFull (segment ∷ segments) = (length segment ≡ segment_bytes) × AllFull segments

AllFull-append :
    (segments : List (List ℕ)) (last : List ℕ)
    → AllFull segments
    → length last ≡ segment_bytes
    → AllFull (segments ++ last ∷ [])
AllFull-append [] last h l = (l, tt)
AllFull-append (segment ∷ segments) last (k, h) l = (k, AllFull-append segments last h l)

flatten-append_last : (xs : List (List ℕ)) (x : List ℕ) → flatten (xs ++ x ∷ []) ≡ flatten xs ++ x
unfolding flatten
flatten-append_last [] x = append-nil x
flatten-append_last (y ∷ xs) x =
    ap (λ rest. y ++ rest) (flatten-append_last xs x) ∙ sym (append_assoc y (flatten xs) x)

length-zero : (xs : List ℕ) → length xs ≡ 0 → xs ≡ []
length-zero [] h = refl
length-zero (x ∷ xs) h = absurd (omega arith)

drop-min : (n : ℕ) (xs : List ℕ) → drop (min n (length xs)) xs ≡ drop n xs
drop-min zero xs = let e : min 0 (length xs) ≡ 0 = omega arith in rw e
drop-min (suc n) [] = let e : min (suc n) 0 ≡ 0 = omega arith in rw e
drop-min (suc n) (x ∷ xs) =
    let e : min (suc n) (suc (length xs)) ≡ suc (min n (length xs)) = omega arith in
    rw e (drop-min n xs)

take-append-drop-min : (n : ℕ) (xs : List ℕ) → take n xs ++ drop (min n (length xs)) xs ≡ xs
take-append-drop-min n xs =
    let e : drop (min n (length xs)) xs ≡ drop n xs = drop-min n xs in rw e (take-append-drop n xs)

-- What the bytes of the item become: nothing is lost, and less than a segment is pending.
abbrev IsCut : List ℕ → List ℕ × List (List ℕ) → Type 0
IsCut bytes (pending, segments) =
    (flatten segments ++ pending ≡ bytes) × AllFull segments × (length pending < segment_bytes)

cut_item-IsCut :
    (fuel : ℕ) (view pending : List ℕ) (segments : List (List ℕ)) (bytes : List ℕ)
    → length view ≤ fuel
    → flatten segments ++ (pending ++ view) ≡ bytes
    → AllFull segments
    → length pending < segment_bytes
    → IsCut bytes (cut_item fuel view pending segments)
unfolding cut_item
cut_item-IsCut zero [] pending segments bytes l e h p =
    (ap (λ xs. flatten segments ++ xs) (sym (append-nil pending)) ∙ e, h, p)
cut_item-IsCut zero (x ∷ view) pending segments bytes l e h p = absurd (omega arith)
cut_item-IsCut (suc fuel) view pending segments bytes l e h p =
    let room = segment_bytes - length pending in
    let taken = take room view in
    let more = pending ++ taken in
    let rest = drop (length taken) view in
    let n = length-take room view in
    let m = length-append pending taken in
    let k = length-drop (length taken) view in
    let split : taken ++ rest ≡ view =
      ap (λ j. taken ++ drop j view) n ∙ take-append-drop-min room view in
    let regrouped : more ++ rest ≡ pending ++ view =
      append_assoc pending taken rest ∙ ap (λ xs. pending ++ xs) split in
    elim (Bool-cases (ltb 0 (length view))) [
      | inr empty ↦
          let none_left : view ≡ [] = length-zero view (ground arith) in
          rw empty (
            ap (λ xs. flatten segments ++ xs)
                  (sym (append-nil pending) ∙ ap (λ xs. pending ++ xs) (sym none_left))
                ∙ e,
            h,
            p,
          )
      | inl some_left ↦ elim (Bool-cases (leb segment_bytes (length more))) [
        | inl full ↦
            rw (some_left, full)
              (cut_item-IsCut fuel rest [] (segments ++ more ∷ []) bytes (ground (arith, n, m, k))
                (ap (λ xs. xs ++ rest) (flatten-append_last segments more)
                  ∙ append_assoc (flatten segments) more rest
                  ∙ ap (λ xs. flatten segments ++ xs) regrouped
                  ∙ e)
                (AllFull-append segments more h (ground (arith, n, m))) (omega arith))
        | inr short ↦
            rw (some_left, short)
              (cut_item-IsCut fuel rest more segments bytes (ground (arith, n, m, k))
                (ap (λ xs. flatten segments ++ xs) regrouped ∙ e) h (ground arith))
      ]
    ]

cut_items-IsCut :
    (items : List (List ℕ)) (pending : List ℕ) (segments : List (List ℕ)) (bytes : List ℕ)
    → IsCut bytes (pending, segments)
    → IsCut (bytes ++ flatten items) (cut_items items pending segments)
unfolding cut_items flatten
cut_items-IsCut [] pending segments bytes (e, h, p) = (e ∙ sym (append-nil bytes), h, p)
cut_items-IsCut (view ∷ items) pending segments bytes (e, h, p) =
    let (pending', segments') = cut_item (length view) view pending segments in
    let joined = sym (append_assoc (flatten segments) pending view) ∙ ap (λ xs. xs ++ view) e in
    let cut =
      cut_item-IsCut (length view) view pending segments (bytes ++ view) (omega arith) joined h p in
    subst (λ b. IsCut b (cut_items items pending' segments'))
      (append_assoc bytes view (flatten items))
      (cut_items-IsCut items pending' segments' (bytes ++ view) cut)

-- The segments that `_compress` submits hold the bytes of all items in order; all but the last
-- have the full size, and the last has at least one byte and no more than that.
pub segments_of-flatten :
    (items : List (List ℕ))
    → (flatten (segments_of items) ≡ flatten items)
      × (AllFull (segments_of items)
          ⊎ ((full : List (List ℕ)) × (last : List ℕ) × (segments_of items ≡ full ++ last ∷ [])
              × AllFull full
              × (0 < length last)
              × (length last < segment_bytes)))
unfolding segments_of
segments_of-flatten items =
    let (pending, segments) = cut_items items [] [] in
    let (e, h, p) = cut_items-IsCut items [] [] [] (unfold flatten in refl, tt, omega arith) in
    elim (Bool-cases (ltb 0 (length (cut_items items [] []).0))) [
      | inl some_left ↦ rw some_left (
        flatten-append_last segments pending ∙ e,
        inr (segments, pending, refl, h, ltb→lt 0 (length pending) some_left, p),
      )
      | inr none_left ↦
          let empty : pending ≡ [] = length-zero pending (ground arith) in
          rw none_left (
            sym (append-nil (flatten segments)) ∙ ap (λ xs. flatten segments ++ xs) (sym empty) ∙ e,
            inl h,
          )
    ]
