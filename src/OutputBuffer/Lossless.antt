-- ===== src/OutputBuffer/Lossless.antt =====
-- What readers get is what was appended (dbs/manager/shell/buffer.py).
use mathlib.Core.Path.{subst}
use dbs.Prelude.{
  Bool, Bool-cases, List, [], ap, arith, drop, drop-drop, drop_append_of_length-le, false,
  if◌then◌else◌, inl, inr, length, length-append, length-drop, ltb, max, min, refl, sym, take, true,
  ℕ, ◌++◌, ◌+◌, ◌-◌, ◌<◌, ◌∙◌, ◌≡◌, ◌≤◌,
}
use dbs.OutputBuffer.{
  Appended, OutputBuffer, acknowledge, added, append, close_buffer, end_of, new_buffer, rejected,
  trim, must_wait, read_chunk, read_max, read,
}

-- A buffer that calls have led to, with all the bytes that were appended to it.
pub data Reachable (capacity : ℕ) : List ℕ → OutputBuffer → Type 0 where
  begins : Reachable capacity [] (new_buffer capacity)
  appends :
      {total : List ℕ} {b b' : OutputBuffer} (chunk : List ℕ)
      → Reachable capacity total b
      → append chunk b ≡ added b'
      → Reachable capacity (total ++ chunk) b'
  acknowledges :
      {total : List ℕ} {b : OutputBuffer} (cursor : ℕ)
      → Reachable capacity total b
      → Reachable capacity total (acknowledge cursor b)
  closes :
      {total : List ℕ} {b : OutputBuffer}
      → Reachable capacity total b
      → Reachable capacity total (close_buffer b)

-- The buffer keeps what comes behind `start`, and nothing acknowledged.
pub record IsTail (total : List ℕ) (b : OutputBuffer) : Type 0 where
  pub kept : b.data_bytes ≡ drop b.start total
  pub within_total : b.start ≤ length total
  pub trimmed : b.start ≡ b.acknowledged

abbrev IfAdded : (OutputBuffer → Type 0) → Appended → Type 0
IfAdded P must_wait = Unit
IfAdded P rejected = Unit
IfAdded P (added b) = P b

if-IfAdded :
    (P : OutputBuffer → Type 0) (b : Bool) (x y : Appended)
    → (b ≡ true → IfAdded P x)
    → (b ≡ false → IfAdded P y)
    → IfAdded P (if b then x else y)
if-IfAdded P true x y h k = h refl
if-IfAdded P false x y h k = k refl

append-IsTail :
    (total chunk : List ℕ) (b : OutputBuffer)
    → IsTail total b
    → IfAdded
        (λ b'. IsTail (total ++ chunk) b' × (length b'.data_bytes ≤ max b.capacity (length chunk)))
        (append chunk b)
unfolding append end_of
append-IsTail total chunk b h =
    if-IfAdded P _ must_wait _ (λ full. tt)
      (λ room.
        if-IfAdded P b.closed rejected (added (record b { data_bytes = b.data_bytes ++ chunk }))
          (λ shut. tt)
          (λ still. (
            record {
              kept =
                  ap (λ xs. xs ++ chunk) h.kept
                  ∙ sym (drop_append_of_length-le b.start total chunk h.within_total);
              within_total = omega (arith, length-append total chunk, h.within_total);
              trimmed = h.trimmed;
            },
            (let size = length-append b.data_bytes chunk in
                ground (arith, room, still, size, h.trimmed)),
          )))
  where
    P : OutputBuffer → Type 0
    P b' = IsTail (total ++ chunk) b' × (length b'.data_bytes ≤ max b.capacity (length chunk))

acknowledge-IsTail :
    (total : List ℕ) (cursor : ℕ) (b : OutputBuffer)
    → IsTail total b
    → IsTail total (acknowledge cursor b)
unfolding acknowledge trim end_of
acknowledge-IsTail total cursor b h =
    elim (Bool-cases (ltb b.acknowledged (min cursor (b.start + length b.data_bytes)))) [
      | inr behind ↦ rw behind h
      | inl ahead ↦
          let p = min cursor (b.start + length b.data_bytes) in
          let further : b.start < p = ground (arith, ahead, h.trimmed) in
          let z : max b.start p ≡ p = omega (arith, further) in
          let size : length b.data_bytes ≡ length total - b.start =
            ap length h.kept ∙ length-drop b.start total in
          let y : b.start + (p - b.start) ≡ p = omega (arith, further) in
          rw ahead (record {
            kept =
                ap (drop (p - b.start)) h.kept
                ∙ drop-drop b.start (p - b.start) total
                ∙ ap (λ k. drop k total) (y ∙ sym z);
            within_total = omega (arith, further, size, h.within_total);
            trimmed = z;
          })
    ]

Reachable-IsTail :
    (capacity : ℕ) (total : List ℕ) (b : OutputBuffer) → Reachable capacity total b → IsTail total b
unfolding new_buffer close_buffer
Reachable-IsTail capacity _ _ begins = record {
  kept = refl;
  within_total = omega arith;
  trimmed = refl;
}
Reachable-IsTail capacity _ b' (appends {total = total} {b = b} chunk r e) =
    let found =
      subst
        (IfAdded (λ b'.
          IsTail (total ++ chunk) b' × (length b'.data_bytes ≤ max b.capacity (length chunk))))
        e (append-IsTail total chunk b (Reachable-IsTail capacity total b r)) in
    found.0
Reachable-IsTail capacity total _ (acknowledges {b = b} cursor r) =
    acknowledge-IsTail total cursor b (Reachable-IsTail capacity total b r)
Reachable-IsTail capacity total _ (closes {b = b} r) =
    let h = Reachable-IsTail capacity total b r in
    record { kept = h.kept; within_total = h.within_total; trimmed = h.trimmed }

read_chunk-Reachable :
    (capacity : ℕ) (total : List ℕ) (b : OutputBuffer) (cursor : ℕ)
    → Reachable capacity total b
    → (read_chunk cursor b).2 ≡ false
    → let (chunk, next, dropped) = read_chunk cursor b in
      (chunk ≡ take read_max (drop cursor total)) × (next ≡ cursor + length chunk)
unfolding read_chunk
read_chunk-Reachable capacity total b cursor r intact =
    let h = Reachable-IsTail capacity total b r in
    let z : max cursor b.start ≡ cursor = ground (arith, intact) in
    let y : b.start + (cursor - b.start) ≡ cursor = ground (arith, intact) in
    let e : drop (cursor - b.start) b.data_bytes ≡ drop cursor total =
      ap (drop (cursor - b.start)) h.kept
      ∙ drop-drop b.start (cursor - b.start) total
      ∙ ap (λ k. drop k total) y in
    (
      ap (λ k. take read_max (drop (k - b.start) b.data_bytes)) z ∙ ap (take read_max) e,
      ap (λ k. k + length (take read_max (drop (max cursor b.start - b.start) b.data_bytes))) z,
    )

end-total : (total : List ℕ) (b : OutputBuffer) → IsTail total b → end_of b ≡ length total
unfolding end_of
end-total total b h =
    let size : length b.data_bytes ≡ length total - b.start =
      ap length h.kept ∙ length-drop b.start total in
    omega (arith, size, h.within_total)

-- Whatever calls have led to a buffer, a reader who is not told that bytes were dropped gets the
-- bytes that follow its cursor in all that was appended, or that follow the end if its cursor is
-- past it; its next cursor stands behind them.
pub read-Reachable :
    (capacity : ℕ) (total : List ℕ) (b : OutputBuffer) (cursor : ℕ)
    → Reachable capacity total b
    → (read cursor b).3 ≡ false
    → let (after, chunk, next, dropped) = read cursor b in
      Reachable capacity total after
      × (chunk ≡ take read_max (drop (min cursor (length total)) total))
      × (next ≡ min cursor (length total) + length chunk)
unfolding read
read-Reachable capacity total b cursor r intact =
    let e = end-total total b (Reachable-IsTail capacity total b r) in
    let after = acknowledges cursor r in
    let (c, n) =
      read_chunk-Reachable capacity total (acknowledge cursor b) (min cursor (end_of b)) after
        intact in
    (
      after,
      c ∙ ap (λ k. take read_max (drop (min cursor k) total)) e,
      n ∙ ap (λ k. min cursor k + length (read cursor b).1) e,
    )

-- A call that appends leaves no more in the buffer than its capacity, or than its own chunk where
-- that is larger.
append-bounded :
    (capacity : ℕ) (total chunk : List ℕ) (b b' : OutputBuffer)
    → Reachable capacity total b
    → append chunk b ≡ added b'
    → length b'.data_bytes ≤ max b.capacity (length chunk)
append-bounded capacity total chunk b b' r e =
    let found =
      subst
        (IfAdded (λ b'.
          IsTail (total ++ chunk) b' × (length b'.data_bytes ≤ max b.capacity (length chunk))))
        e (append-IsTail total chunk b (Reachable-IsTail capacity total b r)) in
    found.1
