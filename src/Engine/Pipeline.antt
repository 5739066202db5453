-- ===== src/Engine/Pipeline.antt =====
-- The pipeline of the engine (dbs/engine/pipeline.py): the channels between its threads, the cut
-- into segments and the reading of what was prefetched. An operation of a channel is one step
-- under its condition variable: it waits, finds the pipeline stopped, or is done.
pub mod Fifo
pub mod Line
pub mod Kept
pub mod Progress
pub mod Segments
use dbs.Prelude.{
  Bool, List, Option, [], drop, false, if◌then◌else◌, leb, length, ltb, none, not, some, suc, take,
  true, zero, ℕ, ◌&&◌, ◌++◌, ◌+◌, ◌-◌, ◌==◌, ◌∷◌,
}

-- what a channel holds: an item, or `_END`
pub data Entry {ℓ} (A : Type ℓ) : Type ℓ where
  item : A → Entry A
  end_mark : Entry A

pub record Channel {ℓ} (A : Type ℓ) : Type ℓ where
  pub capacity : ℕ
  pub items : List (Entry A)
  pub held : ℕ  -- the field `_bytes`

pub data Outcome {ℓ} (A : Type ℓ) : Type ℓ where
  waits stopped : Outcome A
  done : A → Outcome A

unfoldable pub is_empty {ℓ} : {A : Type ℓ} → List A → Bool
is_empty [] = true
is_empty (x ∷ xs) = false

module _ {ℓ} {A : Type ℓ} (size : A → ℕ) where
  unfoldable pub entry_size : Entry A → ℕ
  entry_size (item a) = size a
  entry_size end_mark = 0

  -- `_append`
  unfoldable pub append : Bool → Entry A → ℕ → Channel A → Outcome (Channel A)
  append is_stopped entry n channel =
      if is_stopped
      then stopped
      else done (record channel { items = channel.items ++ entry ∷ []; held = channel.held + n })

  -- whether `put` waits for room
  unfoldable pub must_wait : Bool → ℕ → Channel A → Bool
  unfolding is_empty
  must_wait is_stopped n channel =
      not (is_empty channel.items) && ltb channel.capacity (channel.held + n) && not is_stopped

  unfoldable pub put : Bool → A → Channel A → Outcome (Channel A)
  unfolding must_wait append
  put is_stopped a channel =
      if must_wait is_stopped (size a) channel
      then waits
      else append is_stopped (item a) (size a) channel

  unfoldable pub close_channel : Bool → Channel A → Outcome (Channel A)
  unfolding append
  close_channel is_stopped channel = append is_stopped end_mark 0 channel

  -- the entry that `get` takes first, and the channel after it
  unfoldable pub popped : List (Entry A) → Channel A → Outcome (Entry A × Channel A)
  unfolding entry_size
  popped [] channel = waits
  popped (entry ∷ items) channel =
      done (entry, record channel { items = items; held = channel.held - entry_size entry })

  unfoldable pub get : Bool → Channel A → Outcome (Entry A × Channel A)
  unfolding popped
  get is_stopped channel = if is_stopped then stopped else popped channel.items channel

abbrev pub segment_bytes : ℕ
segment_bytes = 1048576

-- The inner loop of `_compress` on what is left of an item: the bytes pending, and the segments
-- that were put, in order.
unfoldable pub cut_item : ℕ → List ℕ → List ℕ → List (List ℕ) → List ℕ × List (List ℕ)
cut_item zero view pending segments = (pending, segments)
cut_item (suc fuel) view pending segments =
    let taken = take (segment_bytes - length pending) view in
    let more = pending ++ taken in
    let rest = drop (length taken) view in
    let full = cut_item fuel rest [] (segments ++ more ∷ []) in
    let short = cut_item fuel rest more segments in
    if not (ltb 0 (length view))
    then (pending, segments)
    else if leb segment_bytes (length more)
    then full
    else short

-- The outer loop: the length of an item is fuel enough.
unfoldable pub cut_items : List (List ℕ) → List ℕ → List (List ℕ) → List ℕ × List (List ℕ)
unfolding cut_item
cut_items [] pending segments = (pending, segments)
cut_items (view ∷ items) pending segments =
    let (pending', segments') = cut_item (length view) view pending segments in
    cut_items items pending' segments'

-- The segments that `_compress` submits.
unfoldable pub segments_of : List (List ℕ) → List (List ℕ)
unfolding cut_items
segments_of items =
    let (pending, segments) = cut_items items [] [] in
    if ltb 0 (length pending) then segments ++ pending ∷ [] else segments

-- The loop of `PrefetchingSource._take`: the bytes, what is pending, and the pieces that are left,
-- none once they are used up. An empty piece ends them.
unfoldable pub take_rounds :
    ℕ → List ℕ → List ℕ → List (List ℕ) → List ℕ × List ℕ × Option (List (List ℕ))
take_rounds needed taken pending [] =
    let part = take needed pending in
    let left = needed - length part in
    (taken ++ part, drop (length part) pending, if left == 0 then some [] else none)
take_rounds needed taken pending (piece ∷ pieces) =
    let part = take needed pending in
    let left = needed - length part in
    let rest = take_rounds left (taken ++ part) piece pieces in
    if left == 0
    then (taken ++ part, drop (length part) pending, some (piece ∷ pieces))
    else if ltb 0 (length piece)
    then rest
    else (taken ++ part, [], none)
