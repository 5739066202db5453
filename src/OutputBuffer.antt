-- ===== src/OutputBuffer.antt =====
-- The output of a shell between its process and its readers (dbs/manager/shell/buffer.py). The
-- condition variable orders the calls, so that each is one step; a call that would wait changes
-- nothing until it is tried again.
pub mod Lossless
use dbs.Prelude.{
  Bool, List, [], drop, false, if◌then◌else◌, leb, length, ltb, max, min, not, take, true, ℕ, ◌&&◌,
  ◌*◌, ◌++◌, ◌+◌, ◌-◌,
}

abbrev pub read_max : ℕ
read_max = 256 * 1024

pub record OutputBuffer : Type 0 where
  pub capacity : ℕ
  pub data_bytes : List ℕ
  pub start : ℕ
  pub acknowledged : ℕ
  pub closed : Bool

unfoldable pub new_buffer : ℕ → OutputBuffer
new_buffer capacity = record {
  capacity = capacity;
  data_bytes = [];
  start = 0;
  acknowledged = 0;
  closed = false;
}

unfoldable pub end_of : OutputBuffer → ℕ
end_of b = b.start + length b.data_bytes

pub data Appended : Type 0 where
  must_wait : Appended
  rejected : Appended
  added : OutputBuffer → Appended

unfoldable pub append : List ℕ → OutputBuffer → Appended
unfolding end_of
append chunk b =
    if not b.closed
      && ltb b.acknowledged (end_of b)
      && ltb b.capacity (end_of b - b.acknowledged + length chunk)
    then must_wait
    else if b.closed
    then rejected
    else added (record b { data_bytes = b.data_bytes ++ chunk })

unfoldable pub trim : OutputBuffer → OutputBuffer
trim b = record b {
  data_bytes = drop (b.acknowledged - b.start) b.data_bytes;
  start = max b.start b.acknowledged;
}

-- `read` as far as its wait: the cursor is cut off at the end and acknowledged.
unfoldable pub acknowledge : ℕ → OutputBuffer → OutputBuffer
unfolding trim end_of
acknowledge cursor b =
    let position = min cursor (end_of b) in
    if ltb b.acknowledged position then trim (record b { acknowledged = position }) else b

-- `read` behind its wait: the chunk, the next cursor, and whether bytes were dropped before it
unfoldable pub read_chunk : ℕ → OutputBuffer → List ℕ × ℕ × Bool
read_chunk cursor b =
    let begin = max cursor b.start in
    let chunk = take read_max (drop (begin - b.start) b.data_bytes) in
    (chunk, begin + length chunk, ltb cursor b.start)

-- `read`, where its wait ends at once
unfoldable pub read : ℕ → OutputBuffer → OutputBuffer × List ℕ × ℕ × Bool
unfolding acknowledge read_chunk end_of
read cursor b =
    let after = acknowledge cursor b in
    let (chunk, next, dropped) = read_chunk (min cursor (end_of b)) after in
    (after, chunk, next, dropped)

unfoldable pub drained : ℕ → OutputBuffer → Bool
unfolding end_of
drained cursor b = b.closed && leb (end_of b) cursor

unfoldable pub close_buffer : OutputBuffer → OutputBuffer
close_buffer b = record b { closed = true }
