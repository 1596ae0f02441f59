-- ===== src/Util/ChunkedBuf.antt =====
-- util/buf_traits.rs: buffers that are read chunk by chunk, and what is built on them. A panic is
-- `none`; the loops take fuel, and a round that reads makes progress.
pub mod Prefix
pub mod Overshoot
pub mod Chunks
pub mod Reader
use faf_rust_replayserver.Base.{
  Bytes, ℕ, zero, suc, ◌+◌, ◌-◌, ◌≤◌, ◌<◌, ◌≡◌, min, Bool, List, [], ◌∷◌, ◌++◌, Option, none, some,
  ltb, leb, ◌==◌, if◌then◌else◌, ◌>>=◌, ◌>>◌, assert, length, get_elem?, take, drop,
}

-- The trait `ChunkedBuf`; `get_chunk` may panic.
pub record ChunkedBuf : Type 0 where
  pub get_chunk : ℕ → Option Bytes
  pub len : ℕ

-- `my_chunk.iter().zip(other_chunk).take_while(|(a, b)| a == b).count()`
unfoldable pub eq_len : Bytes → Bytes → ℕ
eq_len (a ∷ as') (b ∷ bs) = if a == b then suc (eq_len as' bs) else 0
eq_len _ _ = 0

-- The `while` loop of `common_prefix_from_to`.
unfoldable pub compare_rounds : ℕ → ChunkedBuf → ChunkedBuf → ℕ → ℕ → Option ℕ
compare_rounds zero mine other max_cmp at = if ltb at max_cmp then none else some at
compare_rounds (suc fuel) mine other max_cmp at =
    let round = do
      my_chunk ← mine.get_chunk at
      other_chunk ← other.get_chunk at
      let n = eq_len my_chunk other_chunk
      let rest = compare_rounds fuel mine other max_cmp (at + n)
      if ltb n (min (length my_chunk) (length other_chunk)) then some (at + n) else rest
    in if ltb at max_cmp then round else some at

unfoldable pub max_cmp : ChunkedBuf → ChunkedBuf → Option ℕ → ℕ
max_cmp mine other none = min mine.len other.len
max_cmp mine other (some e) = min (min mine.len other.len) e

unfoldable pub common_prefix_from_to : ChunkedBuf → ChunkedBuf → ℕ → Option ℕ → Option ℕ
common_prefix_from_to mine other start end =
    let limit = max_cmp mine other end in compare_rounds (limit - start) mine other limit start

unfoldable pub common_prefix_from : ChunkedBuf → ChunkedBuf → ℕ → Option ℕ
common_prefix_from mine other start = common_prefix_from_to mine other start none

-- `self.get_chunk(pos)[0]`
unfoldable pub at : ChunkedBuf → ℕ → Option ℕ
at b pos = do chunk ← b.get_chunk pos; get_elem? chunk 0

-- `IterChunks::next`: the chunk and the new `start`, or `none` at the end. The outer option is a panic.
unfoldable pub next_chunk : ChunkedBuf → ℕ → ℕ → Option (Option (Bytes × ℕ))
next_chunk b start end = if start == end then some none else (do
  chunk ← b.get_chunk start
  let cut = if ltb end (start + length chunk) then take (end - start) chunk else chunk
  some (some (cut, start + length cut)))

-- All the chunks of an `IterChunks`, in order.
unfoldable pub chunk_rounds : ℕ → ChunkedBuf → ℕ → ℕ → Option (List Bytes)
chunk_rounds zero b start end = none
chunk_rounds (suc fuel) b start end = do
  step ← next_chunk b start end
  elim step [
    | none ↦ some []
    | some (chunk, start') ↦ (do rest ← chunk_rounds fuel b start' end; some (chunk ∷ rest))
  ]

unfoldable pub iter_chunks : ChunkedBuf → ℕ → ℕ → Option (List Bytes)
iter_chunks b start end = do
  assert (leb start end)
  assert (leb end b.len)
  chunk_rounds (suc (end - start)) b start end

-- `ReadAt::read_at`, with the room left in the reader's buffer: what is read.
unfoldable pub read_at : ChunkedBuf → ℕ → ℕ → Option Bytes
read_at b start room =
    if leb b.len start
    then some []
    else (do chunk ← b.get_chunk start; some (take (min (length chunk) room) chunk))

-- `ReadAtCursor`: its `read`, and its position.
unfoldable pub cursor_read : ChunkedBuf → ℕ → ℕ → Option (Bytes × ℕ)
cursor_read b start room = do res ← read_at b start room; some (res, start + length res)

-- Reads one after the other, each with its own room: what they return, and the last position.
unfoldable pub cursor_reads : ChunkedBuf → ℕ → List ℕ → Option (List Bytes × ℕ)
cursor_reads b start [] = some ([], start)
cursor_reads b start (room ∷ rooms) = do
  (res, start') ← cursor_read b start room
  (rest, last) ← cursor_reads b start' rooms
  some (res ∷ rest, last)

-- A chunk of `h` from position `start` on, not empty.
abbrev pub ChunkAt : Bytes → ℕ → Option Bytes → Type 0
ChunkAt h start r =
    (c : Bytes) × (r ≡ some c)
    × (0 < length c)
    × (start + length c ≤ length h)
    × (c ≡ take (length c) (drop start h))

-- The contract of the trait: the buffer holds `h`, of which what lies before `lo` was discarded.
pub record Serves (b : ChunkedBuf) (lo : ℕ) (h : Bytes) : Type 0 where
  pub len_eq : b.len ≡ length h
  pub chunk_at : (start : ℕ) → lo ≤ start → start < length h → ChunkAt h start (b.get_chunk start)
