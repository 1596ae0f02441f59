-- ===== src/Util/BufDeque.antt =====
-- util/buf_deque.rs. A panic (`assert!`, `unwrap`, a slice out of range) is `none`. Positions are
-- numbers without a bound.
pub mod Rep
pub mod Append
pub mod Write
pub mod Discard
pub mod Chunk
use faf_rust_replayserver.Util.ChunkedBuf.{ChunkedBuf}
use faf_rust_replayserver.Base.{
  Bytes, ℕ, zero, suc, ◌+◌, ◌-◌, ◌*◌, ◌/◌, ◌%◌, min, max, Bool, List, [], ◌∷◌, ◌++◌, Option, none,
  some, ltb, leb, ◌==◌, ◌&&◌, if◌then◌else◌, ◌>>=◌, ◌>>◌, assert, length, get_elem?, take, drop,
  replicate,
}

abbrev pub chunk_size : ℕ
chunk_size = 4096

pub record BufDeque : Type 0 where
  pub chunks : List Bytes
  pub discarded_chunks : ℕ
  pub window_end : ℕ

unfoldable pub new : BufDeque
new = record { chunks = []; discarded_chunks = 0; window_end = 0 }

abbrev pub window_start : BufDeque → ℕ
window_start d = d.discarded_chunks * chunk_size

unfoldable pub window_size : BufDeque → Option ℕ
window_size d = do assert (leb (window_start d) d.window_end); some (d.window_end - window_start d)

-- `[0; CHUNK_SIZE]`
pub zeros : Bytes
zeros = replicate chunk_size 0

unfoldable pub no_space_in_last_chunk : BufDeque → Option Bool
no_space_in_last_chunk d = do size ← window_size d; some (size == length d.chunks * chunk_size)

-- The part of `get_last_chunk` that changes the deque; the chunk it returns is the last one.
unfoldable pub get_last_chunk : BufDeque → Option BufDeque
get_last_chunk d = do
  full ← no_space_in_last_chunk d
  some (if full then record d { chunks = d.chunks ++ zeros ∷ [] } else d)

-- `chunk[offset..].write(bytes)`, of bytes that fit
unfoldable pub overwrite : ℕ → Bytes → Bytes → Bytes
overwrite offset bytes chunk = take offset chunk ++ (bytes ++ drop (offset + length bytes) chunk)

-- A change of `self.chunks.back_mut().unwrap()`.
unfoldable pub modify_last : (Bytes → Bytes) → List Bytes → Option (List Bytes)
modify_last f [] = none
modify_last f (c ∷ []) = some (f c ∷ [])
modify_last f (c ∷ c' ∷ cs) = do rest ← modify_last f (c' ∷ cs); some (c ∷ rest)

-- The loop of `discard`.
unfoldable pub pop_front_until : ℕ → ℕ → List Bytes → List Bytes × ℕ
pop_front_until discardable discarded [] = ([], discarded)
pop_front_until discardable discarded (c ∷ cs) =
    let rest = pop_front_until discardable (discarded + 1) cs in
    if ltb discarded discardable then rest else (c ∷ cs, discarded)

unfoldable pub discard : BufDeque → ℕ → BufDeque
discard d until =
    let discardable = until / chunk_size in
    let (chunks, discarded) = pop_front_until discardable d.discarded_chunks d.chunks in
    record d { chunks = chunks; discarded_chunks = max discardable discarded }

-- The second half of `append_some`, with what the first half left of `buf`: returns `written`.
unfoldable pub append_to_chunk : BufDeque → Bytes → Option (ℕ × BufDeque)
append_to_chunk d [] = some (0, d)
append_to_chunk d (b ∷ bs) =
    let buf = b ∷ bs in
    let offset = d.window_end % chunk_size in
    let written = min (chunk_size - offset) (length buf) in
    do
      d' ← get_last_chunk d
      chunks ← modify_last (overwrite offset (take written buf)) d'.chunks
      some (written, record d' { chunks = chunks; window_end = d.window_end + written })

unfoldable pub append_some : BufDeque → Bytes → Option (ℕ × BufDeque)
append_some d buf =
    if ltb d.window_end (window_start d)
    then (let skipped = min (window_start d - d.window_end) (length buf) in
        do
          (written, d') ←
              append_to_chunk (record d { window_end = d.window_end + skipped }) (drop skipped buf)
          some (skipped + written, d'))
    else append_to_chunk d buf

-- `Write::write_all` of the standard library over `write`, and the `unwrap` of its callers: a write
-- of no byte is an error. Each round writes a byte, so `length buf` rounds are enough.
unfoldable pub write_rounds : ℕ → BufDeque → Bytes → Option BufDeque
write_rounds fuel d [] = some d
write_rounds zero d (b ∷ bs) = none
write_rounds (suc fuel) d (b ∷ bs) = do
  (n, d') ← append_some d (b ∷ bs)
  if n == 0 then none else write_rounds fuel d' (drop n (b ∷ bs))

unfoldable pub write_all : BufDeque → Bytes → Option BufDeque
write_all d buf = write_rounds (length buf) d buf

abbrev pub len : BufDeque → ℕ
len d = d.window_end

unfoldable pub get_chunk : BufDeque → ℕ → Option Bytes
get_chunk d start = do
  assert (leb (window_start d) start && ltb start d.window_end)
  size ← window_size d
  let offset = start - window_start d
  let chunk_idx = offset / chunk_size
  let chunk_start = offset % chunk_size
  let chunk_end = min chunk_size (size - chunk_idx * chunk_size)
  chunk ← get_elem? d.chunks chunk_idx
  assert (leb chunk_start chunk_end && leb chunk_end (length chunk))
  some (drop chunk_start (take chunk_end chunk))

-- `impl ChunkedBuf for BufDeque`
abbrev pub as_chunked : BufDeque → ChunkedBuf
as_chunked d = record { get_chunk = get_chunk d; len = len d }
