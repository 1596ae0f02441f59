-- ===== src/Util/BufDeque/Chunk.antt =====
-- `get_chunk` of a `BufDeque`, and the contract of `ChunkedBuf`.
use faf_rust_replayserver.Base.{
  Bytes, ℕ, suc, ◌+◌, ◌-◌, ◌*◌, ◌/◌, ◌%◌, ◌≤◌, ◌<◌, ◌≡◌, refl, sym, ap, ◌∙◌, min, ◌∷◌, ◌++◌, some,
  arith, length, take, drop, concat, length-drop, length-take, drop-take, drop-drop, take-take,
  drop-append_of_le, drop-concat, take-append_of_le, get_elem?, get_elem?-some, All-get_elem?,
  le→leb, lt→ltb,
}
use faf_rust_replayserver.Util.ChunkedBuf.{ChunkAt, Serves}
use faf_rust_replayserver.Util.BufDeque.{
  BufDeque, chunk_size, window_start, window_size, get_chunk, len, as_chunked,
}
use faf_rust_replayserver.Util.BufDeque.Rep.{Rep}

module _ (d : BufDeque) (h : Bytes) (start : ℕ) (r : Rep d h) (lo : window_start d ≤ start)
    (hi : start < length h) where
  abbrev offset : ℕ
  offset = start - window_start d

  abbrev idx : ℕ
  idx = offset / chunk_size

  abbrev chunk_end : ℕ
  chunk_end = min chunk_size (d.window_end - window_start d - idx * chunk_size)

  -- What `h` has from `start` on begins in the chunk that `get_chunk` picks.
  rest_of_h :
      (chunk : Bytes)
      → drop idx d.chunks ≡ chunk ∷ drop (suc idx) d.chunks
      → length chunk ≡ chunk_size
      → drop start h
        ≡ take
            (length h - start)
            (drop (offset % chunk_size) chunk ++ concat (drop (suc idx) d.chunks))
  unfolding concat
  rest_of_h chunk e size =
      ap (λ m. drop m h) {y = window_start d + offset} (omega arith)
      ∙ sym (drop-drop offset (window_start d) h)
      ∙ ap (drop offset) (sym r.content)
      ∙ drop-take offset (d.window_end - window_start d) (concat d.chunks)
      ∙ ap (λ m. take m (drop offset (concat d.chunks))) {y = length h - start}
          (omega (arith, r.end))
      ∙ ap (take (length h - start)) (
          ap (λ m. drop m (concat d.chunks)) {y = idx * chunk_size + offset % chunk_size}
            (omega arith)
          ∙ sym (drop-drop (offset % chunk_size) (idx * chunk_size) (concat d.chunks))
          ∙ ap (drop (offset % chunk_size))
              (drop-concat chunk_size idx d.chunks r.sizes ∙ ap concat e)
          ∙ drop-append_of_le (offset % chunk_size) chunk _ (omega arith))

  chunk_of_h :
      (chunk : Bytes)
      → drop idx d.chunks ≡ chunk ∷ drop (suc idx) d.chunks
      → length chunk ≡ chunk_size
      → (n : ℕ) → n ≡ length (drop (offset % chunk_size) (take chunk_end chunk))
      → drop (offset % chunk_size) (take chunk_end chunk) ≡ take n (drop start h)
  chunk_of_h chunk e size n len =
      drop-take (offset % chunk_size) chunk_end chunk
      ∙ ap (λ m. take m (drop (offset % chunk_size) chunk)) {y = min n (length h - start)}
          (omega (
            arith,
            r.end,
            len,
            length-drop (offset % chunk_size) (take chunk_end chunk),
            length-take chunk_end chunk,
          ))
      ∙ sym (
          take-append_of_le (min n (length h - start)) (drop (offset % chunk_size) chunk) _ (
            omega (
              arith,
              r.end,
              len,
              length-drop (offset % chunk_size) (take chunk_end chunk),
              length-drop (offset % chunk_size) chunk,
              length-take chunk_end chunk,
            )))
      ∙ sym (take-take n (length h - start) _)
      ∙ ap (take n) (sym (rest_of_h chunk e size))

  found_chunk :
      (chunk : Bytes)
      → get_elem? d.chunks idx ≡ some chunk
      → drop idx d.chunks ≡ chunk ∷ drop (suc idx) d.chunks
      → length chunk ≡ chunk_size
      → ChunkAt h start (get_chunk d start)
  unfolding get_chunk window_size
  found_chunk chunk got e size =
      let n = length-drop (offset % chunk_size) (take chunk_end chunk) in
      let m = length-take chunk_end chunk in
      (
        drop (offset % chunk_size) (take chunk_end chunk),
        rw (
          le→leb _ _ lo,
          lt→ltb start d.window_end (omega (arith, r.end)),
          le→leb (window_start d) d.window_end (omega (arith, r.end)),
          got,
          le→leb (offset % chunk_size) chunk_end (omega (arith, r.end)),
          le→leb chunk_end (length chunk) (omega arith),
        ),
        omega (arith, r.end, n, m),
        omega (arith, r.end, n, m),
        chunk_of_h chunk e size _ refl,
      )

  get_chunk-ChunkAt : ChunkAt h start (get_chunk d start)
  get_chunk-ChunkAt =
      let (chunk, got, e) = get_elem?-some d.chunks idx (omega (arith, r.end, r.enough)) in
      found_chunk chunk got e (All-get_elem? _ d.chunks idx chunk r.sizes got)

-- A deque that stands for the data `h` meets the contract of `ChunkedBuf`: its length is that of
-- `h`, and `get_chunk` at any position of the window returns a part of `h` from there on that is
-- not empty.
pub as_chunked-Serves :
    {d : BufDeque} {h : Bytes} → Rep d h → Serves (as_chunked d) (window_start d) h
as_chunked-Serves {d} {h} r = record {
  len_eq = r.end;
  chunk_at = λ start lo hi. get_chunk-ChunkAt d h start r lo hi;
}
