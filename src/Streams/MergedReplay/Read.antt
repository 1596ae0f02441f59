-- ===== src/Streams/MergedReplay/Read.antt =====
-- What a poll of the canonical replay gives, by cases.
use faf_rust_replayserver.Base.{
  Bytes, ℕ, ◌+◌, ◌-◌, ◌≤◌, ◌<◌, ◌≡◌, refl, sym, ap, ◌∙◌, ◌⊎◌, inl, inr, min, true, false, [], ◌++◌,
  Option, some, none, arith, length, take, drop, leb, ltb, ltb→lt, ltb→ge, leb→le, leb→gt, le→leb,
  lt→ltb, ge→ltb, gt→leb, length-append, length-take, length-drop, take-take, take-zero, drop-take,
  drop-append_of_le, drop-append_of_ge, take-append_of_ge, append-nil, Bool-cases,
}
use faf_rust_replayserver.Util.BufDeque
use faf_rust_replayserver.Util.BufDeque.{window_start}
use faf_rust_replayserver.Util.BufDeque.Chunk.{as_chunked-Serves}
use faf_rust_replayserver.Util.ChunkedBuf.{ChunkAt, Serves}
use faf_rust_replayserver.Util.ChunkedBuf.Chunks.{slice}
use faf_rust_replayserver.Streams.MergedReplay.{
  MergedReplay, Polled, header_bytes, header_len, get_chunk, as_chunked, poll_read,
  wait_for_read_event, len,
}
use faf_rust_replayserver.Streams.MergedReplay.Laws.{Holds}

-- What readers may see, when `c` is the data merged so far.
abbrev pub visible : MergedReplay → Bytes → Bytes
visible m c = header_bytes m.header ++ take m.delayed_data_len c

module _ (m : MergedReplay) (c : Bytes) (v : Holds m c) where
  pub len-visible : len m ≡ length (visible m c)
  len-visible = omega (
    arith,
    v.delayed,
    length-append (header_bytes m.header) (take m.delayed_data_len c),
    length-take m.delayed_data_len c,
  )

  header-ChunkAt :
      (start : ℕ) → start < header_len m → ChunkAt (visible m c) start (get_chunk m start)
  unfolding get_chunk
  header-ChunkAt start lt =
      let h = header_bytes m.header in
      let n = length-drop start h in
      (
        drop start h,
        rw (lt→ltb start (header_len m) lt),
        omega (arith, n),
        omega (arith, n, length-append h (take m.delayed_data_len c)),
        sym (
            ap (take (length (drop start h))) (drop-append_of_le start h _ (omega arith))
            ∙ take-append_of_ge (length (drop start h)) 0 (drop start h) _ (omega arith)
            ∙ ap (◌++◌ (drop start h)) (take-zero (take m.delayed_data_len c))
            ∙ append-nil (drop start h)),
      )

  data-ChunkAt :
      (start pos : ℕ)
      → start ≡ header_len m + pos
      → pos < m.delayed_data_len
      → pos ≡ start - header_len m
      → ChunkAt c pos (BufDeque.get_chunk m.content pos)
      → ChunkAt (visible m c) start (get_chunk m start)
  unfolding get_chunk
  data-ChunkAt start pos e lt e' (chunk, got, pos', fits, eq) =
      let k = min (length chunk) (m.delayed_data_len - pos) in
      let n = length-take k chunk in
      (
        take k chunk,
        simp (
          ge→ltb start (header_len m) (omega arith),
          ← e',
          le→leb pos m.delayed_data_len (omega arith),
          got,
        ),
        omega (arith, n),
        omega (arith, n, len-visible, v.delayed),
        ap (take k) eq
            ∙ take-take k (length chunk) (drop pos c)
            ∙ ap (λ j. take j (drop pos c))
                {y = min (length (take k chunk)) (m.delayed_data_len - pos)} (omega (arith, n))
            ∙ sym (take-take (length (take k chunk)) (m.delayed_data_len - pos) (drop pos c))
            ∙ ap (take (length (take k chunk))) (
                sym (
                  drop-append_of_ge start pos (header_bytes m.header) _ e
                  ∙ drop-take pos m.delayed_data_len c)),
      )

  -- A canonical replay meets the contract of `ChunkedBuf` for what is visible of it: the header
  -- followed by the delayed data.
  pub as_chunked-visible : Serves (as_chunked m) 0 (visible m c)
  as_chunked-visible = record {
    len_eq = len-visible;
    chunk_at = λ start lo hi. elim (Bool-cases (ltb start (header_len m))) [
      | inl header ↦ header-ChunkAt start (ltb→lt _ _ header)
      | inr past ↦
          let ge : header_len m ≤ start = ltb→ge _ _ past in
          data-ChunkAt start (start - header_len m) (omega arith) (omega (arith, len-visible)) refl
            ((as_chunked-Serves v.rep).chunk_at (start - header_len m) (omega (arith, v.whole))
              (omega (arith, len-visible, v.delayed)))
    ];
  }

  module _ (position task room : ℕ) where
    -- The three answers of a poll.
    abbrev pub Copies : Option Polled → Type 0
    Copies o =
        (bytes : Bytes) × (o
          ≡ some (record { ready = some bytes; position = position + length bytes; replay = m }))
        × (position < length (visible m c))
        × (bytes ≡ slice (visible m c) position (position + length bytes))
        × (length bytes ≤ room)
        × (min room 1 ≤ length bytes)
        × (position + length bytes ≤ length (visible m c))

    abbrev pub Ends : Option Polled → Type 0
    Ends o =
        (o ≡ some (record { ready = some []; position = position; replay = m }))
        × (length (visible m c) ≤ position)
        × (m.finished ≡ true)

    abbrev pub Waits : Option Polled → Type 0
    Waits o =
        (o
          ≡ some
              (record { ready = none; position = position; replay = wait_for_read_event m task }))
        × (length (visible m c) ≤ position)
        × (m.finished ≡ false)

    copied :
        position < length (visible m c)
        → ChunkAt (visible m c) position (get_chunk m position)
        → Copies (poll_read m position task room)
    unfolding poll_read
    copied lt (chunk, got, pos, fits, e) =
        let k = min (length chunk) room in
        let n : length (take k chunk) ≡ k = omega (arith, length-take k chunk) in
        (
          take k chunk,
          simp (gt→leb (len m) position (omega (arith, len-visible)), got)
              (ap
                (λ j.
                  some
                    (record { ready = some (take k chunk); position = position + j; replay = m }))
                (sym n)),
          lt,
          ap (take k) e
              ∙ take-take k (length chunk) (drop position (visible m c))
              ∙ ap (λ j. take j (drop position (visible m c)))
                  {y = position + length (take k chunk) - position} (omega (arith, n)),
          omega arith,
          omega arith,
          omega arith,
        )

    -- A poll of a canonical replay never panics: it copies the bytes of the visible replay (the
    -- header, then the delayed data) at the position, at most `room` and at least one when there
    -- is room, and moves past them; or the position is at the end, and it reports the end if the
    -- replay is finished, and otherwise registers the task to be woken.
    pub poll_read-cases :
        Copies (poll_read m position task room)
        ⊎ Ends (poll_read m position task room)
        ⊎ Waits (poll_read m position task room)
    unfolding poll_read
    poll_read-cases = elim (Bool-cases (leb (len m) position)) [
      | inr more ↦
          let lt : position < length (visible m c) =
            omega (arith, leb→gt (len m) position more, len-visible) in
          inl (copied lt (as_chunked-visible.chunk_at position (omega arith) lt))
      | inl past ↦
          let le : length (visible m c) ≤ position =
            omega (arith, leb→le (len m) position past, len-visible) in
          elim (Bool-cases m.finished) [
            | inl over ↦ inr (inl (simp (past, over), le, over))
            | inr open' ↦ inr (inr (simp (past, open'), le, open'))
          ]
    ]
