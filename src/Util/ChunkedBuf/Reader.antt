-- ===== src/Util/ChunkedBuf/Reader.antt =====
-- `ReadAt` and `ReadAtCursor`, against the data that a buffer serves.
use faf_rust_replayserver.Base.{
  Bytes, ℕ, ◌+◌, ◌-◌, ◌≤◌, ◌≡◌, refl, sym, ap, ap₂, ◌∙◌, ◌⊎◌, inl, inr, min, List, [], ◌∷◌, ◌++◌,
  Option, some, false, arith, leb, leb→le, leb→gt, length, take, drop, concat, Bool-cases,
  take-take, take-zero, length-take,
}
use faf_rust_replayserver.Util.ChunkedBuf.{
  ChunkedBuf, ChunkAt, Serves, read_at, cursor_read, cursor_reads,
}
use faf_rust_replayserver.Util.ChunkedBuf.Chunks.{slice, slice-append}

-- The read returns the bytes from `start` to the new position, and none only for lack of room or
-- of data.
abbrev pub Reads : Bytes → ℕ → ℕ → Option (Bytes × ℕ) → Type 0
Reads h start room o =
    (res : Bytes) × (last : ℕ) × (o ≡ some (res, last))
    × (start ≤ last)
    × ((last ≤ length h) ⊎ (last ≡ start))
    × (res ≡ slice h start last)
    × (last ≤ start + room)
    × (start + min (min room 1) (length h - start) ≤ last)

module _ (b : ChunkedBuf) (lo : ℕ) (h : Bytes) (s : Serves b lo h) where
  chunk-Reads :
      (start room : ℕ)
      → leb b.len start ≡ false
      → ChunkAt h start (b.get_chunk start)
      → Reads h start room (cursor_read b start room)
  unfolding cursor_read read_at
  chunk-Reads start room more (c, got, pos, fits, e) =
      let k = min (length c) room in
      let n : length (take k c) ≡ k = omega (arith, length-take k c) in
      (
        take k c,
        start + k,
        rw (more, got) (ap (λ m. some (take k c, start + m)) n),
        omega arith,
        inl (omega arith),
        ap (take k) e
            ∙ take-take k (length c) (drop start h)
            ∙ ap (λ m. take m (drop start h)) {x = min k (length c)} {y = start + k - start}
                (omega arith),
        omega arith,
        omega arith,
      )

  pub cursor_read-Reads :
      (start room : ℕ) → lo ≤ start → Reads h start room (cursor_read b start room)
  unfolding cursor_read read_at
  cursor_read-Reads start room l = elim (Bool-cases (leb b.len start)) [
    | inl past ↦ (
      [],
      start,
      rw past (ap (λ m. some ([], m)) {x = start + 0} (omega arith)),
      omega arith,
      inr refl,
      sym (
          ap (λ m. take m (drop start h)) {x = start - start} {y = 0} (omega arith)
          ∙ take-zero (drop start h)),
      omega arith,
      omega (arith, s.len_eq, leb→le _ _ past),
    )
    | inr more ↦
        chunk-Reads start room more (s.chunk_at start l (omega (arith, s.len_eq, leb→gt _ _ more)))
  ]

  abbrev pub ReadsAll : ℕ → Option (List Bytes × ℕ) → Type 0
  ReadsAll start o =
      (rs : List Bytes) × (last : ℕ) × (o ≡ some (rs, last))
      × (start ≤ last)
      × (concat rs ≡ slice h start last)

  then-ReadsAll :
      (start room : ℕ) (rooms : List ℕ)
      → Reads h start room (cursor_read b start room)
      → ((start' : ℕ) → start ≤ start' → ReadsAll start' (cursor_reads b start' rooms))
      → ReadsAll start (cursor_reads b start (room ∷ rooms))
  unfolding cursor_reads concat
  then-ReadsAll start room rooms (res, start', run, le, _, e, _, _) later =
      let (rs, last, run', le', e') = later start' le in
      (
        res ∷ rs,
        last,
        rw (run, run'),
        omega arith,
        ap₂ ◌++◌ e e' ∙ slice-append h start start' last le le',
      )

  -- On a buffer that serves the data `h`, reads of any sizes through a cursor, from a position
  -- that was not discarded, all succeed, and together return the bytes of `h` from that position
  -- to the last position of the cursor.
  pub cursor_reads-ReadsAll :
      (start : ℕ) (rooms : List ℕ) → lo ≤ start → ReadsAll start (cursor_reads b start rooms)
  unfolding cursor_reads concat
  cursor_reads-ReadsAll start [] l = (
    [],
    start,
    refl,
    omega arith,
    sym (
        ap (λ m. take m (drop start h)) {x = start - start} {y = 0} (omega arith)
        ∙ take-zero (drop start h)),
  )
  cursor_reads-ReadsAll start (room ∷ rooms) l =
      then-ReadsAll start room rooms (cursor_read-Reads start room l)
        λ start' le. cursor_reads-ReadsAll start' rooms (omega arith)
