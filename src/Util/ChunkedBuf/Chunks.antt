-- ===== src/Util/ChunkedBuf/Chunks.antt =====
-- `IterChunks` and `at`, against the data that a buffer serves.
use faf_rust_replayserver.Base.{
  Bytes, ℕ, zero, suc, ◌+◌, ◌-◌, ◌≤◌, ◌<◌, ◌≡◌, sym, ap, ap₂, ◌∙◌, ◌⊎◌, inl, inr, min, List, [],
  ◌∷◌, ◌++◌, Option, none, some, arith, ltb, leb, ltb→lt, ltb→ge, le→leb, gt→leb, ◌==◌, length,
  get_elem?, take, drop, concat, Bool-cases, take-take, take-add, drop-drop, length-take,
  length-drop, take-zero, true, false,
}
use faf_rust_replayserver.Util.ChunkedBuf.{
  ChunkedBuf, ChunkAt, Serves, next_chunk, chunk_rounds, iter_chunks, at,
}
use faf_rust_replayserver.Util.ChunkedBuf.Prefix.{get_elem?-chunk}

-- The bytes of `h` from `start` up to `end`.
abbrev pub slice : Bytes → ℕ → ℕ → Bytes
slice h start end = take (end - start) (drop start h)

pub slice-append :
    (h : Bytes) (a b c : ℕ) → a ≤ b → b ≤ c → slice h a b ++ slice h b c ≡ slice h a c
slice-append h a b c l k =
    ap (λ t. slice h a b ++ take (c - b) t)
      (ap (λ m. drop m h) {y = a + (b - a)} (omega arith) ∙ sym (drop-drop (b - a) a h))
    ∙ sym (take-add (b - a) (c - b) (drop a h))
    ∙ ap (λ m. take m (drop a h)) {x = b - a + (c - b)} (omega arith)

pub length-slice :
    (h : Bytes) (start end : ℕ)
    → start ≤ end
    → end ≤ length h
    → length (slice h start end) ≡ end - start
length-slice h start end le bound =
    omega (arith, length-take (end - start) (drop start h), length-drop start h)

-- One step of the iterator: a part of the range that is not empty.
abbrev Steps : Bytes → ℕ → ℕ → Option (Option (Bytes × ℕ)) → Type 0
Steps h start end o =
    (cut : Bytes) × (start' : ℕ) × (o ≡ some (some (cut, start')))
    × (start < start')
    × (start' ≤ end)
    × (cut ≡ slice h start start')

module _ (b : ChunkedBuf) (lo : ℕ) (h : Bytes) (s : Serves b lo h) where
  next_chunk-Steps :
      (start end : ℕ)
      → lo ≤ start
      → start < end
      → end ≤ length h
      → ChunkAt h start (b.get_chunk start)
      → Steps h start end (next_chunk b start end)
  unfolding next_chunk
  next_chunk-Steps start end l lt bound (c, got, pos, fits, e) =
      let ne : (start == end) ≡ false = ground arith in
      elim (Bool-cases (ltb end (start + length c))) [
        | inl over ↦
            let o : end < start + length c = ltb→lt _ _ over in
            (
              take (end - start) c,
              end,
              rw (ne, got, over)
                  (ap (λ k. some (some (take (end - start) c, k)))
                    {x = start + length (take (end - start) c)}
                    (omega (arith, length-take (end - start) c))),
              lt,
              omega arith,
              ap (take (end - start)) e
                  ∙ take-take (end - start) (length c) (drop start h)
                  ∙ ap (λ m. take m (drop start h)) {x = min (end - start) (length c)}
                      (omega arith),
            )
        | inr all ↦
            let o : start + length c ≤ end = ltb→ge _ _ all in
            (
              c,
              start + length c,
              rw (ne, got, all),
              omega arith,
              o,
              e ∙ ap (λ m. take m (drop start h)) {y = start + length c - start} (omega arith),
            )
      ]

  -- The list is the range from `start` to `end`, in pieces.
  abbrev pub Lists : ℕ → ℕ → Option (List Bytes) → Type 0
  Lists start end o = (cs : List Bytes) × (o ≡ some cs) × (concat cs ≡ slice h start end)

  step-Lists :
      (fuel start end : ℕ)
      → Steps h start end (next_chunk b start end)
      → ((start' : ℕ)
          → start < start'
          → start' ≤ end
          → Lists start' end (chunk_rounds fuel b start' end))
      → Lists start end (chunk_rounds (suc fuel) b start end)
  unfolding chunk_rounds concat
  step-Lists fuel start end (cut, start', run, lt, le, e) later =
      let (cs, run', e') = later start' lt le in
      (cut ∷ cs, rw (run, run'), ap₂ ◌++◌ e e' ∙ slice-append h start start' end (omega arith) le)

  chunk_rounds-Lists :
      (fuel start end : ℕ)
      → lo ≤ start
      → start ≤ end
      → end ≤ length h
      → end - start < fuel
      → Lists start end (chunk_rounds fuel b start end)
  unfolding chunk_rounds next_chunk concat
  chunk_rounds-Lists zero start end l le bound enough = absurd (omega arith)
  chunk_rounds-Lists (suc fuel) start end l le bound enough = elim (Bool-cases (ltb start end)) [
    | inl more ↦
        let lt : start < end = ltb→lt _ _ more in
        step-Lists fuel start end
          (next_chunk-Steps start end l lt bound (s.chunk_at start l (omega arith)))
          λ start' p q. chunk_rounds-Lists fuel start' end (omega arith) q bound (omega arith)
    | inr done ↦
        let e : (start == end) ≡ true = ground (arith, ltb→ge _ _ done) in
        (
          [],
          rw e,
          sym (
              ap (λ m. take m (drop start h)) {y = 0} (omega (arith, ltb→ge _ _ done))
              ∙ take-zero (drop start h)),
        )
  ]

  -- On a buffer that serves the data `h`, `iter_chunks` over a range within `h` that was not
  -- discarded ends, and the chunks it yields are together exactly that range.
  pub iter_chunks-Lists :
      (start end : ℕ)
      → lo ≤ start
      → start ≤ end
      → end ≤ length h
      → Lists start end (iter_chunks b start end)
  unfolding iter_chunks
  iter_chunks-Lists start end l le bound =
      rw (le→leb start end le, le→leb end b.len (omega (arith, s.len_eq)))
        (chunk_rounds-Lists (suc (end - start)) start end l le bound (omega arith))

  -- On a buffer that serves the data `h`, `at` returns the byte of `h` at any position within `h`
  -- that was not discarded.
  pub at-eq-get_elem? :
      (pos : ℕ)
      → lo ≤ pos
      → pos < length h
      → (x : ℕ) × (at b pos ≡ some x) × (get_elem? h pos ≡ some x)
  unfolding at
  at-eq-get_elem? pos l lt = first (s.chunk_at pos l lt)
    where
      first :
          ChunkAt h pos (b.get_chunk pos)
          → (x : ℕ) × (at b pos ≡ some x) × (get_elem? h pos ≡ some x)
      first ([], got, pos', fits, e) = absurd (omega arith)
      first (x ∷ c, got, pos', fits, e) = (
        x,
        rw got,
        ap (get_elem? h) {y = pos + 0} (omega arith)
            ∙ sym (get_elem?-chunk h (x ∷ c) pos 0 e (omega arith)),
      )

-- A range that is out of order, or runs past the end, is a panic.
pub iter_chunks_panics :
    (b : ChunkedBuf) (start end : ℕ)
    → (end < start) ⊎ (b.len < end)
    → iter_chunks b start end ≡ none
unfolding iter_chunks
iter_chunks_panics b start end (inl h) = rw (gt→leb start end h)
iter_chunks_panics b start end (inr h) = elim (Bool-cases (leb start end)) [
  | inl ord ↦ rw (ord, gt→leb end b.len h)
  | inr out ↦ rw out
]
