-- ===== src/Util/ChunkedBuf/Prefix.antt =====
-- `common_prefix_from_to`, against the data that two buffers serve.
use mathlib.Core.Path.{subst}
use faf_rust_replayserver.Base.{
  Bytes, ℕ, zero, suc, ◌+◌, ◌-◌, ◌≤◌, ◌<◌, ◌≡◌, ◌≢◌, refl, sym, ap, ◌∙◌, ◌⊎◌, inl, inr, min, [],
  ◌∷◌, Option, none, some, arith, ltb, ltb→lt, ltb→ge, lt→ltb, ge→ltb, ◌==◌, length, get_elem?,
  take, drop, Bool-cases, get_elem?-take, get_elem?-drop,
}
use faf_rust_replayserver.Util.ChunkedBuf.{
  ChunkedBuf, ChunkAt, Serves, eq_len, compare_rounds, max_cmp, common_prefix_from_to,
}

-- The two agree at every position from `from` up to `to`.
abbrev pub Agree : Bytes → Bytes → ℕ → ℕ → Type 0
Agree g h from to = (i : ℕ) → from ≤ i → i < to → get_elem? g i ≡ get_elem? h i

-- Both have a byte at `i`, and not the same one.
pub record Differ (g h : Bytes) (i : ℕ) : Type 0 where
  pub left : i < length g
  pub right : i < length h
  pub ne : get_elem? g i ≢ get_elem? h i

eq_len-le : (xs ys : Bytes) → (eq_len xs ys ≤ length xs) × (eq_len xs ys ≤ length ys)
unfolding eq_len
eq_len-le (x ∷ xs) (y ∷ ys) = ground (arith, eq_len-le xs ys)
eq_len-le [] _ = ground arith
eq_len-le _ _ = ground arith

eq_len-agree : (xs ys : Bytes) (i : ℕ) → i < eq_len xs ys → get_elem? xs i ≡ get_elem? ys i
unfolding eq_len
eq_len-agree (x ∷ xs) (y ∷ ys) zero h = ground arith
eq_len-agree (x ∷ xs) (y ∷ ys) (suc i) h = eq_len-agree xs ys i (ground arith)
eq_len-agree [] _ i h = absurd (ground arith)
eq_len-agree _ _ i h = absurd (ground arith)

eq_len-differ :
    (xs ys : Bytes)
    → eq_len xs ys < length xs
    → eq_len xs ys < length ys
    → get_elem? xs (eq_len xs ys) ≢ get_elem? ys (eq_len xs ys)
unfolding eq_len
eq_len-differ (x ∷ xs) (y ∷ ys) h k = elim (Bool-cases (x == y)) [
  | inl same ↦ rw same (eq_len-differ xs ys (ground arith) (ground arith))
  | inr other ↦ rw other (λ e. ground arith)
]
eq_len-differ [] _ h k = absurd (ground arith)
eq_len-differ _ _ h k = absurd (ground arith)

-- A chunk holds the bytes of `h` from `start` on.
pub get_elem?-chunk :
    (h c : Bytes) (start i : ℕ)
    → c ≡ take (length c) (drop start h)
    → i < length c
    → get_elem? c i ≡ get_elem? h (start + i)
get_elem?-chunk h c start i e lt =
    ap (λ t. get_elem? t i) e
    ∙ get_elem?-take (length c) i (drop start h) lt
    ∙ get_elem?-drop start i h

-- What a comparison from `start` that may stop from `limit` on returns.
pub record Compared (g h : Bytes) (start limit r : ℕ) : Type 0 where
  pub from : start ≤ r
  pub agree : Agree g h start r
  pub stop : (limit ≤ r) ⊎ Differ g h r
  pub within : (r ≡ start) ⊎ ((r ≤ length g) × (r ≤ length h))

abbrev pub Compares : Bytes → Bytes → ℕ → ℕ → Option ℕ → Type 0
Compares g h start limit o = (r : ℕ) × (o ≡ some r) × Compared g h start limit r

module _ (g h : Bytes) where
  done-Compares : (at limit : ℕ) → limit ≤ at → Compares g h at limit (some at)
  done-Compares at limit done = (
    at,
    refl,
    record {
      from = omega arith;
      agree = λ i lo hi. absurd (omega arith);
      stop = inl done;
      within = inl refl;
    },
  )

  Agree-append : (a b c : ℕ) → Agree g h a b → Agree g h b c → Agree g h a c
  Agree-append a b c f k i lo hi = elim (Bool-cases (ltb i b)) [
    | inl lt ↦ f i lo (ltb→lt i b lt)
    | inr ge ↦ k i (ltb→ge i b ge) hi
  ]

  module _ (at : ℕ) (c c' : Bytes) (e : c ≡ take (length c) (drop at g))
      (e' : c' ≡ take (length c') (drop at h)) (bound : at + length c ≤ length g)
      (bound' : at + length c' ≤ length h) where
    round-Agree : Agree g h at (at + eq_len c c')
    round-Agree i lo hi =
        let n = eq_len-le c c' in
        let k : at + (i - at) ≡ i = omega arith in
        subst (λ j. get_elem? g j ≡ get_elem? h j) k
          (sym (get_elem?-chunk g c at (i - at) e (omega (arith, n.0)))
            ∙ eq_len-agree c c' (i - at) (omega arith)
            ∙ get_elem?-chunk h c' at (i - at) e' (omega (arith, n.1)))

    round-Differ : eq_len c c' < length c → eq_len c c' < length c' → Differ g h (at + eq_len c c')
    round-Differ lt lt' = record {
      left = omega arith;
      right = omega arith;
      ne = λ q. eq_len-differ c c' lt lt' (
          get_elem?-chunk g c at (eq_len c c') e lt
          ∙ q
          ∙ sym (get_elem?-chunk h c' at (eq_len c c') e' lt'));
    }

    stopped-Compares :
        (limit : ℕ)
        → eq_len c c' < length c
        → eq_len c c' < length c'
        → Compares g h at limit (some (at + eq_len c c'))
    stopped-Compares limit lt lt' = (
      at + eq_len c c',
      refl,
      record {
        from = omega arith;
        agree = round-Agree;
        stop = inr (round-Differ lt lt');
        within = inr (omega arith);
      },
    )

    further-Compares :
        (limit : ℕ) (o : Option ℕ)
        → Compares g h (at + eq_len c c') limit o
        → Compares g h at limit o
    further-Compares limit o (r, run, x) = (
      r,
      run,
      record {
        from = omega (arith, x.from);
        agree = Agree-append at (at + eq_len c c') r round-Agree x.agree;
        stop = x.stop;
        within = inr (grind (arith, x.within, eq_len-le c c'));
      },
    )

-- The buffers that are compared, and what they hold.
module _ (mine other : ChunkedBuf) (lo lo' : ℕ) (g h : Bytes) (s : Serves mine lo g)
    (s' : Serves other lo' h) where
  round_Compares :
      (fuel limit at : ℕ)
      → at < limit
      → ChunkAt g at (mine.get_chunk at)
      → ChunkAt h at (other.get_chunk at)
      → ((n : ℕ)
          → 0 < n
          → Compares g h (at + n) limit (compare_rounds fuel mine other limit (at + n)))
      → Compares g h at limit (compare_rounds (suc fuel) mine other limit at)
  unfolding compare_rounds
  round_Compares fuel limit at lt (c, got, pos, bound, e) (c', got', pos', bound', e') later =
      elim (Bool-cases (ltb (eq_len c c') (min (length c) (length c')))) [
        | inl less ↦
            let l : eq_len c c' < min (length c) (length c') = ltb→lt _ _ less in
            rw (lt→ltb at limit lt, got, got', less)
              (stopped-Compares g h at c c' e e' bound bound' limit (omega arith) (omega arith))
        | inr all ↦
            let l : min (length c) (length c') ≤ eq_len c c' = ltb→ge _ _ all in
            rw (lt→ltb at limit lt, got, got', all)
              (further-Compares g h at c c' e e' bound bound' limit _
                (later (eq_len c c') (omega arith)))
      ]

  compare_rounds-Compares :
      (fuel limit at : ℕ)
      → lo ≤ at
      → lo' ≤ at
      → limit ≤ length g
      → limit ≤ length h
      → limit - at ≤ fuel
      → Compares g h at limit (compare_rounds fuel mine other limit at)
  unfolding compare_rounds
  compare_rounds-Compares zero limit at l l' b b' enough =
      rw (ge→ltb at limit (omega arith)) (done-Compares g h at limit (omega arith))
  compare_rounds-Compares (suc fuel) limit at l l' b b' enough = elim (Bool-cases (ltb at limit)) [
    | inr done ↦ rw done (done-Compares g h at limit (ltb→ge _ _ done))
    | inl more ↦
        let lt : at < limit = ltb→lt _ _ more in
        round_Compares fuel limit at lt (s.chunk_at at l (omega arith))
          (s'.chunk_at at l' (omega arith))
          λ n pos.
            compare_rounds-Compares fuel limit (at + n) (omega arith) (omega arith) b b'
              (omega arith)
  ]

  -- For two buffers that serve the data `g` and `h` from positions up to `start` on, the
  -- comparison returns a position from `start` on up to which `g` and `h` agree, and at which they
  -- differ unless it is at or past the limit; it is not past the end of either unless nothing was
  -- compared.
  pub common_prefix_from_to-Compares :
      (start : ℕ) (end : Option ℕ)
      → lo ≤ start
      → lo' ≤ start
      → Compares g h start (max_cmp mine other end) (common_prefix_from_to mine other start end)
  unfolding common_prefix_from_to max_cmp
  common_prefix_from_to-Compares start none l l' =
      compare_rounds-Compares _ _ start l l' (omega (arith, s.len_eq, s'.len_eq))
        (omega (arith, s.len_eq, s'.len_eq)) (omega arith)
  common_prefix_from_to-Compares start (some e) l l' =
      compare_rounds-Compares _ _ start l l' (omega (arith, s.len_eq, s'.len_eq))
        (omega (arith, s.len_eq, s'.len_eq)) (omega arith)
