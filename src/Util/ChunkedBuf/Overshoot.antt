-- ===== src/Util/ChunkedBuf/Overshoot.antt =====
-- `common_prefix_from_to` and the end that it is given.
use faf_rust_replayserver.Base.{
  Bytes, ℕ, zero, suc, ◌+◌, ◌-◌, ◌≤◌, ◌<◌, ◌≡◌, min, some, arith, length, ltb, lt→ltb, ge→ltb,
  Bool-cases, inl, inr,
}
use faf_rust_replayserver.Util.ChunkedBuf.{
  ChunkedBuf, eq_len, compare_rounds, max_cmp, common_prefix_from_to,
}

-- At the limit, any fuel returns the position.
past_limit :
    (fuel : ℕ) (mine other : ChunkedBuf) (limit at : ℕ)
    → limit ≤ at
    → compare_rounds fuel mine other limit at ≡ some at
unfolding compare_rounds
past_limit zero mine other limit at le = rw (ge→ltb at limit le)
past_limit (suc fuel) mine other limit at le = rw (ge→ltb at limit le)

first_round :
    (fuel : ℕ) (mine other : ChunkedBuf) (limit start : ℕ) (c c' : Bytes)
    → start < limit
    → mine.get_chunk start ≡ some c
    → other.get_chunk start ≡ some c'
    → limit ≤ start + eq_len c c'
    → compare_rounds (suc fuel) mine other limit start ≡ some (start + eq_len c c')
unfolding compare_rounds
first_round fuel mine other limit start c c' lt got got' le =
    elim (Bool-cases (ltb (eq_len c c') (min (length c) (length c')))) [
      | inl stop ↦ rw (lt→ltb start limit lt, got, got', stop)
      | inr on ↦ rw (
        lt→ltb start limit lt,
        got,
        got',
        on,
        past_limit fuel mine other limit (start + eq_len c c') le,
      )
    ]

-- When both buffers reach `end`, and their chunks at `start` agree to a position past `end`,
-- `common_prefix_from_to` with the end `end` returns a position past `end`.
pub common_prefix_from_to_overshoots :
    (mine other : ChunkedBuf) (start end : ℕ) (c c' : Bytes)
    → start < end
    → end ≤ mine.len
    → end ≤ other.len
    → mine.get_chunk start ≡ some c
    → other.get_chunk start ≡ some c'
    → end < start + eq_len c c'
    → (r : ℕ) × (common_prefix_from_to mine other start (some end) ≡ some r) × (end < r)
unfolding common_prefix_from_to max_cmp
common_prefix_from_to_overshoots mine other start end c c' lt le le' got got' past =
    let e : min (min mine.len other.len) end ≡ end = omega arith in
    let k : end - start ≡ suc (end - start - 1) = omega arith in
    (
      start + eq_len c c',
      rw (e, k) (first_round (end - start - 1) mine other end start c c' lt got got' (omega arith)),
      past,
    )
