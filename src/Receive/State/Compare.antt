-- ===== src/Receive/State/Compare.antt =====
-- `ReplayState`: comparing with the canonical replay, and discarding what will not be compared.
use faf_rust_replayserver.Base.{
  Bytes, ℕ, ◌-◌, ◌≤◌, ◌≡◌, ◌⊎◌, inl, inr, max, Bool, true, false, Option, some, none, arith, length,
  le→leb, ◌==◌, ==_iff,
}
use faf_rust_replayserver.Util.BufDeque.{as_chunked, window_start}
use faf_rust_replayserver.Util.BufDeque.Chunk.{as_chunked-Serves}
use faf_rust_replayserver.Util.ChunkedBuf
use faf_rust_replayserver.Util.ChunkedBuf.{Serves}
use faf_rust_replayserver.Util.ChunkedBuf.Prefix.{
  Agree, Differ, Compared, Compares, common_prefix_from_to-Compares,
}
use faf_rust_replayserver.Streams.WriterReplay.Laws as Writer
use faf_rust_replayserver.Streams.MergedReplay.Laws as Merged
use faf_rust_replayserver.Streams.MergedReplay.{MergedReplay}
use faf_rust_replayserver.Receive.State.{
  ReplayState, diverges_at_stalemate, match_start_optimization, set_diverged, set_matching,
  discard_if_not_needed_for_checking_divergence,
}

-- A replay with data `h` that may still be compared with the canonical replay of length `n`: what
-- it discarded will not be read.
pub record Live (h : Bytes) (n : ℕ) (rs : ReplayState) : Type 0 where
  pub holds : Writer.Holds rs.r h
  pub matched : rs.data_matching_canon ≤ n
  pub window : window_start rs.r.content ≤ max rs.data_matching_canon (n - rs.stream_cmp_distance)

-- The canonical replay grows.
pub Live-mono :
    {h : Bytes} {n : ℕ} {rs : ReplayState} (n' : ℕ) → n ≤ n' → Live h n rs → Live h n' rs
Live-mono n' le v = record {
  holds = v.holds;
  matched = omega (arith, v.matched);
  window = omega (arith, v.window);
}

-- A live replay does not refuse to be read from the end of the canonical replay on.
pub window-le : {h : Bytes} {n : ℕ} {rs : ReplayState} → Live h n rs → window_start rs.r.content ≤ n
window-le v = omega (arith, v.window, v.matched)

-- A comparison with a shorter list stops at its end, or at a difference.
stop_at :
    (h c : Bytes) (start limit n r : ℕ)
    → Compared h c start limit r
    → limit ≡ n
    → n ≡ length c
    → length c ≤ length h
    → start ≤ n
    → (r ≡ n) ⊎ Differ h c r
stop_at h c start limit n r x e e' le lo = stops x.stop
  where
    stops : (limit ≤ r) ⊎ Differ h c r → (r ≡ n) ⊎ Differ h c r
    stops (inl past) = inl (grind (arith, x.within))
    stops (inr d) = inr d

-- Where `diverges_at_stalemate` starts to compare.
abbrev pub match_start : ReplayState → ℕ → ℕ
match_start rs n = max rs.data_matching_canon (match_start_optimization rs n)

abbrev pub Decides : Bytes → Bytes → ℕ → Option Bool → Type 0
Decides h c start o =
    ((o ≡ some false) × Agree h c start (length c)) ⊎ ((i : ℕ) × (o ≡ some true) × Differ h c i)

-- For a replay with data `h` that kept what may be compared, and that is at least as long as the
-- canonical data `c`, the check does not panic: it returns false only if `h` and `c` agree from
-- the start of the comparison to the end of `c`, and true only if they differ at some position.
pub diverges_at_stalemate-Decides :
    (h c : Bytes) (rs : ReplayState) (m : MergedReplay)
    → Live h (length c) rs
    → Merged.Holds m c
    → length c ≤ length h
    → Decides h c (match_start rs (length c)) (diverges_at_stalemate rs m)
unfolding diverges_at_stalemate ChunkedBuf.common_prefix_from ChunkedBuf.max_cmp
diverges_at_stalemate-Decides h c rs m v k le = compared (
    common_prefix_from_to-Compares _ _ _ _ h c (as_chunked-Serves v.holds.rep)
      (as_chunked-Serves k.rep) (match_start rs m.content.window_end) none
      (omega (arith, v.window, k.rep.end)) (omega (arith, k.whole)))
  where
    stopped :
        (r : ℕ)
        → ChunkedBuf.common_prefix_from_to
            (as_chunked rs.r.content)
            (as_chunked m.content)
            (match_start rs m.content.window_end)
            none
          ≡ some r
        → Agree h c (match_start rs m.content.window_end) r
        → (r ≡ m.content.window_end) ⊎ Differ h c r
        → Decides h c (match_start rs (length c)) (diverges_at_stalemate rs m)
    stopped r run agree (inl e) =
        let same : (r == m.content.window_end) ≡ true = (==_iff r _).1 e in
        inl (
          simp (
            le→leb m.content.window_end rs.r.content.window_end
                (omega (arith, v.holds.rep.end, k.rep.end)),
            run,
            same,
          ),
          λ i lo hi. agree i (omega (arith, k.rep.end)) (omega (arith, k.rep.end)),
        )
    stopped r run agree (inr d) =
        let other : (r == m.content.window_end) ≡ false = ground (arith, d.right, k.rep.end) in
        inr (
          r,
          simp (
            le→leb m.content.window_end rs.r.content.window_end
                (omega (arith, v.holds.rep.end, k.rep.end)),
            run,
            other,
          ),
          d,
        )

    compared :
        Compares h c
          (match_start rs m.content.window_end)
          (ChunkedBuf.max_cmp (as_chunked rs.r.content) (as_chunked m.content) none)
          (ChunkedBuf.common_prefix_from_to
            (as_chunked rs.r.content)
            (as_chunked m.content)
            (match_start rs m.content.window_end)
            none)
        → Decides h c (match_start rs (length c)) (diverges_at_stalemate rs m)
    compared (r, run, x) = stopped r run x.agree (
        stop_at h c _ _ _ r x (omega (arith, k.rep.end, v.holds.rep.end)) k.rep.end le
          (omega (arith, v.matched, k.rep.end)))

-- The replay was compared, up to the end of the canonical replay.
pub set_matching-Live :
    (h : Bytes) (n : ℕ) (rs : ReplayState) → Live h n rs → Live h n (set_matching rs n)
unfolding set_matching
set_matching-Live h n rs v = record {
  holds = Writer.discard-Holds (max n rs.data_matching_canon) v.holds;
  matched = omega (arith, v.matched);
  window = omega (
    arith,
    Writer.window_start-discard_le rs.r (max n rs.data_matching_canon)
        (max n rs.data_matching_canon) (omega (arith, v.window, v.matched)) (omega arith),
  );
}

pub matching-set_matching :
    (h : Bytes) (n : ℕ) (rs : ReplayState)
    → Live h n rs
    → (set_matching rs n).data_matching_canon ≡ n
unfolding set_matching
matching-set_matching h n rs v = omega (arith, v.matched)

pub discard_if_not_needed-Live :
    (h : Bytes) (n : ℕ) (rs : ReplayState)
    → Live h n rs
    → Live h n (discard_if_not_needed_for_checking_divergence rs n)
unfolding discard_if_not_needed_for_checking_divergence
discard_if_not_needed-Live h n rs v = record {
  holds = Writer.discard-Holds (match_start_optimization rs n) v.holds;
  matched = v.matched;
  window =
      Writer.window_start-discard_le rs.r (match_start_optimization rs n) _ v.window (omega arith);
}

pub set_diverged-Holds :
    (h : Bytes) (rs : ReplayState) → Writer.Holds rs.r h → Writer.Holds (set_diverged rs).r h
unfolding set_diverged
set_diverged-Holds h rs v = Writer.discard_all-Holds v
