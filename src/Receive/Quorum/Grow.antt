-- ===== src/Receive/Quorum/Grow.antt =====
-- `append_canon_data`, and the invariant of the shared state.
use faf_rust_replayserver.Base.{
  Bytes, ℕ, ◌≤◌, ◌≡◌, refl, false, ◌++◌, Option, some, arith, length, length-append,
}
use faf_rust_replayserver.Util.BufDeque.{BufDeque}
use faf_rust_replayserver.Util.ChunkedBuf.Chunks.{slice}
use faf_rust_replayserver.Streams.MergedReplay.{MergedReplay}
use faf_rust_replayserver.Streams.MergedReplay.Laws.{
  Merges, add_data-Merges, advance_delayed_data-Holds,
}
use faf_rust_replayserver.Streams.MergedReplay.Laws as Merged
use faf_rust_replayserver.Receive.State.{ReplayState, SharedState, append_canon_data}
use faf_rust_replayserver.Receive.State.Compare.{Live-mono, window-le}
use faf_rust_replayserver.Receive.Place.{
  Place, Headed, outside, reserved, member, candidate, At, SharedInv,
}
use faf_rust_replayserver.Receive.Quorum.Inv.{is_candidate}
use faf_rust_replayserver.Receive.Quorum.Shorten.{Good}

-- The canonical data grew to `c'`; no replay that is placed is too short for it.
module _ {H : ℕ → Bytes} {c : Bytes} {place : ℕ → Place} {s : SharedState}
    (v : SharedInv H c place s) (ext : Bytes) where
  grow-At :
      (p : Place) (h : Bytes) (rs : ReplayState)
      → is_candidate p ≡ false
      → (p ≡ member → length (c ++ ext) ≤ length h)
      → At p h c rs
      → At p h (c ++ ext) rs
  grow-At outside h rs k long a = a
  grow-At reserved h rs k long a = Live-mono _ (omega (arith, length-append c ext)) a
  grow-At member h rs k long a = (Live-mono _ (omega (arith, length-append c ext)) a.0, long refl)
  grow-At (candidate b) h rs k long a = cc

  pub grow-SharedInv :
      (m : MergedReplay)
      → Merged.Holds m (c ++ ext)
      → m.finished ≡ false
      → Headed H (c ++ ext) m
      → ((id : ℕ) → is_candidate (place id) ≡ false)
      → ((id : ℕ) → place id ≡ member → length (c ++ ext) ≤ length (H id))
      → SharedInv H (c ++ ext) place (record s { canonical_stream = m })
  grow-SharedInv m holds running headed none' long = record {
    canon = holds;
    running = running;
    headed = headed;
    placed = λ id lt.
        let (rs, got, a) = v.placed id lt in
        (rs, got, grow-At (place id) (H id) rs (none' id) (long id) a);
    unborn = v.unborn;
  }

-- The canonical data after `append_canon_data`.
abbrev pub Appends : (ℕ → Bytes) → Bytes → SharedState → ℕ → ℕ → Option SharedState → Type 0
Appends H c s id until o =
    (d : BufDeque) × (o
      ≡ some (record s { canonical_stream = record s.canonical_stream { content = d } }))
    × Merged.Holds (record s.canonical_stream { content = d }) (c ++ slice (H id) (length c) until)

pub append_canon_data-Appends :
    {H : ℕ → Bytes} {c : Bytes} {place : ℕ → Place} (s : SharedState) (id until : ℕ)
    → SharedInv H c place s
    → Good H (length c) s id
    → length c ≤ until
    → until ≤ length (H id)
    → Appends H c s id until (append_canon_data s id until)
unfolding append_canon_data
append_canon_data-Appends {H} {c} s id until v (rs, got, live, _) lo hi =
    let (d, run, holds) =
      add_data-Merges s.canonical_stream c rs.r (H id) until v.canon live.holds.rep v.running
        (window-le live) lo hi in
    (d, simp (got, run), holds)
