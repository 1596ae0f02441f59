-- ===== src/Receive/Strategy/Header.antt =====
-- What `replay_header_added` does to the invariant of the strategy.
use faf_rust_replayserver.Base.{
  Bytes, ℕ, ◌<◌, ◌≡◌, refl, sym, ap, ◌∙◌, inl, inr, true, Option, some, none, arith, length, ◌==◌,
  ◌>>=◌,
}
use faf_rust_replayserver.Streams.ReplayHeader.{ReplayHeader}
use faf_rust_replayserver.Streams.WriterReplay
use faf_rust_replayserver.Streams.WriterReplay.{WriterReplay}
use faf_rust_replayserver.Streams.MergedReplay
use faf_rust_replayserver.Streams.MergedReplay.{MergedReplay, notify_read_event}
use faf_rust_replayserver.Receive.State.{ReplayState, SharedState, set_replay}
use faf_rust_replayserver.Receive.State.Compare.{Live}
use faf_rust_replayserver.Receive.Place.{
  Place, Headed, outside, reserved, member, candidate, At, SharedInv, keep_place-SharedInv,
}
use faf_rust_replayserver.Receive.Stalemate.Inv.{StalemateInv}
use faf_rust_replayserver.Receive.Stalemate.{MergeStalemateState}
use faf_rust_replayserver.Receive.Quorum.{MergeQuorumState}
use faf_rust_replayserver.Receive.Quorum.Inv.{QuorumInv}
use faf_rust_replayserver.Receive.Quorum.Merge as Quorum
use faf_rust_replayserver.Receive.Strategy.{
  QuorumMergeStrategy, quorum, stalemate, swapping, shared, with_shared, replay_header_added,
}
use faf_rust_replayserver.Receive.Strategy.Stable.{Sane, token_of, header_of}

-- A replay without its header.
abbrev headless : ReplayState → ReplayState
headless rs = record rs { r = record rs.r { header = none } }

headless-Live : {h : Bytes} {n : ℕ} (rs : ReplayState) → Live h n rs → Live h n (headless rs)
headless-Live rs l = record {
  holds = record { rep = l.holds.rep; delayed = l.holds.delayed };
  matched = l.matched;
  window = l.window;
}

headless-At : (p : Place) (h c : Bytes) (rs : ReplayState) → At p h c rs → At p h c (headless rs)
headless-At outside h c rs a = record { rep = a.rep; delayed = a.delayed }
headless-At reserved h c rs a = headless-Live rs a
headless-At member h c rs a = (headless-Live rs a.0, a.1)
headless-At (candidate b) h c rs (l, lt, e) = (headless-Live rs l, lt, e)

-- The canonical replay is the only other part that a new header changes.
abbrev Heads : (ℕ → Bytes) → Bytes → (ℕ → Place) → SharedState → SharedState → Type 0
Heads H c place s s' =
    SharedInv H c place s'
    × (s'.token ≡ s.token)
    × (s'.target_quorum_size ≡ s.target_quorum_size)
    × (s'.canonical_stream.delayed_data_len ≡ s.canonical_stream.delayed_data_len)
    × ((h : ReplayHeader) × (s'.canonical_stream.header ≡ some h))

module _ {H : ℕ → Bytes} {c : Bytes} {place : ℕ → Place} (s : SharedState)
    (v : SharedInv H c place s) (id : ℕ) (lt : id < s.token) (rs : ReplayState)
    (got : s.replays id ≡ some rs) (a : At (place id) (H id) c rs) where
  taken-SharedInv : SharedInv H c place (set_replay s id (headless rs))
  taken-SharedInv =
      keep_place-SharedInv v id (headless rs) lt (headless-At (place id) (H id) c rs a)

  -- With a header in place, the new one is dropped.
  kept-Heads :
      (h : ReplayHeader)
      → s.canonical_stream.header ≡ some h
      → Heads H c place s (set_replay s id (headless rs))
  kept-Heads h e = (taken-SharedInv, refl, refl, refl, (h, e))

  -- Without one there is no data yet, and the new one is taken.
  new_head : ReplayHeader → MergedReplay
  new_head h = (notify_read_event (record s.canonical_stream { header = some h })).0

  new-Heads :
      (h : ReplayHeader)
      → Heads H c place s (record (set_replay s id (headless rs)) { canonical_stream = new_head h })
  unfolding new_head notify_read_event
  new-Heads h = (
    record {
      canon = record { rep = v.canon.rep; whole = v.canon.whole; delayed = v.canon.delayed };
      running = v.running;
      headed = inl (h, refl);
      placed = taken-SharedInv.placed;
      unborn = v.unborn;
    },
    refl,
    refl,
    refl,
    (h, refl),
  )

  add_header-Adds :
      (h : ReplayHeader)
      → length c ≡ 0
      → MergedReplay.add_header s.canonical_stream h
        ≡ some (new_head h, (notify_read_event (record s.canonical_stream { header = some h })).1)
  unfolding MergedReplay.add_header new_head notify_read_event
  add_header-Adds h z =
      let n : (MergedReplay.data_len s.canonical_stream == 0) ≡ true =
        ground (arith, v.canon.rep.end, z) in
      simp (v.running, n)

-- A shared state with a header, under the sets of either state.
abbrev pub HeaderAdded :
    (ℕ → Bytes) → Bytes → QuorumMergeStrategy → Option QuorumMergeStrategy → Type 0
HeaderAdded H c me o =
    (me' : QuorumMergeStrategy) × (o ≡ some me')
    × Sane H c me'
    × (token_of me' ≡ token_of me)
    × ((h : ReplayHeader) × (header_of me' ≡ some h))

-- The header of a replay that was read and not taken yet.
abbrev pub header_at : QuorumMergeStrategy → ℕ → Option ReplayHeader
header_at me id = shared me >>= λ s. s.replays id >>= λ rs. rs.r.header

some-ne-none : {k : ReplayHeader} → some k ≡ none → ⊥
some-ne-none e = cc

module _ {H : ℕ → Bytes} {c : Bytes} where
  quorum-Heads :
      (me : MergeQuorumState) (place : ℕ → Place)
      → QuorumInv H c place me
      → 0 < me.s.target_quorum_size
      → (s' : SharedState) (o : Option QuorumMergeStrategy) → Heads H c place me.s s'
      → o ≡ some (quorum (record me { s = s' }))
      → HeaderAdded H c (quorum me) o
  quorum-Heads me place v target s' o (w, t, q, d, h) run = (
    quorum (record me { s = s' }),
    run,
    (place, Quorum.with_shared me v c s' w q, omega (arith, target, q)),
    t,
    h,
  )

  stalemate-Heads :
      (me : MergeStalemateState) (place : ℕ → Place)
      → StalemateInv H c place me
      → 0 < me.s.target_quorum_size
      → (s' : SharedState) (o : Option QuorumMergeStrategy) → Heads H c place me.s s'
      → o ≡ some (stalemate (record me { s = s' }))
      → HeaderAdded H c (stalemate me) o
  stalemate-Heads me place v target s' o (w, t, q, d, h) run = (
    stalemate (record me { s = s' }),
    run,
    (
      place,
      record {
        shared = w;
        in_reserve = v.in_reserve;
        distinct = v.distinct;
        sound = v.sound;
        listed = v.listed;
        no_member = v.no_member;
        caught_up = d ∙ v.caught_up;
      },
      omega (arith, target, q),
    ),
    t,
    h,
  )

  -- Both ways to take the header, for a state that `build` puts back around its shared part.
  module _ (me : QuorumMergeStrategy) (s : SharedState) (place : ℕ → Place)
      (v : SharedInv H c place s) (part : shared me ≡ some s)
      (build : (s' : SharedState) (o : Option QuorumMergeStrategy)
        → Heads H c place s s'
        → o ≡ some (with_shared me s')
        → HeaderAdded H c me o)
      (id : ℕ) (lt : id < s.token) (h : ReplayHeader) where
    added_to :
        (rs : ReplayState) (known : Option ReplayHeader)
        → s.replays id ≡ some rs
        → At (place id) (H id) c rs
        → rs.r.header ≡ some h
        → s.canonical_stream.header ≡ known
        → (known ≡ none → length c ≡ 0)
        → HeaderAdded H c me (replay_header_added me id)
    unfolding replay_header_added WriterReplay.take_header
    added_to rs (some k) got a has e z =
        build (set_replay s id (headless rs)) _ (kept-Heads s v id lt rs got a k e)
          (simp (part, got, has, e))
    added_to rs none got a has e z =
        build
          (record (set_replay s id (headless rs)) {
            canonical_stream = new_head s v id lt rs got a h;
          })
          _ (new-Heads s v id lt rs got a h)
          (simp (part, got, has, e, add_header-Adds s v id lt rs got a h (z refl)))

    header_then : header_at me id ≡ some h → HeaderAdded H c me (replay_header_added me id)
    header_then has =
        let (rs, got, a) = v.placed id lt in
        added_to rs s.canonical_stream.header got a
          (sym (
              ap (λ o. o >>= λ t. t.replays id >>= λ rs. rs.r.header) part
              ∙ ap (λ o. o >>= λ rs. rs.r.header) got)
            ∙ has)
          refl (no_header v.headed)
      where
        no_header : Headed H c s.canonical_stream → s.canonical_stream.header ≡ none → length c ≡ 0
        no_header (inl (k, e)) n = absurd (some-ne-none (sym e ∙ n))
        no_header (inr (z, _)) n = z

  -- From a state that meets the invariant of the strategy, for a replay that was added and whose
  -- header was read and not taken yet, `replay_header_added` does not panic, keeps the invariant
  -- and the canonical data, and leaves a canonical replay with a header.
  pub replay_header_added-HeaderAdded :
      (me : QuorumMergeStrategy) (id : ℕ) (h : ReplayHeader)
      → Sane H c me
      → id < token_of me
      → header_at me id ≡ some h
      → HeaderAdded H c me (replay_header_added me id)
  unfolding shared with_shared
  replay_header_added-HeaderAdded (quorum me) id h (place, v, target) lt has =
      header_then (quorum me) me.s place v.shared refl (quorum-Heads me place v target) id lt h has
  replay_header_added-HeaderAdded (stalemate me) id h (place, v, target) lt has =
      header_then (stalemate me) me.s place v.shared refl (stalemate-Heads me place v target) id lt
        h has
  replay_header_added-HeaderAdded swapping id h v lt has = absurd v
