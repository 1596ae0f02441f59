-- ===== src/Receive/Quorum/Delay.antt =====
-- `update_delayed_position`, and the least delayed position of a quorum.
use mathlib.Core.Path.{subst}
use faf_rust_replayserver.Base.{
  Bytes, ℕ, ◌≤◌, ◌<◌, ◌≡◌, refl, sym, ap, true, inl, inr, max, min, List, [], ◌∷◌, some, arith,
  length, All, leb, leb→le, leb→gt, Bool-cases,
}
use faf_rust_replayserver.Streams.MergedReplay.{notify_read_event}
use faf_rust_replayserver.Streams.MergedReplay.Laws.{advance_delayed_data-Holds}
use faf_rust_replayserver.Receive.State.{
  ReplayState, SharedState, canon_data_len, update_canon_delayed_data_len,
}
use faf_rust_replayserver.Receive.Sets.{contains}
use faf_rust_replayserver.Receive.Sets.Laws.{each_contained}
use faf_rust_replayserver.Receive.Place.{Place, SharedInv}
use faf_rust_replayserver.Receive.Quorum.{
  MergeQuorumState, quorum_delayed_position, update_delayed_position,
}
use faf_rust_replayserver.Receive.Quorum.Keys.{KeyOf, keyed-Keys, ids_of, min_by_key-Least}

-- Moving the delayed position changes nothing else of the shared state.
pub record Delayed (H : ℕ → Bytes) (c : Bytes) (place : ℕ → Place) (s s' : SharedState)
    : Type 0 where
  pub inv : SharedInv H c place s'
  pub token : s'.token ≡ s.token
  pub target : s'.target_quorum_size ≡ s.target_quorum_size
  pub started : s'.delayed_data_started ≡ s.delayed_data_started
  pub header : s'.canonical_stream.header ≡ s.canonical_stream.header
  pub forward : s.canonical_stream.delayed_data_len ≤ s'.canonical_stream.delayed_data_len

pub update_canon_delayed_data_len-Delays :
    {H : ℕ → Bytes} {c : Bytes} {place : ℕ → Place} (s : SharedState) (hint : ℕ)
    → SharedInv H c place s
    → (s' : SharedState) × (update_canon_delayed_data_len s hint ≡ some s')
      × Delayed H c place s s'
      × (s'.canonical_stream.delayed_data_len
          ≡ max s.canonical_stream.delayed_data_len (min hint (canon_data_len s)))
unfolding update_canon_delayed_data_len notify_read_event
update_canon_delayed_data_len-Delays {c = c} s hint v =
    let to = min hint (canon_data_len s) in
    elim (Bool-cases (leb to s.canonical_stream.delayed_data_len)) [
      | inl old ↦ (
        s,
        simp old,
        record {
          inv = v;
          token = refl;
          target = refl;
          started = refl;
          header = refl;
          forward = omega arith;
        },
        omega (arith, leb→le _ _ old),
      )
      | inr new ↦
          let (run, holds) =
            advance_delayed_data-Holds s.canonical_stream c to v.canon v.running
              (omega (arith, v.canon.rep.end)) in
          (
            record s {
              canonical_stream =
                  (notify_read_event (record s.canonical_stream { delayed_data_len = to })).0;
            },
            simp (new, run),
            record {
              inv = record {
                canon = holds;
                running = v.running;
                headed = v.headed;
                placed = v.placed;
                unborn = v.unborn;
              };
              token = refl;
              target = refl;
              started = refl;
              header = refl;
              forward = omega (arith, leb→gt _ _ new);
            },
            omega (arith, leb→gt _ _ new),
          )
    ]

-- The least delayed position of some replays.
abbrev pub LeastDelayed : SharedState → List ℕ → ℕ → Type 0
LeastDelayed s ids position =
    All (λ id. (rs : ReplayState) × (s.replays id ≡ some rs) × (position ≤ rs.r.delayed_data_len))
      ids
    × (id : ℕ) × (rs : ReplayState) × (contains ids id ≡ true)
    × (s.replays id ≡ some rs)
    × (position ≡ rs.r.delayed_data_len)

-- The canonical replay is delayed to the least position of the quorum, but not back and not past its
-- end.
abbrev pub Advances : MergeQuorumState → SharedState → Type 0
Advances me s' =
    (position : ℕ) × LeastDelayed me.s me.quorum position
    × (s'.canonical_stream.delayed_data_len
        ≡ max me.s.canonical_stream.delayed_data_len (min position (canon_data_len me.s)))

-- The delayed position of a quorum, and what moving it does.
module _ {H : ℕ → Bytes} {c : Bytes} {place : ℕ → Place} (me : MergeQuorumState)
    (v : SharedInv H c place me.s)
    (found : All (λ id. (rs : ReplayState) × (me.s.replays id ≡ some rs)) me.quorum)
    (pos : 0 < length me.quorum) where
  abbrev KeyIn : ℕ × ℕ → Type 0
  KeyIn p = KeyOf (λ w. w.delayed_data_len) me.s p × (contains me.quorum p.1 ≡ true)

  keys_in :
      (pairs : List (ℕ × ℕ))
      → All (KeyOf (λ w. w.delayed_data_len) me.s) pairs
      → All (λ id. contains me.quorum id ≡ true) (ids_of pairs)
      → All KeyIn pairs
  keys_in [] k g = tt
  keys_in (p ∷ pairs) k g = ((k.0, g.0), keys_in pairs k.1 g.1)

  least_of :
      (position : ℕ) (pairs : List (ℕ × ℕ))
      → All KeyIn pairs
      → All (λ p. position ≤ p.0) pairs
      → All
          (λ id.
            (rs : ReplayState) × (me.s.replays id ≡ some rs) × (position ≤ rs.r.delayed_data_len))
          (ids_of pairs)
  least_of position [] k a = tt
  least_of position (p ∷ pairs) (((rs, got, e), _), k) a =
      ((rs, got, omega (arith, e, a.0)), least_of position pairs k a.1)

  quorum_delayed_position-LeastDelayed :
      (position : ℕ) × (quorum_delayed_position me ≡ some position)
      × LeastDelayed me.s me.quorum position
  unfolding quorum_delayed_position
  quorum_delayed_position-LeastDelayed =
      let (pairs, run, e, k) = keyed-Keys (λ w. w.delayed_data_len) me.s me.quorum found in
      let k' = keys_in pairs k (
        subst (All (λ id. contains me.quorum id ≡ true)) (sym e)
          (each_contained _ me.quorum λ id q. q)) in
      let (best, least, ((rs, got, at), q), all) =
        min_by_key-Least KeyIn pairs (pos_pairs pairs e) k' in
      (
        best.0,
        rw (run, least),
        (
          subst
              (All (λ id.
                (rs : ReplayState) × (me.s.replays id ≡ some rs)
                × (best.0 ≤ rs.r.delayed_data_len)))
              e (least_of best.0 pairs k' all),
          best.1,
          rs,
          q,
          got,
          at,
        ),
      )
    where
      pos_pairs : (pairs : List (ℕ × ℕ)) → ids_of pairs ≡ me.quorum → 0 < length pairs
      pos_pairs [] e = omega (arith, ap length e)
      pos_pairs (p ∷ pairs) e = omega arith

  -- The shared state after `update_delayed_position`.
  pub update_delayed_position-Delays :
      (s' : SharedState) × (update_delayed_position me ≡ some (record me { s = s' }))
      × Delayed H c place me.s s'
      × Advances me s'
  unfolding update_delayed_position
  update_delayed_position-Delays =
      let (position, run, least) = quorum_delayed_position-LeastDelayed in
      let (s', run', d, e) = update_canon_delayed_data_len-Delays me.s position v in
      (s', rw (run, run'), d, (position, least, e))
