-- ===== src/Receive/Strategy/Callbacks.antt =====
-- `replay_added`, `replay_removed` and `replay_data_updated`, and the invariant of the strategy.
use faf_rust_replayserver.Base.{
  Bytes, ℕ, ◌+◌, ◌-◌, ◌*◌, ◌≤◌, ◌≡◌, refl, sym, ap, ◌∙◌, inl, inr, ◌++◌, ◌||◌, ltb, ◌<◌, Option,
  some, arith, length, if◌then◌else◌, Bool-cases,
}
use faf_rust_replayserver.Streams.WriterReplay
use faf_rust_replayserver.Receive.Sets.{contains}
use faf_rust_replayserver.Receive.State
use faf_rust_replayserver.Receive.State.{ReplayState, SharedState}
use faf_rust_replayserver.Receive.Place.{Place, reserved, put_place, Same, Same-refl}
use faf_rust_replayserver.Receive.Stalemate
use faf_rust_replayserver.Receive.Stalemate.{MergeStalemateState}
use faf_rust_replayserver.Receive.Stalemate.Inv.{StalemateInv}
use faf_rust_replayserver.Receive.Stalemate.Move.{try_reserved-Moves}
use faf_rust_replayserver.Receive.Quorum
use faf_rust_replayserver.Receive.Quorum.{MergeQuorumState}
use faf_rust_replayserver.Receive.Quorum.Delay.{update_delayed_position-Delays}
use faf_rust_replayserver.Receive.Quorum.Merge.{members_found, with_shared}
use faf_rust_replayserver.Receive.Strategy
use faf_rust_replayserver.Receive.Strategy.{QuorumMergeStrategy, quorum, stalemate, swapping}
use faf_rust_replayserver.Receive.Strategy.Events.{
  Effect, Adds, add_replay-Joined, Removes, Updates,
}
use faf_rust_replayserver.Receive.Strategy.Enter.{reserved_of_test}
use faf_rust_replayserver.Receive.Strategy.Stable.{
  Sane, token_of, header_of, rounds, Stable, Stabilises, work_state_until_stable-Stabilises,
}
use faf_rust_replayserver.Receive.Strategy.Added.{
  stalemate_added, quorum_added, check_delayed-Keeps, started-StalemateInv,
}

-- What is left to do after a change that moved no replay out of reach.
module _ (H : ℕ → Bytes) (longest : ℕ) (bound : (id : ℕ) → length (H id) ≤ longest) (c : Bytes)
    (fuel : ℕ) (enough : 2 * (longest - length c) + 2 ≤ fuel) where
  settle_then :
      (me me' : QuorumMergeStrategy) (o : Option QuorumMergeStrategy)
      → Sane H c me'
      → token_of me' ≡ token_of me
      → header_of me' ≡ header_of me
      → o ≡ Strategy.work_state_until_stable fuel me'
      → Stabilises H c me o
  settle_then me me' o v t head e =
      let (me'', run, s) =
        work_state_until_stable-Stabilises H longest bound c fuel me' v (few me') in
      (
        me'',
        e ∙ run,
        record {
          ext = s.ext;
          sane = s.sane;
          stable = s.stable;
          token = s.token ∙ t;
          header = s.header ∙ head;
        },
      )
    where
      few : (me' : QuorumMergeStrategy) → rounds longest c me' ≤ fuel
      few (quorum q) = enough
      few (stalemate s) = omega (arith, enough)
      few swapping = omega arith

  -- From a state that meets the invariant of the strategy, with enough fuel, `replay_added` of a
  -- new replay returns the token that counts the replays so far, and a stable state that meets the
  -- invariant, counts one replay more and has the same canonical header. It is what
  -- `work_state_until_stable` makes of a state in which the new replay is in the map and in the
  -- reserve, and the other replays, the candidates and the quorum are as they were.
  pub replay_added-Stabilises :
      (me : QuorumMergeStrategy)
      → Sane H c me
      → (me' : QuorumMergeStrategy) × (ext : Bytes) × (Strategy.replay_added fuel me
            WriterReplay.new
          ≡ some (token_of me, me'))
        × Sane H (c ++ ext) me'
        × Stable me'
        × (token_of me' ≡ token_of me + 1)
        × (header_of me' ≡ header_of me)
        × (mid : QuorumMergeStrategy) × Adds me mid
        × (Strategy.work_state_until_stable fuel mid ≡ some me')
  unfolding Strategy.replay_added Stalemate.add_replay Quorum.add_replay State.add_replay
  replay_added-Stabilises (stalemate me) (place, v, target) =
      let me' = (Stalemate.add_replay me WriterReplay.new).1 in
      let (me'', run, s) : Stabilises H c (stalemate me')
          (Strategy.work_state_until_stable fuel (stalemate me')) =
        settle_then (stalemate me') (stalemate me') _
          (put_place place me.s.token reserved, stalemate_added me v, target) refl refl refl in
      (
        me'',
        s.ext,
        rw run,
        s.sane,
        s.stable,
        s.token,
        s.header,
        stalemate me',
        (me', refl, add_replay-Joined me.s me.reserve, refl),
        run,
      )
  replay_added-Stabilises (quorum me) (place, v, target) =
      let me' = (Quorum.add_replay me WriterReplay.new).1 in
      let (me'', run, s) : Stabilises H c (quorum me')
          (Strategy.work_state_until_stable fuel (quorum me')) =
        settle_then (quorum me') (quorum me') _
          (put_place place me.s.token reserved, quorum_added me v, target) refl refl refl in
      (
        me'',
        s.ext,
        rw run,
        s.sane,
        s.stable,
        s.token,
        s.header,
        quorum me',
        (me', refl, add_replay-Joined me.s me.reserve, refl),
        run,
      )
  replay_added-Stabilises swapping v = absurd v

  tried :
      (me : MergeStalemateState) (place : ℕ → Place) (id : ℕ)
      → StalemateInv H c place me
      → (me' : MergeStalemateState) × ((if contains me.reserve id
            then Stalemate.try_move_replay_to_candidates me id
            else some me)
          ≡ some me')
        × Effect H c me id me'
        × (place' : ℕ → Place) × StalemateInv H c place' me'
        × Same me.s me'.s
  tried me place id v = elim (Bool-cases (contains me.reserve id)) [
    | inl here ↦
        let (me', p, run, v', same, t, others) =
          try_reserved-Moves me id v (reserved_of_test (place id) (sym (v.in_reserve id) ∙ here)) in
        (me', rw here run, inr (here, place, p, v', t, others), put_place place id p, v', same)
    | inr away ↦ (me, rw away refl, inl (away, refl), place, v, Same-refl me.s)
  ]

  -- From a state that meets the invariant of the strategy, with enough fuel, `replay_removed` of
  -- any token does not panic, and it is the removal and then `work_state_until_stable`, which
  -- returns a stable state that meets the invariant. The removal does nothing to a quorum; in a
  -- stalemate a replay of the reserve is tried, so that it is out if it has nothing more than the
  -- canonical data and is finished, and no other replay changes.
  pub replay_removed-Stabilises :
      (me : QuorumMergeStrategy) (id : ℕ)
      → Sane H c me
      → (mid : QuorumMergeStrategy) × Removes H c me id mid
        × (Strategy.replay_removed fuel me id ≡ Strategy.work_state_until_stable fuel mid)
        × Stabilises H c me (Strategy.replay_removed fuel me id)
  unfolding Strategy.replay_removed Stalemate.replay_ended
  replay_removed-Stabilises (quorum me) id v =
      (quorum me, refl, refl, settle_then (quorum me) (quorum me) _ v refl refl refl)
  replay_removed-Stabilises (stalemate me) id (place, v, target) =
      let (me', run, x, place', v', same) = tried me place id v in
      let e : Strategy.replay_removed fuel (stalemate me) id
          ≡ Strategy.work_state_until_stable fuel (stalemate me') =
        rw run refl in
      (
        stalemate me',
        (me', refl, x),
        e,
        settle_then (stalemate me) (stalemate me') _
            (place', v', omega (arith, target, same.target)) same.token
            (ap (λ t. t.header) same.canonical) e,
      )
  replay_removed-Stabilises swapping id v = absurd v

  updated_stalemate :
      (me : MergeStalemateState) (place : ℕ → Place) (id : ℕ)
      → StalemateInv H c place me
      → 0 < me.s.target_quorum_size
      → id < me.s.token
      → (mid : QuorumMergeStrategy) × Updates H c (stalemate me) id mid
        × (Strategy.replay_data_updated fuel (stalemate me) id
            ≡ Strategy.work_state_until_stable fuel mid)
        × Stabilises H c (stalemate me) (Strategy.replay_data_updated fuel (stalemate me) id)
  unfolding Strategy.replay_data_updated Stalemate.replay_data_updated
  updated_stalemate me place id v target lt =
      let (me', run, x, place', v', same) = tried me place id v in
      let (rs, got, run') = check_delayed-Keeps me' id v' (omega (arith, lt, same.token)) in
      let started = me'.s.delayed_data_started || ltb 0 rs.r.delayed_data_len in
      let mid : MergeStalemateState = record me' {
        s = record me'.s { delayed_data_started = started };
      } in
      let e : Strategy.replay_data_updated fuel (stalemate me) id
          ≡ Strategy.work_state_until_stable fuel (stalemate mid) =
        rw (run, run') refl in
      (
        stalemate mid,
        (me', x, rs, got, refl),
        e,
        settle_then (stalemate me) (stalemate mid) _
            (place', started-StalemateInv me' started v', omega (arith, target, same.target))
            same.token (ap (λ t. t.header) same.canonical) e,
      )

  -- From a state that meets the invariant of the strategy, with enough fuel for the bytes that are
  -- left and for a replay that was added, `replay_data_updated` returns: nothing panics, and it is
  -- the update and then `work_state_until_stable`. The update of a replay of a quorum moves the
  -- canonical delayed position to the least one of the quorum, not back and not past the end, and
  -- that of another replay does nothing to a quorum. In a stalemate a replay of the reserve is
  -- tried (it stays if it has nothing more than the canonical data and goes on, is out if it ended
  -- so or differs, and is a candidate for its next byte otherwise), and the delayed data of the
  -- replay is noticed. The state it returns meets the invariant and is stable, and the canonical
  -- data starts with the data it had.
  pub replay_data_updated-Stabilises :
      (me : QuorumMergeStrategy) (id : ℕ)
      → Sane H c me
      → id < token_of me
      → (mid : QuorumMergeStrategy) × Updates H c me id mid
        × (Strategy.replay_data_updated fuel me id ≡ Strategy.work_state_until_stable fuel mid)
        × Stabilises H c me (Strategy.replay_data_updated fuel me id)
  unfolding Strategy.replay_data_updated Quorum.replay_data_updated
  replay_data_updated-Stabilises (quorum me) id (place, v, target) lt =
      elim (Bool-cases (contains me.quorum id)) [
        | inl here ↦
            let (s', run, d, a) =
              update_delayed_position-Delays me v.shared (members_found me v) v.nonempty in
            let e : Strategy.replay_data_updated fuel (quorum me) id
                ≡ Strategy.work_state_until_stable fuel (quorum (record me { s = s' })) =
              rw (here, run) refl in
            (
              quorum (record me { s = s' }),
              inr (here, s', a, refl),
              e,
              settle_then (quorum me) (quorum (record me { s = s' })) _
                  (place, with_shared me v c s' d.inv d.target, omega (arith, target, d.target))
                  d.token d.header e,
            )
        | inr away ↦
            let e : Strategy.replay_data_updated fuel (quorum me) id
                ≡ Strategy.work_state_until_stable fuel (quorum me) =
              rw away refl in
            (
              quorum me,
              inl (away, refl),
              e,
              settle_then (quorum me) (quorum me) _ (place, v, target) refl refl e,
            )
      ]
  replay_data_updated-Stabilises (stalemate me) id (place, v, target) lt =
      updated_stalemate me place id v target lt
  replay_data_updated-Stabilises swapping id v lt = absurd v
