-- ===== src/Receive/Tests.antt =====
-- Witnesses for the merge strategy.
use faf_rust_replayserver.Base.{Bytes, ℕ, zero, suc, ◌≡◌, refl, [], ◌∷◌, some, arith, ◌+◌, ◌++◌}
use faf_rust_replayserver.Samples.{bytes, data_replay-Holds, data_merged, data_merged-Holds}
use faf_rust_replayserver.Util.BufDeque
use faf_rust_replayserver.Streams.WriterReplay
use faf_rust_replayserver.Streams.MergedReplay
use faf_rust_replayserver.Receive.Sets.{contains}
use faf_rust_replayserver.Receive.State
use faf_rust_replayserver.Receive.State.{ReplayState, SharedState}
use faf_rust_replayserver.Receive.State.Compare.{Decides, diverges_at_stalemate-Decides}
use faf_rust_replayserver.Receive.Place.{reserved, member, candidate, is_reserved}
use faf_rust_replayserver.Receive.Stalemate
use faf_rust_replayserver.Receive.Stalemate.{MergeStalemateState}
use faf_rust_replayserver.Receive.Quorum
use faf_rust_replayserver.Receive.Quorum.{MergeQuorumState}
use faf_rust_replayserver.Receive.Stalemate.Move.{Moves, try_reserved-Moves}
use faf_rust_replayserver.Receive.Quorum.Merge.{MergesMore, merge_more_data-MergesMore}
use faf_rust_replayserver.Receive.Quorum.Prefix.{Prefixes, calculate_quorum_prefix-Prefixes}
use faf_rust_replayserver.Receive.Quorum.Start.{Forms, from_stalemate-Forms}
use faf_rust_replayserver.Receive.Strategy.Exit.{Exits, exit_stalemate-Exits}
use faf_rust_replayserver.Receive.Strategy.Enter.{Enters, enter_stalemate-Enters}
use faf_rust_replayserver.Receive.Strategy
use faf_rust_replayserver.Receive.Strategy.{QuorumMergeStrategy, stalemate}
use faf_rust_replayserver.Receive.Strategy.Callbacks.{
  replay_added-Stabilises, replay_data_updated-Stabilises, replay_removed-Stabilises,
}
use faf_rust_replayserver.Receive.Strategy.Events.{Adds, Updates, Removes}
use faf_rust_replayserver.Receive.Strategy.Header.{HeaderAdded, replay_header_added-HeaderAdded}
use faf_rust_replayserver.Receive.Strategy.Stable.{
  Sane, Stable, token_of, header_of, Stabilises, work_state_until_stable-Stabilises,
}
use faf_rust_replayserver.Receive.Examples.{
  received, place_at, tracked, shared, tracked-Live, received-le, waiting, waiting-StalemateInv,
  idle, idle-StalemateInv, merging, merging-QuorumInv, idle-Sane,
}

work_state_until_stable-Stabilises_example :
    Stabilises received []
      (stalemate waiting)
      (Strategy.work_state_until_stable 7 (stalemate waiting))
work_state_until_stable-Stabilises_example =
    work_state_until_stable-Stabilises received 3 received-le [] 7 (stalemate waiting)
      (place_at (candidate 7), waiting-StalemateInv, omega arith) (omega arith)

exit_stalemate-Exits_example : Exits received [] shared (Strategy.exit_stalemate waiting)
exit_stalemate-Exits_example =
    exit_stalemate-Exits waiting waiting-StalemateInv (omega arith) (omega arith)

try_reserved-Moves_example :
    Moves received [] (place_at reserved) idle 0 (Stalemate.try_move_replay_to_candidates idle 0)
try_reserved-Moves_example = try_reserved-Moves idle 0 idle-StalemateInv refl

merge_more_data-MergesMore_example :
    MergesMore received [] (place_at member) merging (Quorum.merge_more_data merging)
merge_more_data-MergesMore_example = merge_more_data-MergesMore merging merging-QuorumInv

calculate_quorum_prefix-Prefixes_example :
    Prefixes received 0 (0 ∷ []) (Quorum.calculate_quorum_prefix merging)
unfolding MergedReplay.new BufDeque.new
calculate_quorum_prefix-Prefixes_example =
    calculate_quorum_prefix-Prefixes received merging
      ((tracked, refl, tracked-Live, omega arith), tt) (omega arith)

enter_stalemate-Enters_example :
    Enters received [] (place_at member) merging (Strategy.enter_stalemate merging)
unfolding MergedReplay.new BufDeque.new
enter_stalemate-Enters_example = enter_stalemate-Enters merging merging-QuorumInv (ground arith)

from_stalemate-Forms_example :
    Forms received [] shared (0 ∷ []) [] (Quorum.from_stalemate shared (0 ∷ []) [])
unfolding contains
from_stalemate-Forms_example = from_stalemate-Forms shared (0 ∷ []) [] (record {
  shared = merging-QuorumInv.shared;
  are_good = merging-QuorumInv.in_quorum;
  in_reserve = λ id. none_reserved id;
  distinct = tt;
  no_candidate = merging-QuorumInv.no_candidate;
  nonempty = omega arith;
  target = omega arith;
})
  where
    none_reserved : (id : ℕ) → contains [] id ≡ is_reserved (place_at member id)
    none_reserved zero = refl
    none_reserved (suc id) = refl

diverges_at_stalemate-Decides_example :
    Decides bytes bytes 0 (State.diverges_at_stalemate tracked data_merged)
diverges_at_stalemate-Decides_example =
    diverges_at_stalemate-Decides bytes bytes tracked data_merged
      (record { holds = data_replay-Holds; matched = omega arith; window = omega arith })
      data_merged-Holds (omega arith)

replay_added-Stabilises_example :
    (me' : QuorumMergeStrategy) × (ext : Bytes) × (Strategy.replay_added 8
        (stalemate idle)
        WriterReplay.new
      ≡ some (1, me'))
    × Sane received ([] ++ ext) me'
    × Stable me'
    × (token_of me' ≡ 1 + 1)
    × (header_of me' ≡ header_of (stalemate idle))
    × (mid : QuorumMergeStrategy) × Adds (stalemate idle) mid
    × (Strategy.work_state_until_stable 8 mid ≡ some me')
replay_added-Stabilises_example =
    replay_added-Stabilises received 3 received-le [] 8 (omega arith) (stalemate idle) idle-Sane

replay_data_updated-Stabilises_example :
    (mid : QuorumMergeStrategy) × Updates received [] (stalemate idle) 0 mid
    × (Strategy.replay_data_updated 8 (stalemate idle) 0 ≡ Strategy.work_state_until_stable 8 mid)
    × Stabilises received [] (stalemate idle) (Strategy.replay_data_updated 8 (stalemate idle) 0)
replay_data_updated-Stabilises_example =
    replay_data_updated-Stabilises received 3 received-le [] 8 (omega arith) (stalemate idle) 0
      idle-Sane (omega arith)

replay_removed-Stabilises_example :
    (mid : QuorumMergeStrategy) × Removes received [] (stalemate idle) 0 mid
    × (Strategy.replay_removed 8 (stalemate idle) 0 ≡ Strategy.work_state_until_stable 8 mid)
    × Stabilises received [] (stalemate idle) (Strategy.replay_removed 8 (stalemate idle) 0)
replay_removed-Stabilises_example =
    replay_removed-Stabilises received 3 received-le [] 8 (omega arith) (stalemate idle) 0 idle-Sane

replay_header_added-HeaderAdded_example :
    HeaderAdded received [] (stalemate idle) (Strategy.replay_header_added (stalemate idle) 0)
unfolding Strategy.shared
replay_header_added-HeaderAdded_example =
    replay_header_added-HeaderAdded (stalemate idle) 0 (record { bytes = 1 ∷ 2 ∷ [] }) idle-Sane
      (omega arith) refl
