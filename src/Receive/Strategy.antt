-- ===== src/Receive/Strategy.antt =====
-- replay/receive/quorum_merge_strategy.rs: `QuorumMergeStrategy`, and `exit_stalemate` and
-- `enter_stalemate`, which pass between its two states.
pub mod Best
pub mod Settle
pub mod Exit
pub mod Enter
pub mod Stable
pub mod Events
pub mod Added
pub mod Callbacks
pub mod Header
use faf_rust_replayserver.Base.{
  ℕ, zero, suc, ◌+◌, max, Bool, ◌&&◌, ◌||◌, List, [], ◌∷◌, Option, none, some, ltb, ◌==◌,
  if◌then◌else◌, ◌>>=◌, ◌>>◌, assert, length,
}
use faf_rust_replayserver.Streams.WriterReplay
use faf_rust_replayserver.Streams.WriterReplay.{WriterReplay}
use faf_rust_replayserver.Streams.MergedReplay
use faf_rust_replayserver.Streams.MergedReplay.{MergedReplay}
use faf_rust_replayserver.Receive.Sets.{Entries, extend, get_entry, remove_entry}
use faf_rust_replayserver.Receive.State.{
  SharedState, set_replay, get_replay, for_each, canon_data_len, append_canon_data, set_diverged,
}
use faf_rust_replayserver.Receive.Stalemate
use faf_rust_replayserver.Receive.Stalemate.{MergeStalemateState, is_empty}
use faf_rust_replayserver.Receive.Quorum
use faf_rust_replayserver.Receive.Quorum.{MergeQuorumState}

-- `v.iter().map(replay_len).max().unwrap()`
unfoldable pub longest : SharedState → List ℕ → Option ℕ
longest s [] = none
longest s (id ∷ ids) = do
  replay ← get_replay s id
  elim ids [
    | [] ↦ some (WriterReplay.data_len replay.r)
    | _ ∷ _ ↦ (do rest ← longest s ids; some (max (WriterReplay.data_len replay.r) rest))
  ]

-- The order of the tuples (number of replays, longest replay, byte).
pub record Rank : Type 0 where
  pub count : ℕ
  pub reach : ℕ
  pub byte : ℕ

unfoldable pub rank_lt : Rank → Rank → Bool
rank_lt a b =
    ltb a.count b.count
    || (a.count == b.count && (ltb a.reach b.reach || (a.reach == b.reach && ltb a.byte b.byte)))

-- `max` of an iterator: the last of the greatest.
unfoldable pub best_rank : SharedState → Entries → Option Rank
best_rank s [] = none
best_rank s ((byte, ids) ∷ m) = do
  reach ← longest s ids
  let here : Rank = record { count = length ids; reach = reach; byte = byte }
  elim m [
    | [] ↦ some here
    | _ ∷ _ ↦ (do rest ← best_rank s m; some (if rank_lt rest here then here else rest))
  ]

unfoldable pub diverge_entries : SharedState → Entries → Option SharedState
diverge_entries s [] = some s
diverge_entries s ((byte, ids) ∷ m) = do s' ← for_each set_diverged s ids; diverge_entries s' m

unfoldable pub exit_stalemate : MergeStalemateState → Option MergeQuorumState
exit_stalemate me = do
  best ← best_rank me.s me.candidates
  good_replays ← get_entry best.byte me.candidates
  good_replay ← elim good_replays [ [] ↦ none | id ∷ ids ↦ some id ]
  s' ← append_canon_data me.s good_replay (canon_data_len me.s + 1)
  s'' ← diverge_entries s' (remove_entry best.byte me.candidates)
  Quorum.from_stalemate s'' good_replays me.reserve

unfoldable pub enter_stalemate : MergeQuorumState → Option MergeStalemateState
enter_stalemate me = Stalemate.from_quorum me.s (extend me.reserve me.quorum)

pub data QuorumMergeStrategy : Type 0 where
  quorum : MergeQuorumState → QuorumMergeStrategy
  stalemate : MergeStalemateState → QuorumMergeStrategy
  swapping : QuorumMergeStrategy

unfoldable pub new : ℕ → ℕ → QuorumMergeStrategy
new target_quorum_size stream_cmp_distance =
    stalemate (Stalemate.new target_quorum_size stream_cmp_distance)

unfoldable pub should_change_state : QuorumMergeStrategy → Option Bool
should_change_state (quorum s) = some (Quorum.has_to_enter_stalemate s)
should_change_state (stalemate s) = some (Stalemate.can_exit_stalemate s)
should_change_state swapping = none

-- The `match` in `work_state_until_stable`.
unfoldable pub change_state : QuorumMergeStrategy → Option QuorumMergeStrategy
change_state (quorum s) = do s' ← enter_stalemate s; some (stalemate s')
change_state (stalemate s) = do s' ← exit_stalemate s; some (quorum s')
change_state swapping = none

-- The `while` loop, on fuel.
unfoldable pub work_state_until_stable : ℕ → QuorumMergeStrategy → Option QuorumMergeStrategy
work_state_until_stable zero me = none
work_state_until_stable (suc fuel) me = do
  change ← should_change_state me
  let again = (do me' ← change_state me; work_state_until_stable fuel me')
  if change then again else some me

-- `both!(self, s => s.s)`
unfoldable pub shared : QuorumMergeStrategy → Option SharedState
shared (quorum me) = some me.s
shared (stalemate me) = some me.s
shared swapping = none

unfoldable pub with_shared : QuorumMergeStrategy → SharedState → QuorumMergeStrategy
with_shared (quorum me) s = quorum (record me { s = s })
with_shared (stalemate me) s = stalemate (record me { s = s })
with_shared swapping s = swapping

-- The callbacks of `MergeStrategy`; the first argument is the fuel of the loop.
unfoldable pub replay_added :
    ℕ → QuorumMergeStrategy → WriterReplay → Option (ℕ × QuorumMergeStrategy)
replay_added fuel (quorum s) r = do
  let (token, s') = Quorum.add_replay s r
  me ← work_state_until_stable fuel (quorum s')
  some (token, me)
replay_added fuel (stalemate s) r = do
  let (token, s') = Stalemate.add_replay s r
  me ← work_state_until_stable fuel (stalemate s')
  some (token, me)
replay_added fuel swapping r = none

unfoldable pub replay_removed : ℕ → QuorumMergeStrategy → ℕ → Option QuorumMergeStrategy
replay_removed fuel (quorum s) id = work_state_until_stable fuel (quorum (Quorum.replay_ended s id))
replay_removed fuel (stalemate s) id = do
  s' ← Stalemate.replay_ended s id
  work_state_until_stable fuel (stalemate s')
replay_removed fuel swapping id = none

unfoldable pub replay_header_added : QuorumMergeStrategy → ℕ → Option QuorumMergeStrategy
replay_header_added me id = do
  s ← shared me
  replay ← get_replay s id
  (header, r) ← WriterReplay.take_header replay.r
  let s' = set_replay s id (record replay { r = r })
  elim s.canonical_stream.header [
    | some h ↦ some (with_shared me s')
    | none ↦ (do
      (canon, _) ← MergedReplay.add_header s.canonical_stream header
      some (with_shared me (record s' { canonical_stream = canon })))
  ]

unfoldable pub replay_data_updated : ℕ → QuorumMergeStrategy → ℕ → Option QuorumMergeStrategy
replay_data_updated fuel (quorum s) id = do
  s' ← Quorum.replay_data_updated s id
  work_state_until_stable fuel (quorum s')
replay_data_updated fuel (stalemate s) id = do
  s' ← Stalemate.replay_data_updated s id
  work_state_until_stable fuel (stalemate s')
replay_data_updated fuel swapping id = none

unfoldable pub get_merged_replay : QuorumMergeStrategy → Option MergedReplay
get_merged_replay me = do s ← shared me; some s.canonical_stream

unfoldable pub finish : QuorumMergeStrategy → Option QuorumMergeStrategy
finish (quorum s) = none
finish (stalemate s) = do
  assert (canon_data_len s.s == s.s.canonical_stream.delayed_data_len)
  assert (is_empty s.reserve)
  assert (is_empty s.candidates)
  let (canon, _) = MergedReplay.finish s.s.canonical_stream
  some (stalemate (record s { s = record s.s { canonical_stream = canon } }))
finish swapping = none
