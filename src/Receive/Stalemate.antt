-- ===== src/Receive/Stalemate.antt =====
-- replay/receive/quorum_merge_strategy.rs: `MergeStalemateState`.
pub mod Inv
pub mod Leave
pub mod Move
pub mod MoveAll
use faf_rust_replayserver.Base.{
  Bytes, ℕ, ◌+◌, max, Bool, true, false, not, ◌&&◌, List, [], ◌∷◌, Option, none, some, ltb, leb,
  ◌==◌, if◌then◌else◌, ◌>>=◌, ◌>>◌, assert, length,
}
use faf_rust_replayserver.Util.BufDeque.{as_chunked}
use faf_rust_replayserver.Util.ChunkedBuf
use faf_rust_replayserver.Streams.WriterReplay
use faf_rust_replayserver.Streams.WriterReplay.{WriterReplay}
use faf_rust_replayserver.Receive.Sets.{contains, insert, remove, Entries, push_entry}
use faf_rust_replayserver.Receive.State
use faf_rust_replayserver.Receive.State.{
  ReplayState, SharedState, set_replay, get_replay, canon_data_len, diverges_at_stalemate,
  set_diverged, set_matching,
}

pub record MergeStalemateState : Type 0 where
  pub s : SharedState
  pub candidates : Entries
  pub reserve : List ℕ

unfoldable pub new : ℕ → ℕ → MergeStalemateState
new target_quorum_size stream_cmp_distance = record {
  s = State.new target_quorum_size stream_cmp_distance;
  candidates = [];
  reserve = [];
}

unfoldable pub insert_candidate : MergeStalemateState → ℕ → ℕ → MergeStalemateState
insert_candidate me byte id = record me { candidates = push_entry byte id me.candidates }

-- The branch for a replay that is no longer than the canonical one.
unfoldable pub leave_short : MergeStalemateState → ℕ → ReplayState → MergeStalemateState
leave_short me id replay =
    if replay.r.finished
    then record me { s = set_replay me.s id (set_diverged replay); reserve = remove id me.reserve }
    else me

-- The branch for a longer one.
unfoldable pub move_long : MergeStalemateState → ℕ → ReplayState → Option MergeStalemateState
move_long me id replay = do
  diverges ← diverges_at_stalemate replay me.s.canonical_stream
  let left = remove id me.reserve
  if diverges
      then some (record me { s = set_replay me.s id (set_diverged replay); reserve = left })
      else (let matching = set_matching replay (canon_data_len me.s) in
          do
            next_byte ← ChunkedBuf.at (as_chunked matching.r.content) (canon_data_len me.s)
            some (
                insert_candidate (record me { s = set_replay me.s id matching; reserve = left })
                  next_byte id))

unfoldable pub try_move_replay_to_candidates : MergeStalemateState → ℕ → Option MergeStalemateState
try_move_replay_to_candidates me id = do
  replay ← get_replay me.s id
  if leb (WriterReplay.data_len replay.r) (canon_data_len me.s)
      then some (leave_short me id replay)
      else move_long me id replay

-- The loop of `from_quorum`.
unfoldable pub try_move_all : MergeStalemateState → List ℕ → Option MergeStalemateState
try_move_all me [] = some me
try_move_all me (id ∷ ids) = do me' ← try_move_replay_to_candidates me id; try_move_all me' ids

unfoldable pub from_quorum : SharedState → List ℕ → Option MergeStalemateState
from_quorum shared reserve =
    try_move_all (record { s = shared; candidates = []; reserve = reserve }) reserve

unfoldable pub add_replay : MergeStalemateState → WriterReplay → ℕ × MergeStalemateState
add_replay me w =
    let (token, s') = State.add_replay me.s w in
    (token, record me { s = s'; reserve = insert token me.reserve })

unfoldable pub check_delayed : MergeStalemateState → ℕ → Option MergeStalemateState
check_delayed me id = if me.s.delayed_data_started then some me else (do
  replay ← get_replay me.s id
  some (
      if ltb 0 replay.r.delayed_data_len
      then record me { s = record me.s { delayed_data_started = true } }
      else me))

unfoldable pub replay_data_updated : MergeStalemateState → ℕ → Option MergeStalemateState
replay_data_updated me id = do
  me' ← if contains me.reserve id then try_move_replay_to_candidates me id else some me
  check_delayed me' id

unfoldable pub replay_ended : MergeStalemateState → ℕ → Option MergeStalemateState
replay_ended me id = if contains me.reserve id then try_move_replay_to_candidates me id else some me

-- `candidates.values().map(|c| c.len()).max().unwrap()`
unfoldable pub largest : Entries → ℕ
largest [] = 0
largest ((k, ids) ∷ m) = max (length ids) (largest m)

abbrev pub is_empty {ℓ} : {A : Type ℓ} → List A → Bool
is_empty [] = true
is_empty (x ∷ xs) = false

unfoldable pub can_exit_stalemate : MergeStalemateState → Bool
can_exit_stalemate me =
    if not me.s.delayed_data_started
    then false
    else if is_empty me.candidates
    then false
    else if is_empty me.reserve
    then true
    else leb me.s.target_quorum_size (largest me.candidates)
