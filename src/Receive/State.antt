-- ===== src/Receive/State.antt =====
-- replay/receive/quorum_merge_strategy.rs: `ReplayState` and `SharedState`. A writer replay is shared
-- with the task of its connection; it stands here in the map of the strategy, under its token, and
-- what the task does to it is a change of that entry (`Receive.Strategy`).
pub mod Compare
use faf_rust_replayserver.Base.{
  Bytes, ℕ, ◌+◌, ◌-◌, min, max, Bool, true, false, not, List, [], ◌∷◌, Option, none, some, ltb, leb,
  ◌==◌, if◌then◌else◌, ◌>>=◌, ◌>>◌, assert,
}
use faf_rust_replayserver.Util.BufDeque.{as_chunked}
use faf_rust_replayserver.Util.ChunkedBuf
use faf_rust_replayserver.Streams.WriterReplay
use faf_rust_replayserver.Streams.WriterReplay.{WriterReplay}
use faf_rust_replayserver.Streams.MergedReplay
use faf_rust_replayserver.Streams.MergedReplay.{MergedReplay}
use faf_rust_replayserver.Receive.Sets.{update}

pub record ReplayState : Type 0 where
  pub r : WriterReplay
  pub stream_cmp_distance : ℕ
  pub data_matching_canon : ℕ

abbrev pub new_replay_state : WriterReplay → ℕ → ReplayState
new_replay_state w distance = record {
  r = w;
  stream_cmp_distance = distance;
  data_matching_canon = 0;
}

unfoldable pub common_prefix_from_to : ReplayState → ReplayState → ℕ → Option ℕ → Option ℕ
common_prefix_from_to me other start end =
    ChunkedBuf.common_prefix_from_to (as_chunked me.r.content) (as_chunked other.r.content) start
      end

abbrev pub match_start_optimization : ReplayState → ℕ → ℕ
match_start_optimization me canon_length = canon_length - me.stream_cmp_distance

unfoldable pub diverges_at_stalemate : ReplayState → MergedReplay → Option Bool
diverges_at_stalemate me c = do
  assert (leb (MergedReplay.data_len c) (WriterReplay.data_len me.r))
  let optimized_match_start = match_start_optimization me (MergedReplay.data_len c)
  let match_start = max me.data_matching_canon optimized_match_start
  match_len ←
      ChunkedBuf.common_prefix_from (as_chunked me.r.content) (as_chunked c.content) match_start
  some (not (match_len == MergedReplay.data_len c))

unfoldable pub set_diverged : ReplayState → ReplayState
set_diverged me = record me { r = WriterReplay.discard_all me.r }

unfoldable pub set_matching : ReplayState → ℕ → ReplayState
set_matching me canon_length =
    let matching = max canon_length me.data_matching_canon in
    record me { data_matching_canon = matching; r = WriterReplay.discard me.r matching }

unfoldable pub discard_if_not_needed_for_checking_divergence : ReplayState → ℕ → ReplayState
discard_if_not_needed_for_checking_divergence me canon_length = record me {
  r = WriterReplay.discard me.r (match_start_optimization me canon_length);
}

pub record SharedState : Type 0 where
  pub token : ℕ
  pub stream_cmp_distance : ℕ
  pub delayed_data_started : Bool
  pub target_quorum_size : ℕ
  pub replays : ℕ → Option ReplayState
  pub canonical_stream : MergedReplay

unfoldable pub new : ℕ → ℕ → SharedState
new target_quorum_size stream_cmp_distance = record {
  token = 0;
  stream_cmp_distance = stream_cmp_distance;
  delayed_data_started = false;
  target_quorum_size = target_quorum_size;
  replays = λ _. none;
  canonical_stream = MergedReplay.new;
}

-- A change through `get_mut_replay`.
abbrev pub set_replay : SharedState → ℕ → ReplayState → SharedState
set_replay s id rs = record s { replays = update s.replays id rs }

unfoldable pub add_replay : SharedState → WriterReplay → ℕ × SharedState
add_replay s w =
    let s' = set_replay s s.token (new_replay_state w s.stream_cmp_distance) in
    (s.token, record s' { token = s.token + 1 })

-- The `unwrap` is the option.
abbrev pub get_replay : SharedState → ℕ → Option ReplayState
get_replay s id = s.replays id

abbrev pub canon_data_len : SharedState → ℕ
canon_data_len s = MergedReplay.data_len s.canonical_stream

abbrev pub canon_delayed_data_len : SharedState → ℕ
canon_delayed_data_len s = s.canonical_stream.delayed_data_len

unfoldable pub append_canon_data : SharedState → ℕ → ℕ → Option SharedState
append_canon_data s id until = do
  source ← get_replay s id
  canon ← MergedReplay.add_data s.canonical_stream source.r until
  some (record s { canonical_stream = canon })

-- The tasks that `advance_delayed_data` wakes do not change the state.
unfoldable pub update_canon_delayed_data_len : SharedState → ℕ → Option SharedState
update_canon_delayed_data_len s hint =
    let to = min hint (canon_data_len s) in
    if leb to (canon_delayed_data_len s) then some s else (do
      (canon, _) ← MergedReplay.advance_delayed_data s.canonical_stream to
      some (record s { canonical_stream = canon }))

-- `for id in ids.iter() { self.get_mut_replay(*id).change() }`
unfoldable pub for_each : (ReplayState → ReplayState) → SharedState → List ℕ → Option SharedState
for_each change s [] = some s
for_each change s (id ∷ ids) = do
  replay ← get_replay s id
  for_each change (set_replay s id (change replay)) ids
