-- ===== src/Receive/Merger.antt =====
-- replay/receive/merger.rs: `ReplayMerger`. The task of a connection runs up to its next wait without
-- being interrupted; each such part is a step here, and the steps of several connections can come in
-- any order. A panic is `none`.
use faf_rust_replayserver.Base.{Bytes, ℕ, Option, some, ◌==◌, if◌then◌else◌, ◌>>=◌}
use faf_rust_replayserver.Streams.ReplayHeader.{ReplayHeader}
use faf_rust_replayserver.Streams.WriterReplay
use faf_rust_replayserver.Streams.WriterReplay.{WriterReplay}
use faf_rust_replayserver.Receive.State.{set_replay, get_replay}
use faf_rust_replayserver.Receive.ReplayDelay.{
  Timestamps, start_timestamps, update_replay_timestamp, set_final_replay_timestamp,
}
use faf_rust_replayserver.Receive.Strategy
use faf_rust_replayserver.Receive.Strategy.{QuorumMergeStrategy, shared, with_shared}

-- Where the task of a connection waits: for the header, in the `select!`, or nowhere any more.
pub data Phase : Type 0 where
  absent reading_header ended : Phase
  reading_data : Timestamps → Phase

pub record ReplayMerger : Type 0 where
  pub merge_strategy : QuorumMergeStrategy
  pub delay_s : ℕ
  pub sleep_s : ℕ
  pub phases : ℕ → Phase

unfoldable pub new : ℕ → ℕ → ℕ → ℕ → ReplayMerger
new delay_s sleep_s target_quorum_size stream_cmp_distance = record {
  merge_strategy = Strategy.new target_quorum_size stream_cmp_distance;
  delay_s = delay_s;
  sleep_s = sleep_s;
  phases = λ _. absent;
}

abbrev pub set_phase : (ℕ → Phase) → ℕ → Phase → ℕ → Phase
set_phase phases id p j = if id == j then p else phases j

-- A change of the replay that the task shares with the strategy: `replay.borrow_mut().change()`.
unfoldable pub with_writer :
    QuorumMergeStrategy → ℕ → (WriterReplay → Option WriterReplay) → Option QuorumMergeStrategy
with_writer me id change = do
  s ← shared me
  replay ← get_replay s id
  r ← change replay.r
  some (with_shared me (set_replay s id (record replay { r = r })))

-- The start of `handle_connection`, up to the wait for the header.
unfoldable pub connect : ℕ → ReplayMerger → Option ReplayMerger
connect fuel me = do
  (token, strategy) ← Strategy.replay_added fuel me.merge_strategy WriterReplay.new
  some (record me { merge_strategy = strategy; phases = set_phase me.phases token reading_header })

-- The header arrived.
unfoldable pub header_read : ReplayMerger → ℕ → ReplayHeader → Option ReplayMerger
header_read me token header = do
  strategy ← with_writer me.merge_strategy token (λ r. some (WriterReplay.add_header r header))
  strategy' ← Strategy.replay_header_added strategy token
  some (record me {
    merge_strategy = strategy';
    phases = set_phase me.phases token (reading_data (start_timestamps me.delay_s me.sleep_s));
  })

-- Some data arrived (a round of `read_data`).
unfoldable pub data_read : ReplayMerger → ℕ → Bytes → Option ReplayMerger
data_read me token buf = do
  strategy ← with_writer me.merge_strategy token (λ r. WriterReplay.add_data r buf)
  some (record me { merge_strategy = strategy })

-- A turn of `update_replay_timestamp`, with the callback.
unfoldable pub timestamp_updated : ℕ → ReplayMerger → ℕ → Timestamps → Option ReplayMerger
timestamp_updated fuel me token t = do
  s ← shared me.merge_strategy
  replay ← get_replay s token
  (t', (r, changed)) ← update_replay_timestamp t replay.r
  let strategy = with_shared me.merge_strategy (set_replay s token (record replay { r = r }))
  strategy' ← if changed then Strategy.replay_data_updated fuel strategy token else some strategy
  some (record me {
    merge_strategy = strategy';
    phases = set_phase me.phases token (reading_data t');
  })

-- The end of `handle_connection`, from whichever wait it is left.
unfoldable pub connection_ended : ℕ → ReplayMerger → ℕ → Option ReplayMerger
connection_ended fuel me token = do
  strategy ← with_writer me.merge_strategy token set_final_replay_timestamp
  strategy' ← Strategy.replay_data_updated fuel strategy token
  strategy'' ← with_writer strategy' token (λ r. some (WriterReplay.finish r))
  strategy''' ← Strategy.replay_removed fuel strategy'' token
  some (record me { merge_strategy = strategy'''; phases = set_phase me.phases token ended })

unfoldable pub finalize : ReplayMerger → Option ReplayMerger
finalize me = do
  strategy ← Strategy.finish me.merge_strategy
  some (record me { merge_strategy = strategy })
