-- ===== src/Server/Life.antt =====
-- replay/replay.rs: `Replay`. A task runs up to its next wait without being interrupted; each such
-- part is a step here. The steps of `regular_lifetime`, of `timeout` and of the connections can come
-- in any order. A panic is `none`.
pub mod Step
pub mod Safe
pub mod Waits
pub mod Laws
pub mod End
pub mod Live
mod Tests
use faf_rust_replayserver.Base.{
  ℕ, ◌+◌, ◌-◌, Bool, true, false, List, [], ◌∷◌, ◌++◌, Option, none, some, if◌then◌else◌, ◌>>=◌,
}
use faf_rust_replayserver.Util.EmptyCounter
use faf_rust_replayserver.Util.EmptyCounter.{
  EmptyCounter, inc, dec, Wakeup, changed, timed_out, turn,
}
use faf_rust_replayserver.Streams.MergedReplay.{MergedReplay}
use faf_rust_replayserver.Receive.Merger
use faf_rust_replayserver.Receive.Merger.{ReplayMerger, finalize}
use faf_rust_replayserver.Receive.Strategy.{get_merged_replay}
use faf_rust_replayserver.Server.Assign.{ConnectionType, reader, writer}
use faf_rust_replayserver.Server.Errors.{ConnResult, ok, err, cannot_assign_to_replay}

-- Where `regular_lifetime` waits; in a wait for a counter, with the last count that it saw.
pub data Stage : Type 0 where
  no_writers_for_a_while writers_left readers_left : ℕ → Stage
  saving over : Stage

pub record Replay : Type 0 where
  pub id : ℕ
  pub merger : ReplayMerger
  -- whether the token is cancelled, and whether `timeout` still waits
  pub replay_timeout_token : Bool
  pub timeout_runs : Bool
  pub writer_connection_count : EmptyCounter
  pub reader_connection_count : EmptyCounter
  pub should_stop_accepting_connections : Bool
  pub stage : Stage
  -- what `save_replay` was called with
  pub saves : List (MergedReplay × ℕ)
  -- this replay's share of the metrics
  pub running_replays : ℕ
  pub finished_replays : ℕ

-- `new`, and the start of `lifetime` up to its first waits.
unfoldable pub new : ℕ → ReplayMerger → Replay
new id merger = record {
  id = id;
  merger = merger;
  replay_timeout_token = false;
  timeout_runs = true;
  writer_connection_count = EmptyCounter.new;
  reader_connection_count = EmptyCounter.new;
  should_stop_accepting_connections = false;
  stage = no_writers_for_a_while 0;
  saves = [];
  running_replays = 1;
  finished_replays = 0;
}

-- `forced_timeout` is over.
unfoldable pub timeout : Replay → Replay
timeout me = record me { replay_timeout_token = true; timeout_runs = false }

-- The first wait of `regular_lifetime` ended, by itself or by the token.
unfoldable pub stop_accepting : Replay → Replay
stop_accepting me = record me {
  should_stop_accepting_connections = true;
  stage = writers_left me.writer_connection_count.counter;
}

-- The last writer left: `finalize`, and the call of `save_replay`.
unfoldable pub finish_merging : Replay → Option Replay
finish_merging me = do
  merger ← finalize me.merger
  merged ← get_merged_replay merger.merge_strategy
  some (record me { merger = merger; stage = saving; saves = me.saves ++ (merged, me.id) ∷ [] })

unfoldable pub end_saving : Replay → Replay
end_saving me = record me { stage = readers_left me.reader_connection_count.counter }

unfoldable pub end_replay : Replay → Replay
end_replay me = record me {
  stage = over;
  replay_timeout_token = true;
  running_replays = me.running_replays - 1;
  finished_replays = me.finished_replays + 1;
}

-- A wait for a counter wakes up: `sleep` passed, or the counter changed.
abbrev pub wakeup : Bool → EmptyCounter → Wakeup
wakeup slept c = if slept then timed_out else changed c.counter

abbrev pub turned : Bool → EmptyCounter → ℕ → Option ℕ
turned slept c last = turn c.counter last (wakeup slept c)

unfoldable pub resume_at : Replay → Stage → Bool → Option Replay
resume_at me (no_writers_for_a_while last) slept =
    elim (turned slept me.writer_connection_count last) [
      | none ↦ some (stop_accepting me)
      | some count ↦ some (record me { stage = no_writers_for_a_while count })
    ]
resume_at me (writers_left last) slept = elim (turned slept me.writer_connection_count last) [
  | none ↦ finish_merging me
  | some count ↦ some (record me { stage = writers_left count })
]
resume_at me (readers_left last) slept = elim (turned slept me.reader_connection_count last) [
  | none ↦ some (end_replay me)
  | some count ↦ some (record me { stage = readers_left count })
]
resume_at me saving slept = some me
resume_at me over slept = some me

unfoldable pub resume : Replay → Bool → Option Replay
resume me slept = resume_at me me.stage slept

-- The counter of a type of connection, and its change.
unfoldable pub with_counter :
    Replay → ConnectionType → (EmptyCounter → Option EmptyCounter) → Option Replay
with_counter me writer change = do
  count ← change me.writer_connection_count
  some (record me { writer_connection_count = count })
with_counter me reader change = do
  count ← change me.reader_connection_count
  some (record me { reader_connection_count = count })

-- The start of `handle_connection`, up to the merger or the sender.
unfoldable pub begin_connection : Replay → ConnectionType → Option (ConnResult (Unit {0}) × Replay)
begin_connection me type_ =
    if me.should_stop_accepting_connections
    then some (err cannot_assign_to_replay, me)
    else do me' ← with_counter me type_ (λ c. some (inc c)); some (ok tt, me')

-- Its end, after the merger or the sender.
unfoldable pub end_connection : Replay → ConnectionType → Option Replay
end_connection me type_ = with_counter me type_ dec
