-- ===== src/Server/Life/Tests.antt =====
-- Witnesses for the life of a replay.
use faf_rust_replayserver.Base.{◌≡◌, refl, true, some}
use faf_rust_replayserver.Util.BufDeque
use faf_rust_replayserver.Util.EmptyCounter
use faf_rust_replayserver.Streams.MergedReplay
use faf_rust_replayserver.Receive.State
use faf_rust_replayserver.Receive.Stalemate
use faf_rust_replayserver.Receive.Strategy
use faf_rust_replayserver.Receive.Merger
use faf_rust_replayserver.Receive.Merger.{ReplayMerger}
use faf_rust_replayserver.Server.Assign.{reader, writer}
use faf_rust_replayserver.Server.Errors.{err, cannot_assign_to_replay}
use faf_rust_replayserver.Server.Life
use faf_rust_replayserver.Server.Life.{Replay, begin_connection}
use faf_rust_replayserver.Server.Life.Step.{
  World, with_replay, begins, shuts_down, Reach, here, next, born,
}
use faf_rust_replayserver.Server.Life.Safe.{Safe}
use faf_rust_replayserver.Server.Life.Laws.{lifetime-Safe}
use faf_rust_replayserver.Server.Life.End.{begin_connection-refuses}
use faf_rust_replayserver.Server.Life.Live.{Finalizes, Ends, lifetime-Ends}

abbrev merger : ReplayMerger
merger = Merger.new 300 1 2 4096

-- A writer came, and the server shuts down.
abbrev one_writer : World
one_writer = record {
  replay = record (Life.new 5 merger) { writer_connection_count = record { counter = 1 } };
  writers = 1;
  readers = 0;
}

abbrev shut_down : World
shut_down = with_replay one_writer (record one_writer.replay { replay_timeout_token = true })

one_writer-Reach : Reach 10 (born 5 merger) one_writer
unfolding Life.new begin_connection Life.with_counter EmptyCounter.inc EmptyCounter.new
one_writer-Reach = next here (begins (born 5 merger) writer one_writer.replay refl)

shut_down-Reach : Reach 10 (born 5 merger) shut_down
shut_down-Reach = next one_writer-Reach (shuts_down one_writer)

lifetime-Safe_example : Safe shut_down
lifetime-Safe_example = lifetime-Safe 5 merger 10 shut_down shut_down-Reach

abbrev stopped : World
stopped = with_replay shut_down (Life.stop_accepting shut_down.replay)

begin_connection-refuses_example :
    begin_connection
      (with_replay stopped (record stopped.replay { replay_timeout_token = true })).replay
      reader
    ≡ some (
      err cannot_assign_to_replay,
      (with_replay stopped (record stopped.replay { replay_timeout_token = true })).replay,
    )
unfolding Life.stop_accepting
begin_connection-refuses_example =
    begin_connection-refuses 10 stopped
      (with_replay stopped (record stopped.replay { replay_timeout_token = true })) reader refl
      (next here (shuts_down stopped))

merger-Finalizes : Finalizes merger
unfolding Merger.new Merger.finalize Strategy.new Strategy.finish Strategy.get_merged_replay
    Strategy.shared Stalemate.new State.new MergedReplay.new MergedReplay.finish
    MergedReplay.notify_read_event BufDeque.new
merger-Finalizes = (_, refl, _, refl)

lifetime-Ends_example : Ends 10 (born 5 merger)
unfolding Life.new Merger.new
lifetime-Ends_example = lifetime-Ends 5 merger 10 (born 5 merger) here refl refl merger-Finalizes
