-- ===== src/Lib.antt =====
-- Verification library of the FAF replay server.
--
-- The server takes a replay of one game from several writers at a time (the players of the game) and
-- sends one merged replay to its readers. The parts that are modelled here, and how they interact:
--
--   * `Util`: the buffers of util/. `Util.BufDeque` (util/buf_deque.rs) is the deque of chunks whose
--     start can be discarded; `Util.ChunkedBuf` (util/buf_traits.rs) is the trait for buffers that are
--     read chunk by chunk, with the comparison of two buffers, the iterator over the chunks of a range
--     and the cursor; `Util.Event` (util/event.rs) holds the wakers of tasks that wait;
--     `Util.EmptyCounter` (util/empty_counter.rs) is the counter whose waiters end when it is empty;
--     `Util.F64` is the arithmetic of the language on times, rounded to 53 bits.
--   * `Streams`: the replays of replay/streams/. `Streams.WriterReplay` (writer_replay.rs) is what one
--     connection sent; `Streams.MergedReplay` (merged_replay.rs) is the canonical replay with the
--     reader that sends it; `Streams.ReplayHeader` and `Streams.HeaderParser` (header.rs) are the header
--     and its parser, on the bytes that a connection delivers before it ends.
--   * `Receive`: the strategy of replay/receive/quorum_merge_strategy.rs. `Receive.Sets` has the
--     collections it uses, `Receive.State` its `ReplayState` and `SharedState`, `Receive.Stalemate`
--     its `MergeStalemateState`, `Receive.Quorum` its `MergeQuorumState` and `Receive.Strategy` its
--     `QuorumMergeStrategy`, with `exit_stalemate` and `enter_stalemate` between the two states.
--     `Receive.ReplayDelay` (replay_delay.rs) moves the delayed position of a replay, and
--     `Receive.Merger` (merger.rs) cuts the task of a connection at its waits into steps, each of which
--     changes the replay of the connection and calls the strategy.
--   * `Server`: the connections. `Server.Errors` is error.rs with the counter of metrics.rs, `Server.Connection`
--     is server/connection.rs with its gauge (metrics.rs), `Server.Header` is accept/header.rs, `Server.Websocket` is
--     server/websocket_stream.rs, and `Server.Accept` is the loop of server/server.rs with
--     accept/producer.rs. `Server.Dispatch` (replay/runner.rs) picks the thread of a connection,
--     `Server.Assign` (replay/replays.rs) its replay. `Server.Life` (replay/replay.rs) is the life of a
--     replay around its merger: `Server.Life.Step` has the steps of its tasks.
--   * `Send` (replay/send/sender.rs) copies the canonical replay to a reader, and `Save` (replay/save/)
--     writes it to its file: `Save.Directory` (directory.rs) finds the path, `Save.JsonHeader`
--     (json_header.rs) makes the header, `Save.Writer` (writer.rs) writes, `Save.Saver` (saver.rs) does
--     the whole and tells the database.
--   * `Database.Queries` (database/queries.rs): the teams, the map name and the statistics of a game, from
--     the rows that the database returns; `Database.Mods` (database/database.rs and queries.rs): the
--     query for the versions of a mod.
--   * `Config` (config.rs): the settings, and how they are loaded from the environment and a file.
--   * `Util.Timeout` (util/timeout.rs) races futures, `Util.Text` has the texts and numbers of `std` and
--     `pretty_bytes` (util/mod.rs), `Util.StringMap` the map with strings as keys.
--   * `Base`: the library names, the lists over the native numbers and their lemmas. `Samples` and the
--     `Tests` modules have concrete inputs.
--
-- A definition has the name of the function or type that it models. A method that changes its object
-- returns the new object; a panic (`assert!`, `debug_assert!`, `unwrap`, a slice out of range, an
-- underflow that a debug build traps) is `none`. A replay that is shared through `Rc<RefCell>` with the
-- task of its connection stands in the map of the strategy under its token. A `HashSet` is a list
-- without repetition in the order of iteration, which no theorem depends on.
--
-- The data that a buffer stands for is a list of bytes `h` that the buffer does not hold itself: all
-- that was ever written to it. `Util.BufDeque.Rep` says which part of `h` the chunks hold. In
-- `Receive`, `H` gives the data that each replay received and `c` is the canonical data;
-- `Receive.Place` gives each replay a place (in the reserve, in the quorum, among the candidates for a
-- byte, or out of the game), and the invariants of the two states say that the sets of the state are
-- the replays at those places, and what is known of a replay at each place.
--
-- Loops are structural recursion where they walk a list. The others take fuel: `write_rounds` has a
-- round for each byte, `compare_rounds` and `chunk_rounds` one for each position of the range, and
-- `work_state_until_stable` takes its fuel as an argument, since its bound depends on the data that
-- the replays hold: each pass through a stalemate takes at least one byte. Numbers have no bound;
-- `usize::MAX` is written out where the code uses it.
--
-- Tasks are cut at their waits: between two of them a task is not interrupted, and a step relation
-- lets the tasks take their parts in any order. A future is the time at which it is ready and its value,
-- and a polled one is a list of the states that its polls see.
--
-- Code that is not in the repository is an argument: the rows that the database returns, the
-- serialization of the JSON header, the encoder, the parser of the ticks, the file system, the
-- listeners, and the contents of the configuration file.
--
-- Not modelled: sockets, threads and signals themselves (main.rs, util/process.rs, the threads of
-- replay/runner.rs), the SQL of the queries with fixed text and the pool of the database, the logs, and
-- the export of the metrics.
mod Base
mod Samples
pub mod Util
pub mod Streams
pub mod Receive
pub mod Server
pub mod Database
pub mod Config
pub mod Save
pub mod Send
