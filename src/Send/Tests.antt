-- ===== src/Send/Tests.antt =====
-- Witness for the sending of a replay.
use faf_rust_replayserver.Base.{refl, [], ◌∷◌, List, arith, take}
use faf_rust_replayserver.Samples.{
  bytes, data_merged, data_merged-Holds, finished_merged, finished_merged-Holds,
}
use faf_rust_replayserver.Streams.MergedReplay.Read.{visible}
use faf_rust_replayserver.Send.{send_replay_to_connection}
use faf_rust_replayserver.Send.Laws.{
  Snapshot, final, replays, Sends, Grows, send_replay_to_connection-Sends,
}

-- The replay is polled twice while it runs, and once when it is finished.
abbrev polls : List Snapshot
polls = (data_merged, bytes) ∷ (data_merged, bytes) ∷ (finished_merged, bytes) ∷ []

polls-Grows : Grows [] polls
unfolding take
polls-Grows = (
  data_merged-Holds,
  (visible data_merged bytes, refl),
  (λ over. refl),
  (
    data_merged-Holds,
    ([], refl),
    (λ over. refl),
    (finished_merged-Holds, ([], refl), (λ over. refl), tt),
  ),
)

send_replay_to_connection-Sends_example :
    Sends (final [] polls) 0 (send_replay_to_connection 3 10 (replays polls))
send_replay_to_connection-Sends_example =
    send_replay_to_connection-Sends 3 10 polls (omega arith) polls-Grows
