-- ===== src/Streams/Tests.antt =====
-- Witnesses for the streams.
use faf_rust_replayserver.Base.{ℕ, replicate, zero, suc, refl, ◌⊎◌, [], arith}
use faf_rust_replayserver.Samples.{
  bytes, data_replay, data_deque-Rep, data_merged, data_merged-Holds,
}
use faf_rust_replayserver.Streams.HeaderParser
use faf_rust_replayserver.Streams.HeaderParser.Laws.{Limited, from_connection-Limited}
use faf_rust_replayserver.Streams.HeaderParser.Reads.{AreBytes}
use faf_rust_replayserver.Streams.MergedReplay
use faf_rust_replayserver.Streams.MergedReplay.Laws as Merged
use faf_rust_replayserver.Streams.MergedReplay.Laws.{Merges, add_data-Merges}
use faf_rust_replayserver.Streams.MergedReplay.Read.{Copies, Ends, Waits, poll_read-cases}

add_data-Merges_example :
    Merges MergedReplay.new [] bytes 2 (MergedReplay.add_data MergedReplay.new data_replay 2)
unfolding MergedReplay.new
add_data-Merges_example =
    add_data-Merges MergedReplay.new [] data_replay bytes 2 Merged.new-Holds data_deque-Rep refl
      (omega arith) (omega arith) (omega arith)

poll_read-cases_example :
    Copies data_merged bytes data_merged-Holds 3 0 10 (MergedReplay.poll_read data_merged 3 0 10)
    ⊎ Ends data_merged bytes data_merged-Holds 3 0 10 (MergedReplay.poll_read data_merged 3 0 10)
    ⊎ Waits data_merged bytes data_merged-Holds 3 0 10 (MergedReplay.poll_read data_merged 3 0 10)
poll_read-cases_example = poll_read-cases data_merged bytes data_merged-Holds 3 0 10

zeros-AreBytes : (n : ℕ) → AreBytes (replicate n 0)
unfolding replicate
zeros-AreBytes zero = tt
zeros-AreBytes (suc n) = (omega arith, zeros-AreBytes n)

-- A header of 24 zero bytes (no mods, no scenario, no players, no armies), and six bytes of data.
from_connection-Limited_example :
    Limited (replicate 30 0) (HeaderParser.from_connection (replicate 30 0))
from_connection-Limited_example = from_connection-Limited (replicate 30 0) (zeros-AreBytes 30)
