-- ===== src/Samples.antt =====
-- Small concrete buffers, replays and strategies, for the witnesses.
use faf_rust_replayserver.Base.{
  Bytes, refl, true, false, [], ◌∷◌, some, arith, take, drop, concat, length-drop,
}
use faf_rust_replayserver.Util.BufDeque.{BufDeque, zeros}
use faf_rust_replayserver.Util.BufDeque.Rep.{Rep, length-zeros}
use faf_rust_replayserver.Streams.WriterReplay.{WriterReplay}
use faf_rust_replayserver.Streams.WriterReplay.Laws as Writer
use faf_rust_replayserver.Streams.MergedReplay.{MergedReplay}
use faf_rust_replayserver.Streams.MergedReplay.Laws as Merged

-- Three bytes of data.
abbrev pub bytes : Bytes
bytes = 7 ∷ 8 ∷ 9 ∷ []

abbrev pub data_deque : BufDeque
data_deque = record {
  chunks = (7 ∷ 8 ∷ 9 ∷ drop 3 zeros) ∷ [];
  discarded_chunks = 0;
  window_end = 3;
}

pub data_deque-Rep : Rep data_deque bytes
unfolding concat take drop
data_deque-Rep = record {
  sizes = (omega (arith, length-drop 3 zeros, length-zeros), tt);
  end = refl;
  enough = omega arith;
  tight = omega arith;
  content = refl;
}

-- A connection that sent them, and has two of them delayed.
abbrev pub data_replay : WriterReplay
data_replay = record {
  header = some (record { bytes = 1 ∷ 2 ∷ [] });
  content = data_deque;
  delayed_data_len = 2;
  finished = false;
}

pub data_replay-Holds : Writer.Holds data_replay bytes
data_replay-Holds = record { rep = data_deque-Rep; delayed = omega arith }

-- A canonical replay that has them, of which two are visible.
abbrev pub data_merged : MergedReplay
data_merged = record {
  content = data_deque;
  header = some (record { bytes = 1 ∷ 2 ∷ [] });
  delayed_data_len = 2;
  finished = false;
  read_event = record { wakers = [] };
}

pub data_merged-Holds : Merged.Holds data_merged bytes
data_merged-Holds = record { rep = data_deque-Rep; whole = refl; delayed = omega arith }

abbrev pub finished_merged : MergedReplay
finished_merged = record data_merged { finished = true }

pub finished_merged-Holds : Merged.Holds finished_merged bytes
finished_merged-Holds = record { rep = data_deque-Rep; whole = refl; delayed = omega arith }
