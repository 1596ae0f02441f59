-- ===== src/Server/Life/Step.antt =====
-- The steps of a replay and of its connections, in any order.
use faf_rust_replayserver.Base.{Bytes, ℕ, ◌+◌, ◌-◌, ◌<◌, Bool, true, false, ◌≡◌, some}
use faf_rust_replayserver.Streams.ReplayHeader.{ReplayHeader}
use faf_rust_replayserver.Receive.ReplayDelay.{Timestamps}
use faf_rust_replayserver.Receive.Merger.{
  ReplayMerger, connect, header_read, data_read, timestamp_updated, connection_ended,
}
use faf_rust_replayserver.Server.Assign.{ConnectionType, reader, writer}
use faf_rust_replayserver.Server.Errors.{ok, err, ConnectionError}
use faf_rust_replayserver.Server.Life.{
  no_writers_for_a_while, saving, Replay, new, timeout, stop_accepting, end_saving, resume,
  begin_connection, end_connection,
}

-- What the task of a writer does to the merger.
pub data Merges (fuel : ℕ) : ReplayMerger → ReplayMerger → Type 0 where
  connects : (m m' : ReplayMerger) → connect fuel m ≡ some m' → Merges fuel m m'
  reads_header :
      (m m' : ReplayMerger) (token : ℕ) (header : ReplayHeader)
      → header_read m token header ≡ some m'
      → Merges fuel m m'
  reads_data :
      (m m' : ReplayMerger) (token : ℕ) (buf : Bytes)
      → data_read m token buf ≡ some m'
      → Merges fuel m m'
  updates :
      (m m' : ReplayMerger) (token : ℕ) (t : Timestamps)
      → timestamp_updated fuel m token t ≡ some m'
      → Merges fuel m m'
  leaves :
      (m m' : ReplayMerger) (token : ℕ) → connection_ended fuel m token ≡ some m' → Merges fuel m m'

-- A replay with the connections that it handles: how many writers and how many readers.
pub record World : Type 0 where
  pub replay : Replay
  pub writers : ℕ
  pub readers : ℕ

abbrev pub joined : World → ConnectionType → Replay → World
joined w writer r = record { replay = r; writers = w.writers + 1; readers = w.readers }
joined w reader r = record { replay = r; writers = w.writers; readers = w.readers + 1 }

abbrev pub with_replay : World → Replay → World
with_replay w r = record w { replay = r }

abbrev pub left : World → ConnectionType → Replay → World
left w writer r = record { replay = r; writers = w.writers - 1; readers = w.readers }
left w reader r = record { replay = r; writers = w.writers; readers = w.readers - 1 }

abbrev pub handled : World → ConnectionType → ℕ
handled w writer = w.writers
handled w reader = w.readers

pub data Step (fuel : ℕ) : World → World → Type 0 where
  -- the server shuts down, and its token is the parent of this one
  shuts_down :
      (w : World) → Step fuel w (with_replay w (record w.replay { replay_timeout_token = true }))
  times_out :
      (w : World) → w.replay.timeout_runs ≡ true → Step fuel w (with_replay w (timeout w.replay))
  timeout_ends :
      (w : World)
      → w.replay.replay_timeout_token ≡ true
      → Step fuel w (with_replay w (record w.replay { timeout_runs = false }))
  stops :
      (w : World) (last : ℕ)
      → w.replay.stage ≡ no_writers_for_a_while last
      → w.replay.replay_timeout_token ≡ true
      → Step fuel w (with_replay w (stop_accepting w.replay))
  resumes :
      (w : World) (slept : Bool) (r : Replay)
      → resume w.replay slept ≡ some r
      → Step fuel w (with_replay w r)
  saved : (w : World) → w.replay.stage ≡ saving → Step fuel w (with_replay w (end_saving w.replay))
  begins :
      (w : World) (t : ConnectionType) (r : Replay)
      → begin_connection w.replay t ≡ some (ok tt, r)
      → Step fuel w (joined w t r)
  refused :
      (w : World) (t : ConnectionType) (e : ConnectionError) (r : Replay)
      → begin_connection w.replay t ≡ some (err e, r)
      → Step fuel w (with_replay w r)
  merges :
      (w : World) (m : ReplayMerger)
      → 0 < w.writers
      → Merges fuel w.replay.merger m
      → Step fuel w (with_replay w (record w.replay { merger = m }))
  ends :
      (w : World) (t : ConnectionType) (r : Replay)
      → 0 < handled w t
      → end_connection w.replay t ≡ some r
      → Step fuel w (left w t r)

pub data Reach (fuel : ℕ) (start : World) : World → Type 0 where
  here : Reach fuel start start
  next : {w w' : World} → Reach fuel start w → Step fuel w w' → Reach fuel start w'

-- A replay that was just built.
abbrev pub born : ℕ → ReplayMerger → World
born id merger = record { replay = new id merger; writers = 0; readers = 0 }
