-- ===== src/Streams/MergedReplay.antt =====
-- replay/streams/merged_replay.rs: the canonical replay, and the reader that sends it. The wakers in
-- `read_event` are numbers of tasks (util/event.rs). `debug_assert!` counts as a panic.
pub mod Laws
pub mod Read
use faf_rust_replayserver.Base.{
  Bytes, ℕ, ◌+◌, ◌-◌, min, Bool, true, false, not, List, [], ◌∷◌, ◌++◌, Option, none, some, ltb,
  leb, ◌==◌, if◌then◌else◌, ◌>>=◌, ◌>>◌, assert, length, take, drop,
}
use faf_rust_replayserver.Util.BufDeque
use faf_rust_replayserver.Util.BufDeque.{BufDeque}
use faf_rust_replayserver.Util.ChunkedBuf.{ChunkedBuf, iter_chunks}
use faf_rust_replayserver.Util.Event.{Event, new as no_wakers, wait, notify}
use faf_rust_replayserver.Streams.ReplayHeader.{ReplayHeader}
use faf_rust_replayserver.Streams.WriterReplay.{WriterReplay}

pub record MergedReplay : Type 0 where
  pub content : BufDeque
  pub header : Option ReplayHeader
  pub delayed_data_len : ℕ
  pub finished : Bool
  pub read_event : Event

unfoldable pub new : MergedReplay
new = record {
  content = BufDeque.new;
  header = none;
  delayed_data_len = 0;
  finished = false;
  read_event = no_wakers;
}

abbrev pub data_len : MergedReplay → ℕ
data_len m = BufDeque.len m.content

abbrev pub header_bytes : Option ReplayHeader → Bytes
header_bytes none = []
header_bytes (some h) = h.bytes

abbrev pub header_len : MergedReplay → ℕ
header_len m = length (header_bytes m.header)

-- `len` of `impl ChunkedBuf for MergedReplay`
abbrev pub len : MergedReplay → ℕ
len m = m.delayed_data_len + header_len m

-- `get_chunk` of `impl ChunkedBuf for MergedReplay`. `self.delayed_data_len - start` underflows, which
-- is a panic, when the position lies beyond the delayed data.
unfoldable pub get_chunk : MergedReplay → ℕ → Option Bytes
get_chunk m start =
    if ltb start (header_len m)
    then some (drop start (header_bytes m.header))
    else (let pos = start - header_len m in
        do
          assert (leb pos m.delayed_data_len)
          chunk ← BufDeque.get_chunk m.content pos
          some (take (min (length chunk) (m.delayed_data_len - pos)) chunk))

abbrev pub as_chunked : MergedReplay → ChunkedBuf
as_chunked m = record { get_chunk = get_chunk m; len = len m }

-- `notify_read_event`, with the tasks woken by `read_event.notify()`
unfoldable pub notify_read_event : MergedReplay → MergedReplay × List ℕ
notify_read_event m = let (e, woken) = notify m.read_event in (record m { read_event = e }, woken)

unfoldable pub add_header : MergedReplay → ReplayHeader → Option (MergedReplay × List ℕ)
add_header m h = do
  assert (not m.finished)
  assert (data_len m == 0)
  some (notify_read_event (record m { header = some h }))

unfoldable pub wait_for_read_event : MergedReplay → ℕ → MergedReplay
wait_for_read_event m task = record m { read_event = wait m.read_event task }

-- The loop of `add_data`.
unfoldable pub write_chunks : BufDeque → List Bytes → Option BufDeque
write_chunks d [] = some d
write_chunks d (c ∷ cs) = do d' ← BufDeque.write_all d c; write_chunks d' cs

unfoldable pub add_data : MergedReplay → WriterReplay → ℕ → Option MergedReplay
add_data m writer until = do
  assert (not m.finished)
  assert (leb until (BufDeque.len writer.content))
  chunks ← iter_chunks (BufDeque.as_chunked writer.content) (BufDeque.len m.content) until
  content ← write_chunks m.content chunks
  some (record m { content = content })

unfoldable pub advance_delayed_data : MergedReplay → ℕ → Option (MergedReplay × List ℕ)
advance_delayed_data m len = do
  assert (leb len (BufDeque.len m.content))
  assert (not m.finished)
  some (notify_read_event (record m { delayed_data_len = len }))

unfoldable pub finish : MergedReplay → MergedReplay × List ℕ
finish m = notify_read_event (record m { finished = true })

-- `MReplayReader::poll_read` by `task`, with `room` bytes left in its buffer: what it copies (`none`
-- is `Poll::Pending`), the new position and the replay.
pub record Polled : Type 0 where
  pub ready : Option Bytes
  pub position : ℕ
  pub replay : MergedReplay

unfoldable pub poll_read : MergedReplay → ℕ → ℕ → ℕ → Option Polled
poll_read m position task room =
    if leb (len m) position
    then (if m.finished
        then some (record { ready = some []; position = position; replay = m })
        else some
            (record { ready = none; position = position; replay = wait_for_read_event m task }))
    else (do
      chunk ← get_chunk m position
      let copyable = min (length chunk) room
      some (record {
        ready = some (take copyable chunk);
        position = position + copyable;
        replay = m;
      }))
