-- ===== src/Streams/WriterReplay.antt =====
-- replay/streams/writer_replay.rs: a replay as one connection sends it. A method that changes it
-- returns the new replay; a panic is `none`. `debug_assert!` counts as a panic.
pub mod Laws
use faf_rust_replayserver.Base.{
  Bytes, ℕ, ◌-◌, ◌^◌, Bool, true, false, Option, none, some, leb, ◌>>=◌, ◌>>◌, assert,
}
use faf_rust_replayserver.Util.BufDeque
use faf_rust_replayserver.Util.BufDeque.{BufDeque}
use faf_rust_replayserver.Streams.ReplayHeader.{ReplayHeader}

pub record WriterReplay : Type 0 where
  pub header : Option ReplayHeader
  pub content : BufDeque
  pub delayed_data_len : ℕ
  pub finished : Bool

unfoldable pub new : WriterReplay
new = record { header = none; content = BufDeque.new; delayed_data_len = 0; finished = false }

abbrev pub data_len : WriterReplay → ℕ
data_len w = BufDeque.len w.content

unfoldable pub add_header : WriterReplay → ReplayHeader → WriterReplay
add_header w h = record w { header = some h }

-- The header, and the replay without it.
unfoldable pub take_header : WriterReplay → Option (ReplayHeader × WriterReplay)
take_header w = do h ← w.header; some (h, record w { header = none })

unfoldable pub add_data : WriterReplay → Bytes → Option WriterReplay
add_data w buf = do
  content ← BufDeque.write_all w.content buf
  some (record w { content = content })

unfoldable pub set_delayed_data_len : WriterReplay → ℕ → Option WriterReplay
set_delayed_data_len w new = do
  assert (leb w.delayed_data_len new)
  some (record w { delayed_data_len = new })

unfoldable pub discard : WriterReplay → ℕ → WriterReplay
discard w until = record w { content = BufDeque.discard w.content until }

-- `usize::MAX`
abbrev pub usize_max : ℕ
usize_max = 2 ^ 64 - 1

unfoldable pub discard_all : WriterReplay → WriterReplay
discard_all w = record w { content = BufDeque.discard w.content usize_max }

unfoldable pub finish : WriterReplay → WriterReplay
finish w = record w { finished = true }
