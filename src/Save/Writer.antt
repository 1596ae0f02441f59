-- ===== src/Save/Writer.antt =====
-- replay/save/writer.rs: `write_replay_file`. The encoder is a function of its level and of what it is
-- given until its shutdown; the file takes what it is written, or does not.
pub mod Laws
use faf_rust_replayserver.Base.{
  Bytes, ℕ, Bool, true, false, List, [], ◌∷◌, ◌++◌, Option, none, some, if◌then◌else◌, ◌>>=◌,
  replicate,
}
use faf_rust_replayserver.Streams.MergedReplay.{MergedReplay}
use faf_rust_replayserver.Send.{copy}

-- The code that is called: `serde_json::to_string` of the header, the encoder, and whether a file
-- takes some content; and the buffer and the polls of the copy.
pub record Output : Type 0 where
  pub encode : ℕ → Bytes → Bytes
  pub takes : Bytes → Bool
  pub room : ℕ
  pub polls : ℕ

pub data Written : Type 0 where
  complete : Bytes → Written
  io_error unfinished : Written

abbrev pub newline : ℕ
newline = 10

unfoldable pub write_all : Output → Bytes → Written
write_all to content = if to.takes content then complete content else io_error

-- The end of the copy, with the bytes that came before it. A copy that is not over still waits.
unfoldable pub encoded : Output → Bytes → ℕ → Bytes × Bool → Written
encoded to json level (bytes, true) = write_all to (json ++ newline ∷ to.encode level bytes)
encoded to json level (bytes, false) = unfinished

-- `json_header` is the text of the header, if there is one. A panic is `none`.
unfoldable pub write_replay_file : Output → Option Bytes → MergedReplay → ℕ → Option Written
write_replay_file to none replay compression_level = some io_error
write_replay_file to (some json_header) replay compression_level = do
  copied ← copy 0 to.room 0 (replicate to.polls replay)
  some (encoded to json_header compression_level copied)
