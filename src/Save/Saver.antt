-- ===== src/Save/Saver.antt =====
-- replay/save/saver.rs: `InnerReplaySaver`. `none` is a panic.
pub mod Laws
use faf_rust_replayserver.Base.{
  Bytes, ℕ, ◌+◌, Bool, true, false, not, List, [], ◌∷◌, Option, none, some, ◌==◌, if◌then◌else◌,
  ◌>>=◌,
}
use faf_rust_replayserver.Util.ChunkedBuf.{ChunkedBuf}
use faf_rust_replayserver.Streams.ReplayHeader.{ReplayHeader}
use faf_rust_replayserver.Streams.MergedReplay.{MergedReplay, header_len, as_chunked}
use faf_rust_replayserver.Save.Directory.{
  Path', SavedReplayDirectory, Files, Touched, io_error, opened, touch_and_return_file,
}
use faf_rust_replayserver.Save.JsonHeader.{Queries, ReplayJsonHeader, from_id_and_db}
use faf_rust_replayserver.Save.Writer
use faf_rust_replayserver.Save.Writer.{Output, Written, complete, unfinished, write_replay_file}

pub record InnerReplaySaver : Type 0 where
  pub db : Queries
  pub save_dir : SavedReplayDirectory
  pub compression_level : ℕ

-- The code that is called, and the time of the call. The parser of the body gets a reader, which is
-- a buffer and a position in it.
pub record Calls : Type 0 where
  pub output : Output
  pub to_string : ReplayJsonHeader → Option Bytes
  pub parse_body_ticks : ChunkedBuf → ℕ → Option ℕ
  pub now : ℕ

unfoldable pub count_ticks : Calls → MergedReplay → Option ℕ
count_ticks calls replay =
    if not (header_len replay == 0)
    then calls.parse_body_ticks (as_chunked replay) (header_len replay)
    else none

-- Whether the replay was saved, how much `SAVED_REPLAYS` (metrics.rs) rises, and the files, with the
-- one that was written.
pub record Saved : Type 0 where
  pub replay_saved : Bool
  pub saved_replays : ℕ
  pub files : Files
  pub file : Option (Path' × Bytes)

abbrev pub not_saved : Files → Saved
not_saved fs = record { replay_saved = false; saved_replays = 0; files = fs; file = none }

-- The result of the write. Without an end of the copy there is none.
unfoldable pub after_write : Files → Path' → Option Written → Option Saved
after_write fs target none = none
after_write fs target (some Writer.io_error) = some (not_saved fs)
after_write fs target (some unfinished) = none
after_write fs target (some (complete content)) =
    some
      (record { replay_saved = true; saved_replays = 1; files = fs; file = some (target, content) })

unfoldable pub write_to :
    InnerReplaySaver
    → Calls
    → Files
    → MergedReplay
    → ReplayJsonHeader
    → Option Touched
    → Option Saved
write_to me calls fs replay json_header none = none
write_to me calls fs replay json_header (some io_error) = some (not_saved fs)
write_to me calls fs replay json_header (some (opened target fs')) =
    after_write fs' target
      (write_replay_file calls.output (calls.to_string json_header) replay me.compression_level)

unfoldable pub save_with :
    InnerReplaySaver → Calls → Files → MergedReplay → ℕ → Option ReplayJsonHeader → Option Saved
save_with me calls fs replay id none = some (not_saved fs)
save_with me calls fs replay id (some json_header) =
    write_to me calls fs replay json_header (touch_and_return_file me.save_dir fs id)

unfoldable pub save_replay_to_disk :
    InnerReplaySaver → Calls → Files → MergedReplay → ℕ → Option Saved
save_replay_to_disk me calls fs replay id = elim replay.header [
  | none ↦ some (not_saved fs)
  | some h ↦ save_with me calls fs replay id (from_id_and_db me.db calls.now id)
]

-- What `update_game_stats` binds.
pub record GameUpdate : Type 0 where
  pub replay_ticks : Option ℕ
  pub replay_available : Bool
  pub id : ℕ

unfoldable pub save_replay :
    InnerReplaySaver → Calls → Files → MergedReplay → ℕ → Option (Saved × GameUpdate)
save_replay me calls fs replay id = do
  saved ← save_replay_to_disk me calls fs replay id
  some (
    saved,
    record {
      replay_ticks = count_ticks calls replay;
      replay_available = saved.replay_saved;
      id = id;
    },
  )
