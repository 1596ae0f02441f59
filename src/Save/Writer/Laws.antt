-- ===== src/Save/Writer/Laws.antt =====
-- `write_replay_file`, and the reading of its file.
use faf_rust_replayserver.Base.{
  Bytes, ℕ, ◌≤◌, ◌<◌, ◌≡◌, refl, ap, ◌∙◌, true, ◌∷◌, ◌++◌, Option, some, arith, ◌>>=◌, length, drop,
}
use faf_rust_replayserver.Streams.MergedReplay.{MergedReplay}
use faf_rust_replayserver.Streams.MergedReplay.Laws.{Holds}
use faf_rust_replayserver.Streams.MergedReplay.Read.{visible}
use faf_rust_replayserver.Send.Finished.{copy-finished}
use faf_rust_replayserver.Server.Header.{split_once}
use faf_rust_replayserver.Server.Header.Laws.{Free, split_once-Free}
use faf_rust_replayserver.Save.Writer.{
  Output, complete, newline, write_all, encoded, write_replay_file,
}

-- There is room in the buffer, and the copy is polled often enough.
abbrev pub Enough : Output → MergedReplay → Bytes → Type 0
Enough to m c = (1 ≤ to.room) × (length (visible m c) < to.polls)

-- The content of the file.
abbrev pub content : Output → Bytes → ℕ → MergedReplay → Bytes → Bytes
content to json level m c = json ++ newline ∷ to.encode level (visible m c)

pub write_replay_file-content :
    (to : Output) (json : Bytes) (level : ℕ) (m : MergedReplay) (c : Bytes)
    → Holds m c
    → m.finished ≡ true
    → Enough to m c
    → write_replay_file to (some json) m level ≡ some (write_all to (content to json level m c))
unfolding write_replay_file encoded drop
write_replay_file-content to json level m c h over (room, polls) =
    rw (copy-finished 0 to.room room m c h over to.polls 0 (omega arith) (omega arith)) refl

-- A reader of the file: the header is the first line, and the rest is decoded.
abbrev pub read_back : (Bytes → Option Bytes) → Bytes → Option (Bytes × Bytes)
read_back decode file = do
  (json, rest) ← split_once newline file
  bytes ← decode rest
  some (json, bytes)

-- The file that is written for a finished replay can be read back: its first line is the header,
-- and decoding what follows gives the header of the replay and all of its delayed data. The text
-- of the header has no newline, the file takes the content, and the decoder inverts the encoder.
pub write_replay_file-read_back :
    (to : Output) (decode : Bytes → Option Bytes) (json : Bytes) (level : ℕ) (m : MergedReplay)
    (c : Bytes)
    → Holds m c
    → m.finished ≡ true
    → Enough to m c
    → Free newline json
    → to.takes (content to json level m c) ≡ true
    → ((bs : Bytes) → decode (to.encode level bs) ≡ some bs)
    → (file : Bytes) × (write_replay_file to (some json) m level ≡ some (complete file))
      × (read_back decode file ≡ some (json, visible m c))
unfolding write_all
write_replay_file-read_back to decode json level m c h over enough one_line takes inverse = (
  content to json level m c,
  write_replay_file-content to json level m c h over enough ∙ ap some (rw takes refl),
  rw (split_once-Free newline json (to.encode level (visible m c)) one_line)
      (rw (inverse (visible m c)) refl),
)
