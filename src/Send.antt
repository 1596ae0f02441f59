-- ===== src/Send.antt =====
-- replay/send/sender.rs, and the copy of the canonical replay that replay/save/writer.rs makes in the
-- same way. `tokio::io::copy` polls the reader and writes what each poll gives, until a poll gives
-- nothing more; the polls see the states that the replay has at their times.
pub mod Laws
pub mod Finished
mod Tests
use faf_rust_replayserver.Base.{
  Bytes, ℕ, Bool, true, false, List, [], ◌∷◌, ◌++◌, Option, none, some, ◌>>=◌,
}
use faf_rust_replayserver.Util.Timeout.{Future, cancellable}
use faf_rust_replayserver.Streams.MergedReplay.{MergedReplay, Polled, poll_read}

-- What is written, and whether the copy is over.
unfoldable pub written : Option Bytes → Option (Bytes × Bool) → Option (Bytes × Bool)
written none rest = rest
written (some []) rest = some ([], true)
written (some (b ∷ bs)) rest = do (more, done) ← rest; some (b ∷ bs ++ more, done)

unfoldable pub copy : ℕ → ℕ → ℕ → List MergedReplay → Option (Bytes × Bool)
copy task room position [] = some ([], false)
copy task room position (m ∷ ms) = do
  p ← poll_read m position task room
  written p.ready (copy task room p.position ms)

-- `send_replay_to_connection`, as long as the connection takes what is written.
unfoldable pub send_replay_to_connection : ℕ → ℕ → List MergedReplay → Option (Bytes × Bool)
send_replay_to_connection task room ms = copy task room 0 ms

-- `handle_connection`: whether the sending ended, or was cancelled.
unfoldable pub handle_connection {ℓ} :
    {A : Type ℓ} → Bool → Future A → Future (Unit {0}) → Future (Option A)
handle_connection tie sending token = cancellable tie sending token
