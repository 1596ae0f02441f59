-- ===== src/Receive/ReplayDelay.antt =====
-- replay/receive/replay_delay.rs: the history of positions of a replay, and the loop that moves its
-- delayed position. Durations are numbers of nanoseconds.
pub mod Laws
mod Tests
use faf_rust_replayserver.Base.{
  ℕ, ◌+◌, ◌-◌, ◌*◌, ◌/◌, ◌%◌, ◌^◌, min, Bool, true, false, not, ◌&&◌, List, [], ◌∷◌, ◌++◌, Option,
  none, some, ltb, ◌==◌, if◌then◌else◌, ◌>>=◌, length, drop,
}
use faf_rust_replayserver.Util.F64.{rounded, as_secs}
use faf_rust_replayserver.Streams.WriterReplay
use faf_rust_replayserver.Streams.WriterReplay.{WriterReplay}

pub record PositionHistory : Type 0 where
  pub sleep_s : ℕ
  pub history_size : ℕ
  pub queue : List ℕ

-- `ceil() as usize + 1`: what is too large becomes the greatest `usize`, and its successor is 0.
unfoldable pub ceil_as_usize : ℕ × ℕ → ℕ
ceil_as_usize (m, d) = min ((m + (d - 1)) / d) (2 ^ 64 - 1)

-- A delay divided by no time is infinite, and no time divided by no time is no number, which `as`
-- makes 0.
unfoldable pub history_size : ℕ → ℕ → ℕ
history_size delay_s sleep_s =
    let (a, b) = as_secs delay_s in
    let (x, y) = as_secs sleep_s in
    let cycles = ceil_as_usize (rounded (a * y) (b * x)) in
    if x == 0 then (if a == 0 then 1 else 0) else (cycles + 1) % 2 ^ 64

unfoldable pub new : ℕ → ℕ → PositionHistory
new delay_s sleep_s = record {
  sleep_s = sleep_s;
  history_size = history_size delay_s sleep_s;
  queue = [];
}

-- `front().unwrap()`
abbrev pub front : List ℕ → Option ℕ
front [] = none
front (x ∷ xs) = some x

unfoldable pub push_and_get_delayed : PositionHistory → ℕ → Option (ℕ × PositionHistory)
push_and_get_delayed h current_len =
    let pushed = h.queue ++ current_len ∷ [] in
    let queue = if ltb h.history_size (length pushed) then drop 1 pushed else pushed in
    do delayed ← front queue; some (delayed, record h { queue = queue })

-- What `update_replay_timestamp` keeps from one turn of its loop to the next.
pub record Timestamps : Type 0 where
  pub pos_queue : PositionHistory
  pub prev_current : ℕ
  pub prev_delayed : ℕ

unfoldable pub start_timestamps : ℕ → ℕ → Timestamps
start_timestamps delay_s sleep_s = record {
  pos_queue = new delay_s sleep_s;
  prev_current = 0;
  prev_delayed = 0;
}

-- A turn of the loop: the replay, and whether `on_update` is called.
unfoldable pub update_replay_timestamp :
    Timestamps → WriterReplay → Option (Timestamps × (WriterReplay × Bool))
update_replay_timestamp t replay =
    let current = WriterReplay.data_len replay in
    do
      (delayed, pos_queue) ← push_and_get_delayed t.pos_queue current
      replay' ← WriterReplay.set_delayed_data_len replay delayed
      some (
        record { pos_queue = pos_queue; prev_current = current; prev_delayed = delayed },
        (replay', not (current == t.prev_current && delayed == t.prev_delayed)),
      )

unfoldable pub set_final_replay_timestamp : WriterReplay → Option WriterReplay
set_final_replay_timestamp replay =
    WriterReplay.set_delayed_data_len replay (WriterReplay.data_len replay)
