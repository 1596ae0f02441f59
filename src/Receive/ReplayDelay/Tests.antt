-- ===== src/Receive/ReplayDelay/Tests.antt =====
-- Witnesses for the delay of a replay.
use faf_rust_replayserver.Base.{◌≡◌, refl, [], ◌∷◌, arith}
use faf_rust_replayserver.Util.F64.{nearest, rounded, as_secs, doublings}
use faf_rust_replayserver.Receive.ReplayDelay
use faf_rust_replayserver.Receive.ReplayDelay.{PositionHistory}
use faf_rust_replayserver.Receive.ReplayDelay.Laws.{Ready, Delays, push_and_get_delayed-Delays}

-- A history of two positions, which is full.
abbrev history : PositionHistory
history = record { sleep_s = 1; history_size = 2; queue = 3 ∷ 5 ∷ [] }

history-Ready : Ready history 2 5
history-Ready = record {
  rising = (omega arith, (omega arith, tt), (omega arith, tt, tt));
  fits = omega arith;
  room = omega arith;
  last = (omega arith, (omega arith, tt));
  behind = omega arith;
}

push_and_get_delayed-Delays_example :
    Delays history 2 9 (ReplayDelay.push_and_get_delayed history 9)
push_and_get_delayed-Delays_example =
    push_and_get_delayed-Delays history 2 5 9 history-Ready (omega arith)

-- Five minutes and one second, and 1.05 seconds and 0.15 seconds, which are not exact.
size_of_five_minutes : ReplayDelay.history_size 300_000_000_000 1_000_000_000 ≡ 301
unfolding ReplayDelay.history_size ReplayDelay.ceil_as_usize rounded as_secs nearest doublings
size_of_five_minutes = refl

size_of_seven_cycles : ReplayDelay.history_size 1_050_000_000 150_000_000 ≡ 9
unfolding ReplayDelay.history_size ReplayDelay.ceil_as_usize rounded as_secs nearest doublings
size_of_seven_cycles = refl
