-- ===== src/Util/Tests.antt =====
-- Witnesses for the buffers.
use faf_rust_replayserver.Base.{refl, ◌<◌, List, ℕ, ◌≡◌, [], ◌∷◌, some, arith}
use faf_rust_replayserver.Samples.{bytes, data_deque, data_deque-Rep}
use faf_rust_replayserver.Util.EmptyCounter
use faf_rust_replayserver.Util.EmptyCounter.{Wakeup, changed, unseen, timed_out}
use faf_rust_replayserver.Util.EmptyCounter.Laws.{Waits, wait_until_empty_for-Waits}
use faf_rust_replayserver.Util.BufDeque
use faf_rust_replayserver.Util.BufDeque.{as_chunked}
use faf_rust_replayserver.Util.BufDeque.Write.{Writes, write_all-Writes}
use faf_rust_replayserver.Util.BufDeque.Chunk.{as_chunked-Serves}
use faf_rust_replayserver.Util.ChunkedBuf.Overshoot.{common_prefix_from_to_overshoots}
use faf_rust_replayserver.Util.ChunkedBuf
use faf_rust_replayserver.Util.ChunkedBuf.{Serves}
use faf_rust_replayserver.Util.ChunkedBuf.Prefix.{Compares, common_prefix_from_to-Compares}

abbrev buffer : ChunkedBuf.ChunkedBuf
buffer = as_chunked data_deque

buffer-Serves : Serves buffer 0 bytes
buffer-Serves = as_chunked-Serves data_deque-Rep

write_all-Writes_example :
    Writes data_deque bytes (4 ∷ 5 ∷ []) (BufDeque.write_all data_deque (4 ∷ 5 ∷ []))
write_all-Writes_example = write_all-Writes data_deque bytes (4 ∷ 5 ∷ []) data_deque-Rep

as_chunked-Serves_example : Serves (as_chunked data_deque) 0 bytes
as_chunked-Serves_example = as_chunked-Serves {d = data_deque} {h = bytes} data_deque-Rep

common_prefix_from_to-Compares_example :
    Compares bytes bytes 1 2 (ChunkedBuf.common_prefix_from_to buffer buffer 1 (some 2))
unfolding ChunkedBuf.max_cmp
common_prefix_from_to-Compares_example =
    common_prefix_from_to-Compares buffer buffer 0 0 bytes bytes buffer-Serves buffer-Serves 1
      (some 2) (omega arith) (omega arith)

-- A timeout on a count of one, the end of that, a timeout before a new connection was seen, its end,
-- and a timeout on none.
abbrev wakeups : List Wakeup
wakeups =
    timed_out
    ∷ changed 0
    ∷ unseen 1
    ∷ timed_out
    ∷ changed 1
    ∷ changed 0
    ∷ timed_out
    ∷ changed 1
    ∷ []

wait_until_empty_for-Waits_example :
    Waits 1 1 wakeups (EmptyCounter.wait (record { counter = 1 }) wakeups)
wait_until_empty_for-Waits_example = wait_until_empty_for-Waits (record { counter = 1 }) wakeups

-- Two buffers that agree on three bytes, of which one is to be compared.
abbrev short : ChunkedBuf.ChunkedBuf
short = record { get_chunk = λ _. some bytes; len = 3 }

common_prefix_from_to_overshoots_example :
    (r : ℕ) × (ChunkedBuf.common_prefix_from_to short short 0 (some 1) ≡ some r) × (1 < r)
unfolding ChunkedBuf.eq_len
common_prefix_from_to_overshoots_example =
    common_prefix_from_to_overshoots short short 0 1 bytes bytes (omega arith) (omega arith)
      (omega arith) refl refl (ground arith)
