-- ===== src/Util.antt =====
-- util/: buffers, counters, timeouts and text.
pub mod Event
pub mod EmptyCounter
pub mod ChunkedBuf
pub mod BufDeque
pub mod F64
pub mod Text
pub mod Timeout
pub mod StringMap
pub mod Tests
