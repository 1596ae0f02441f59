-- ===== src/Streams.antt =====
-- replay/streams/: the replays that are written and the one that is merged.
pub mod ReplayHeader
pub mod HeaderParser
pub mod WriterReplay
pub mod MergedReplay
pub mod Tests
