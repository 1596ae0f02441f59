-- ===== src/Receive.antt =====
-- replay/receive/: merging the replays of many writers into one.
pub mod Sets
pub mod State
pub mod Place
pub mod Stalemate
pub mod Quorum
pub mod Strategy
pub mod ReplayDelay
pub mod Merger
pub mod Examples
pub mod Tests
