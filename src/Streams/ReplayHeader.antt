-- ===== src/Streams/ReplayHeader.antt =====
-- replay/streams/header.rs: the header as data. Its parser is in `Streams.HeaderParser`.
use faf_rust_replayserver.Base.{Bytes}

pub record ReplayHeader : Type 0 where
  pub bytes : Bytes
