-- ===== src/Server.antt =====
-- The connections of the server: which thread and which replay they go to, and the life of a
-- replay.
pub mod Assign
pub mod Dispatch
pub mod Errors
pub mod Connection
pub mod Header
pub mod Life
pub mod Accept
pub mod Websocket
pub mod Tests
