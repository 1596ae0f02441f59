-- ===== src/Database.antt =====
-- database/: what is computed from the rows that the database returns.
pub mod Queries
pub mod Mods
pub mod Tests
