-- ===== src/Container.antt =====
-- The container format, dbs/container/.
pub mod Rs
pub mod Stream
pub mod Format
pub mod Blocks
