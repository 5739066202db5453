-- ===== src/Engine.antt =====
-- The engine that writes and reads the payload of a backup (dbs/engine).
pub mod Frames
pub mod Kind
pub mod Json
pub mod Payload
pub mod Pipeline
