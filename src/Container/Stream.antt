-- ===== src/Container/Stream.antt =====
-- The streamed container, format version 2 (dbs/container/stream.py).
pub mod Layout
pub mod Schedule
pub mod Burst
pub mod Place
pub mod Trailer
pub mod TrailerTrip
pub mod Writer
pub mod Reader
pub mod Header
