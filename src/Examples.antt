-- ===== src/Examples.antt =====
-- Concrete runs of the modelled code.
pub mod Rs
pub mod Streams
pub mod Readers
pub mod Headers
pub mod Programs
pub mod Trails
pub mod Programs2
pub mod Payloads
pub mod Channels
