-- ===== src/Container/Rs.antt =====
-- The Reed-Solomon layer, dbs/container/rs.py.
pub mod Sizes
pub mod Field
pub mod Table
pub mod Parity
pub mod Encode
pub mod Decode
pub mod RoundTrip
pub mod Repair
pub mod Restore
