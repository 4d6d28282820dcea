-- ===== src/Bonds.antt =====
-- Bonds: api/src/bonds/bonds.service.ts on the holder index, the oracle and the nonce counters.
pub mod Types
pub mod Reads
pub mod Calls
pub mod Export
pub mod Distribution
pub mod Checksum
pub mod Views
mod Tests
