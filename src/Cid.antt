-- ===== src/Cid.antt =====
-- Evidence references: api/src/common/utils/cid.util.ts.
pub mod Base58
pub mod Reference
mod Positional
pub mod Encoding
pub mod RoundTrip
mod Tests
