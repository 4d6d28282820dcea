-- ===== src/RateLimit.antt =====
-- Rate limits: api/src/common/guards/rate-limit.guard.ts.
pub mod Guard
pub mod Bounds
mod Tests
