-- ===== src/Idempotency.antt =====
-- Idempotency keys: api/src/common/services/idempotency.service.ts and its interceptor.
pub mod Service
pub mod Interceptor
pub mod Once
pub mod Retries
mod Tests
