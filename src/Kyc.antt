-- ===== src/Kyc.antt =====
-- Know-your-customer state: api/src/common/services/kyc-store.service.ts,
-- api/src/auth/kyc.service.ts and api/src/common/interfaces/authenticated-request.interface.ts.
pub mod Types
pub mod Store
pub mod Service
pub mod History
pub mod Recovery
pub mod Cache
pub mod Eligibility
pub mod Trail
mod Tests
