-- ===== src/Holders.antt =====
-- The index of bond holders: api/src/bonds/holder-store.ts and holder-index.service.ts.
pub mod Store
pub mod Index
pub mod Membership
pub mod Reconcile
pub mod Coupon
pub mod Uniqueness
mod Tests
