-- ===== src/Oracle.antt =====
-- Reports, challenges and providers: api/src/oracle/oracle.service.ts and its manifests.
pub mod Types
pub mod Manifest
pub mod Reports
pub mod Calls
pub mod Eligibility
pub mod Submission
pub mod Monitoring
pub mod Alerts
mod Tests
