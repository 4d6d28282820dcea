-- ===== src/Incident.antt =====
-- Durable oracle incidents: api/src/oracle/oracle-incident.repository.ts and
-- api/src/oracle/interfaces/oracle-incident.interface.ts.
pub mod Types
pub mod Repository
pub mod Rows
pub mod Consistency
pub mod Detection
pub mod Invariant
pub mod Lifecycle
mod Tests
