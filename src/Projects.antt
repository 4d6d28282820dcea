-- ===== src/Projects.antt =====
-- Projects: api/src/projects/projects.service.ts.
pub mod Service
pub mod Registration
mod Tests
