-- ===== src/Schedule.antt =====
-- The coupon schedule of a new bond, checked by the frontend and by the API.
pub mod Seconds
pub mod Validators
pub mod Agreement
mod Tests
