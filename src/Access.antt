-- ===== src/Access.antt =====
-- Who may act: the signed admin intents and the login challenges of the API.
pub mod Intent
pub mod Replay
pub mod Challenge
pub mod Login
mod Tests
