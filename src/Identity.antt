-- ===== src/Identity.antt =====
-- backend/internal/identity: recent authentication.
pub mod Recent
pub mod Errors
pub mod Sessions
pub mod Challenges
