-- ===== src/Connections.antt =====
-- backend/internal/connection: saving, rotating and disabling connections to providers.
pub mod Errors
pub mod Lifecycle
pub mod Disabled
pub mod Rotated
pub mod Validation
pub mod Preview
