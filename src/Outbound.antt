-- ===== src/Outbound.antt =====
-- backend/internal/platform/outbound: the shared call budget and the provider's Retry-After.
pub mod Budget
pub mod Admission
pub mod Retry
pub mod Dial
