-- ===== src/Inventory.antt =====
-- backend/internal/inventory: refresh requests, scans and their publication.
pub mod Runs
pub mod Errors
pub mod Enqueue
pub mod Authority
pub mod Publish
pub mod Scan
