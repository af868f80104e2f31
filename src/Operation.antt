-- ===== src/Operation.antt =====
-- backend/internal/operation: reviewed intents, durable operation state, reservations, dispatch.
pub mod Machine
pub mod Errors
pub mod Intent
pub mod Receipt
pub mod Records
pub mod Invariant
pub mod Access
pub mod Control
pub mod Review
pub mod Accept
pub mod Dispatch
pub mod Expiry
pub mod Soundness
pub mod Handlers
pub mod Controls
pub mod Admission
pub mod Fresh
pub mod Upkeep
pub mod System
pub mod Submission
pub mod Finality
pub mod Reads
pub mod Replay
pub mod Expired
