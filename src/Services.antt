-- ===== src/Services.antt =====
-- src/memhub/services: one transaction for each request.
pub mod Idempotency
pub mod Memories
pub mod Remember
pub mod Revise
pub mod Forget
pub mod Steps
pub mod Requests
pub mod Speculation
pub mod WellFormed
pub mod Permanent
pub mod Retrieval
pub mod Forgotten
pub mod Replay
pub mod Projects
pub mod Search
pub mod Hybrid
pub mod Brief
pub mod Expiry
pub mod Acceptance
pub mod Retry
pub mod History
