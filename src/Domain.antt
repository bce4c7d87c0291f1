-- ===== src/Domain.antt =====
-- src/memhub/domain: pure types, policy and errors.
pub mod Enums
pub mod Errors
pub mod Unicode
pub mod Models
pub mod Policy
pub mod Validation
pub mod Normalize
pub mod GitRemote
