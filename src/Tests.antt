-- ===== src/Tests.antt =====
-- Test data, and concrete runs of the theorems.
pub mod Data
pub mod Domain
pub mod Services
pub mod Retrieval
pub mod Lineage
pub mod Records
pub mod Hybrid
pub mod Mcp
pub mod Search
pub mod Projects
pub mod Embeddings
pub mod Context
pub mod Retry
pub mod Revise
