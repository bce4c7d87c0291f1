-- ===== src/Mcp.antt =====
-- src/memhub/mcp: the tools and resources of the server, and what a client is told.
pub mod Mapping
pub mod Schemas
pub mod Arguments
pub mod Calls
pub mod Server
pub mod Refines
pub mod Shown
pub mod Promise
pub mod Merge
