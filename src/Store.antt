-- ===== src/Store.antt =====
-- src/memhub/persistence: the schema, the transactions and the repositories.
pub mod Tables
pub mod Tx
pub mod Guarantee
pub mod Invariant
pub mod Permanence
pub mod Race
pub mod Register
pub mod Audit
pub mod Memories
pub mod Dedup
pub mod Attestation
pub mod Retirement
pub mod Outbox
pub mod Projects
pub mod Search
pub mod Lineage
pub mod Found
pub mod Reports
pub mod Coverage
