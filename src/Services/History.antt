-- ===== src/Services/History.antt =====
-- src/memhub/services/memories.py: `history`, the full record of a memory, retired or not.
pub mod Complete
pub mod Record
pub mod Lasting
use mcp_shared_memory_hub.Prelude.{ℕ, true}
use mcp_shared_memory_hub.Domain.Models.{MemoryHistory}
use mcp_shared_memory_hub.Store.Tx.{Tx, pure, ◌>>=◌}
use mcp_shared_memory_hub.Store.Memories.{get}
use mcp_shared_memory_hub.Store.Reports.{
  attestations, revisions, superseded_by, supersedes, audit_trail,
}
use mcp_shared_memory_hub.Services.Memories.{to_view, or_missing}

abbrev pub default_audit_limit : ℕ
default_audit_limit = 50

unfoldable pub history : ℕ → ℕ → Tx MemoryHistory
history project_id memory_id = do
  found ← get project_id memory_id true
  row ← or_missing found
  revised ← revisions memory_id
  winner ← superseded_by project_id memory_id
  losers ← supersedes project_id memory_id
  asserted ← attestations memory_id
  audit ← audit_trail memory_id default_audit_limit
  pure (record {
    memory = to_view row;
    revisions = revised;
    superseded_by = winner;
    supersedes = losers;
    attestations = asserted;
    audit = audit;
  })
