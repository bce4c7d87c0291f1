-- ===== src/Services/Forget.antt =====
-- src/memhub/services/memories.py: `forget`.
use mcp_shared_memory_hub.Prelude.{ℕ, Bool, true, false, Option, none, Text, if◌then◌else◌}
use mcp_shared_memory_hub.Domain.Errors.{memory_not_found}
use mcp_shared_memory_hub.Domain.Models.{ForgetOutcome, forgotten, already_forgotten}
use mcp_shared_memory_hub.Store.Tables.{AuditAction, AuditOutcome}
use mcp_shared_memory_hub.Store.Tx.{Tx, ◌>>=◌, ◌>>◌, pure, raise}
use mcp_shared_memory_hub.Store.Audit.{record_event}
use mcp_shared_memory_hub.Store.Retirement

abbrev pub known_or_missing : Bool → Tx (Unit {0})
known_or_missing true = pure tt
known_or_missing false = raise memory_not_found

-- The answer names the memory of the request, and is not repeated here.
unfoldable pub forget : ℕ → ℕ → Text → Option Text → Tx ForgetOutcome
forget project_id memory_id author_client request_id = do
  known ← Retirement.exists project_id memory_id
  known_or_missing known
  removed ← Retirement.forget project_id memory_id
  record_event AuditAction.forget (if removed then AuditOutcome.ok else AuditOutcome.rejected)
      author_client project_id memory_id none request_id
  pure (if removed then forgotten else already_forgotten)
