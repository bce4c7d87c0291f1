-- ===== src/Store/Audit.antt =====
-- src/memhub/persistence/repositories/audit.py. The free-form `detail` of an event is not modelled.
use mcp_shared_memory_hub.Prelude.{ℕ, Option, ◌∷◌, Text}
use mcp_shared_memory_hub.Store.Tables.{AuditAction, AuditOutcome}
use mcp_shared_memory_hub.Store.Tx.{Tx, modify}

unfoldable pub record_event :
    AuditAction → AuditOutcome → Text → ℕ → ℕ → Option ℕ → Option Text → Tx (Unit {0})
record_event action outcome actor_client project_id memory_id revision_no request_id = modify λ db.
    record db {
      audit_events =
          record {
            at = db.now;
            project_id = Option.some project_id;
            memory_id = Option.some memory_id;
            revision_no = revision_no;
            action = action;
            outcome = outcome;
            actor_client = actor_client;
            request_id = request_id;
          }
          ∷ db.audit_events;
    }
