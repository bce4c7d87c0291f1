-- ===== src/Services/Revise.antt =====
-- src/memhub/services/memories.py: `revise`.
pub mod Found
pub mod Conflict
pub mod Success
pub mod Merged
use mcp_shared_memory_hub.Prelude.{ℕ, false, Option, none, some, [], ◌∷◌}
use mcp_shared_memory_hub.Domain.Errors
use mcp_shared_memory_hub.Domain.Errors.{Result, ok}
use mcp_shared_memory_hub.Domain.Normalize.{hash_version, content_hash}
use mcp_shared_memory_hub.Domain.Models.{
  ReviseResult, revise_succeeded, revise_replayed, revise_conflicted,
}
use mcp_shared_memory_hub.Domain.Validation.{validate_content, validate_tags}
use mcp_shared_memory_hub.Store.Tables.{Memory, Operation, AuditAction, AuditOutcome}
use mcp_shared_memory_hub.Store.Tx.{Tx, ◌>>=◌, ◌>>◌, pure, lift}
use mcp_shared_memory_hub.Store.Audit.{record_event}
use mcp_shared_memory_hub.Store.Memories.{Edit, get, compare_and_set}
use mcp_shared_memory_hub.Services.Idempotency.{Json, Payload, ClaimOutcome, claimed, replayed}
use mcp_shared_memory_hub.Services.Memories.{
  Env, ReviseRequest, to_view, or_missing, replay_memory, enqueue_for, complete_for, claim_for,
}

-- the validation at the head of `revise`
unfoldable pub revise_edit : Env → ReviseRequest → Result Edit
revise_edit env request = Errors.◌>>=◌ (validate_content request.content) λ content.
    Errors.◌>>=◌ (validate_tags env.py request.tags) λ tags. ok (record {
      content = content;
      content_hash = content_hash env.py content;
      hash_version = hash_version;
      tags = tags;
      change_reason = request.change_reason;
      author_client = request.author_client;
      author_kind = request.author_kind;
      source = request.source;
    })

abbrev pub revise_payload : ℕ → ℕ → Edit → Payload
revise_payload memory_id expected edit =
    ("memory_id", Json.uuid memory_id)
    ∷ ("expected_revision", Json.num expected)
    ∷ ("content", Json.str edit.content)
    ∷ ("tags", Json.strs edit.tags)
    ∷ []

-- The branch of a lost compare-and-set. The session still holds the Memory that it read before: the row
-- is the one that was read, so what it holds is what the query finds.
unfoldable pub report_conflict : ℕ → ℕ → ReviseRequest → Tx ReviseResult
report_conflict project_id memory_id request = do
  row ← get project_id memory_id false
  current ← or_missing row
  record_event AuditAction.revise AuditOutcome.conflict request.author_client project_id memory_id
      (some current.0.current_revision_no) request.request_id
  pure (revise_conflicted (to_view current) request.expected_revision)

-- The branch of a compare-and-set that was won. The query finds the new revision, but its Memory is the
-- object that the session holds since `existing` was read, which the textual UPDATE has not refreshed.
unfoldable pub report_success : ℕ → ℕ → ReviseRequest → Memory → ℕ → Tx ReviseResult
report_success project_id memory_id request held new_revision = do
  enqueue_for project_id memory_id new_revision request.embedding_model
  record_event AuditAction.revise AuditOutcome.ok request.author_client project_id memory_id
      (some new_revision) request.request_id
  complete_for project_id request.client_request_id memory_id new_revision
  row ← get project_id memory_id false
  updated ← or_missing row
  pure (revise_succeeded (to_view (held, updated.1)) request.expected_revision)

unfoldable pub report : ℕ → ℕ → ReviseRequest → Memory → Option ℕ → Tx ReviseResult
report project_id memory_id request held none = report_conflict project_id memory_id request
report project_id memory_id request held (some new_revision) =
    report_success project_id memory_id request held new_revision

unfoldable pub revise_claimed : ℕ → ℕ → Edit → ReviseRequest → ClaimOutcome → Tx ReviseResult
revise_claimed project_id memory_id edit request (replayed response) = do
  memory ← replay_memory project_id response
  pure (revise_replayed memory)
revise_claimed project_id memory_id edit request claimed = do
  row ← get project_id memory_id false
  existing ← or_missing row
  new_revision ← compare_and_set project_id memory_id request.expected_revision edit
  report project_id memory_id request existing.0 new_revision

unfoldable pub revise : Env → ℕ → ℕ → ReviseRequest → Tx ReviseResult
revise env project_id memory_id request = do
  edit ← lift (revise_edit env request)
  outcome ←
      claim_for env project_id request.client_request_id Operation.revise
        (revise_payload memory_id request.expected_revision edit)
  revise_claimed project_id memory_id edit request outcome
