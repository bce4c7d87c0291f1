-- ===== src/Services/Remember.antt =====
-- src/memhub/services/memories.py: `remember`.
use mcp_shared_memory_hub.Prelude.{ℕ, Option, none, some, [], ◌∷◌}
use mcp_shared_memory_hub.Domain.Errors
use mcp_shared_memory_hub.Domain.Errors.{Result, ok}
use mcp_shared_memory_hub.Domain.Normalize.{hash_version, content_hash}
use mcp_shared_memory_hub.Domain.Models.{RememberResult, created, idempotent_replay}
use mcp_shared_memory_hub.Domain.Validation.{
  validate_content, validate_tags, validate_importance, resolve_expiry,
}
use mcp_shared_memory_hub.Store.Tables.{
  Memory, MemoryRevision, Operation, AuditAction, AuditOutcome,
}
use mcp_shared_memory_hub.Store.Tx.{Tx, ◌>>=◌, ◌>>◌, pure, lift, savepoint}
use mcp_shared_memory_hub.Store.Audit.{record_event}
use mcp_shared_memory_hub.Store.Memories.{Draft, create}
use mcp_shared_memory_hub.Store.Dedup.{claim_dedup_key, dedup_key_holder}
use mcp_shared_memory_hub.Store.Attestation.{attest}
use mcp_shared_memory_hub.Services.Idempotency.{Json, Payload, ClaimOutcome, claimed, replayed}
use mcp_shared_memory_hub.Services.Memories.{
  Env, RememberRequest, to_view, or_missing, replay_memory, deduplicate, apply_supersession,
  enqueue_for, complete_for, claim_for,
}

-- The validation at the head of `remember`: what will be written, or the first refusal.
unfoldable pub remember_draft : Env → RememberRequest → Result Draft
remember_draft env request = Errors.◌>>=◌ (validate_content request.content) λ content.
    Errors.◌>>=◌ (validate_tags env.py request.tags) λ tags.
      Errors.◌>>=◌ (validate_importance request.importance request.memory_type) λ importance.
        Errors.◌>>=◌ (resolve_expiry request.expires_at request.memory_type env.reference_time)
          λ expiry. ok (record {
            memory_type = request.memory_type;
            content = content;
            content_hash = content_hash env.py content;
            hash_version = hash_version;
            tags = tags;
            importance = importance;
            expires_at = expiry;
            author_client = request.author_client;
            author_kind = request.author_kind;
            source = request.source;
          })

abbrev pub remember_payload : Draft → Payload
remember_payload draft =
    ("type", Json.type_value draft.memory_type)
    ∷ ("content", Json.str draft.content)
    ∷ ("tags", Json.strs draft.tags)
    ∷ ("importance", Json.num draft.importance)
    ∷ []

abbrev pub keep_if_owned : Memory × MemoryRevision → Option ℕ → Option (Memory × MemoryRevision)
keep_if_owned row none = none
keep_if_owned row (some _) = some row

-- The speculative insert on its savepoint: `none` if the content is already asserted.
unfoldable pub speculate : ℕ → ℕ → Draft → Tx (Option (Memory × MemoryRevision))
speculate new_id project_id draft = savepoint do
  row ← create new_id project_id draft
  owner ← claim_dedup_key project_id draft.content_hash draft.hash_version row.0.id
  pure (keep_if_owned row owner)

unfoldable pub assert_again : ℕ → Draft → RememberRequest → Tx RememberResult
assert_again project_id draft request = do
  holder ← dedup_key_holder project_id draft.content_hash draft.hash_version
  holder_id ← or_missing holder
  deduplicate project_id holder_id request

unfoldable pub assert_new : ℕ → RememberRequest → Memory × MemoryRevision → Tx RememberResult
assert_new project_id request row = do
  lists ←
      apply_supersession project_id row.0.id request.supersedes request.author_client
        request.request_id
  enqueue_for project_id row.0.id 1 request.embedding_model
  attestations ← attest project_id row.0.id request.author_client
  record_event AuditAction.remember AuditOutcome.ok request.author_client project_id row.0.id
      (some 1) request.request_id
  complete_for project_id request.client_request_id row.0.id 1
  pure (record {
    memory = to_view row;
    outcome = created;
    superseded = lists.0;
    not_superseded = lists.1;
    attestation_count = attestations;
  })

unfoldable pub new_or_again :
    ℕ → Draft → RememberRequest → Option (Memory × MemoryRevision) → Tx RememberResult
new_or_again project_id draft request none = assert_again project_id draft request
new_or_again project_id draft request (some row) = assert_new project_id request row

unfoldable pub remember_claimed : ℕ → ℕ → Draft → RememberRequest → ClaimOutcome → Tx RememberResult
remember_claimed new_id project_id draft request (replayed response) = do
  memory ← replay_memory project_id response
  pure (record {
    memory = memory;
    outcome = idempotent_replay;
    superseded = [];
    not_superseded = [];
    attestation_count = 1;
  })
remember_claimed new_id project_id draft request claimed = do
  row ← speculate new_id project_id draft
  new_or_again project_id draft request row

-- `new_id` is the id that gen_random_uuid() would give to the new memory.
unfoldable pub remember : Env → ℕ → ℕ → RememberRequest → Tx RememberResult
remember env new_id project_id request = do
  draft ← lift (remember_draft env request)
  outcome ←
      claim_for env project_id request.client_request_id Operation.remember (remember_payload draft)
  remember_claimed new_id project_id draft request outcome
