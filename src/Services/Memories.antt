-- ===== src/Services/Memories.antt =====
-- src/memhub/services/memories.py: the writes, and the reads by id.
use mcp_shared_memory_hub.Prelude.{
  ℕ, Bool, true, false, Option, none, some, List, [], ◌∷◌, ltb, ◌==◌, Text, if◌then◌else◌,
}
use mcp_shared_memory_hub.Domain.Enums.{MemoryType, AuthorKind}
use mcp_shared_memory_hub.Domain.Errors.{memory_not_found}
use mcp_shared_memory_hub.Domain.Unicode.{Platform}
use mcp_shared_memory_hub.Domain.Models.{MemoryView, RememberResult, deduplicated}
use mcp_shared_memory_hub.Domain.Validation.{ℤ, Datetime}
use mcp_shared_memory_hub.Store.Tables.{
  Memory, MemoryRevision, Operation, AuditAction, AuditOutcome, Response, Db,
}
use mcp_shared_memory_hub.Store.Tx.{Tx, ◌>>=◌, ◌>>◌, pure, raise}
use mcp_shared_memory_hub.Store.Audit.{record_event}
use mcp_shared_memory_hub.Store.Memories.{get}
use mcp_shared_memory_hub.Store.Attestation.{attest}
use mcp_shared_memory_hub.Store.Retirement
use mcp_shared_memory_hub.Store.Outbox.{enqueue_embedding}
use mcp_shared_memory_hub.Services.Idempotency.{
  Dumps, Payload, ClaimOutcome, claimed, fingerprint, claim, complete,
}

-- What a request finds outside itself: the Unicode tables and hashes, json.dumps, what other
-- transactions commit while it waits for an idempotency key, and the clock of its process.
pub record Env : Type 0 where
  pub py : Platform
  pub dumps : Dumps
  pub others : ℕ → Db → Db
  pub reference_time : ℕ

pub record RememberRequest : Type 0 where
  pub memory_type : MemoryType
  pub content : Text
  pub tags : List Text
  pub importance : Option ℤ
  pub expires_at : Option Datetime
  pub supersedes : List ℕ
  pub source : Option Text
  pub author_client : Text
  pub author_kind : AuthorKind
  pub client_request_id : Option Text
  pub request_id : Option Text
  pub embedding_model : Option Text

pub record ReviseRequest : Type 0 where
  pub expected_revision : ℕ
  pub content : Text
  pub tags : List Text
  pub change_reason : Option Text
  pub source : Option Text
  pub author_client : Text
  pub author_kind : AuthorKind
  pub client_request_id : Option Text
  pub request_id : Option Text
  pub embedding_model : Option Text

-- repositories/memories.py
abbrev pub to_view : Memory × MemoryRevision → MemoryView
to_view (memory, revision) = record {
  memory_id = memory.id;
  project_id = memory.project_id;
  type = memory.type;
  status = memory.status;
  revision_no = revision.revision_no;
  content = revision.content;
  tags = revision.tags;
  importance = memory.importance;
  expires_at = memory.expires_at;
  author_client = revision.author_client;
  author_kind = revision.author_kind;
  source = revision.source;
  created_at = memory.created_at;
  updated_at = memory.updated_at;
}

abbrev pub or_missing : {A : Type 0} → Option A → Tx A
or_missing none = raise memory_not_found
or_missing (some a) = pure a

abbrev pub view_of : Option (Memory × MemoryRevision) → Option MemoryView
view_of none = none
view_of (some row) = some (to_view row)

unfoldable pub get_memory : ℕ → ℕ → Tx (Option MemoryView)
get_memory project_id memory_id = do row ← get project_id memory_id false; pure (view_of row)

-- the memory that a stored response points at
unfoldable pub replay_memory : ℕ → Response → Tx MemoryView
replay_memory project_id response = do
  view ← get_memory project_id response.memory_id
  or_missing view

unfoldable pub deduplicate : ℕ → ℕ → RememberRequest → Tx RememberResult
deduplicate project_id holder_id request = do
  found ← get_memory project_id holder_id
  existing ← or_missing found
  attestations ← attest project_id holder_id request.author_client
  record_event AuditAction.remember AuditOutcome.dedup request.author_client project_id holder_id
      (some existing.revision_no) request.request_id
  pure (record {
    memory = existing;
    outcome = deduplicated;
    superseded = [];
    not_superseded = [];
    attestation_count = attestations;
  })

-- sorted(set(_))
abbrev pub insert_once : ℕ → List ℕ → List ℕ
insert_once n [] = n ∷ []
insert_once n (m ∷ ms) =
    if ltb n m then n ∷ m ∷ ms else if n == m then m ∷ ms else m ∷ insert_once n ms

abbrev pub sorted_set : List ℕ → List ℕ
sorted_set [] = []
sorted_set (n ∷ ns) = insert_once n (sorted_set ns)

abbrev pub count_retired : ℕ → Bool → List ℕ × List ℕ → List ℕ × List ℕ
count_retired target true (retired, skipped) = (target ∷ retired, skipped)
count_retired target false (retired, skipped) = (retired, target ∷ skipped)

unfoldable pub note_supersession : ℕ → ℕ → Text → Option Text → Bool → Tx (Unit {0})
note_supersession project_id target author_client request_id false = pure tt
note_supersession project_id target author_client request_id true =
    record_event AuditAction.supersede AuditOutcome.ok author_client project_id target none
      request_id

-- one target of `_apply_supersession`: whether it was retired
unfoldable pub supersede_one : ℕ → ℕ → Text → Option Text → ℕ → Tx Bool
supersede_one project_id winner_id author_client request_id target =
    if target == winner_id then pure false else do
      hit ← Retirement.supersede project_id target winner_id
      note_supersession project_id target author_client request_id hit
      pure hit

unfoldable pub supersede_each : ℕ → ℕ → Text → Option Text → List ℕ → Tx (List ℕ × List ℕ)
supersede_each project_id winner_id author_client request_id [] = pure ([], [])
supersede_each project_id winner_id author_client request_id (target ∷ targets) =
    let rest = supersede_each project_id winner_id author_client request_id targets in
    do
      hit ← supersede_one project_id winner_id author_client request_id target
      lists ← rest
      pure (count_retired target hit lists)

unfoldable pub apply_supersession : ℕ → ℕ → List ℕ → Text → Option Text → Tx (List ℕ × List ℕ)
apply_supersession project_id winner_id targets author_client request_id =
    supersede_each project_id winner_id author_client request_id (sorted_set targets)

-- if embedding_model is not None: enqueue_embedding(...)
unfoldable pub enqueue_for : ℕ → ℕ → ℕ → Option Text → Tx (Unit {0})
enqueue_for project_id memory_id revision_no none = pure tt
enqueue_for project_id memory_id revision_no (some model) =
    enqueue_embedding project_id memory_id revision_no model

-- if client_request_id is not None: idempotency.complete(...)
unfoldable pub complete_for : ℕ → Option Text → ℕ → ℕ → Tx (Unit {0})
complete_for project_id none memory_id revision_no = pure tt
complete_for project_id (some client_request_id) memory_id revision_no =
    complete project_id client_request_id
      (record { memory_id = memory_id; revision_no = revision_no })

-- if client_request_id is not None: idempotency.claim(...)
unfoldable pub claim_for : Env → ℕ → Option Text → Operation → Payload → Tx ClaimOutcome
claim_for env project_id none operation payload = pure claimed
claim_for env project_id (some client_request_id) operation payload =
    claim env.others project_id client_request_id operation (fingerprint env.py env.dumps payload)
