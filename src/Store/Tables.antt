-- ===== src/Store/Tables.antt =====
-- src/memhub/persistence/models.py: the tables that the services write, a record for each row and a
-- list for each table. A query never depends on the order of the rows, so an INSERT puts its row at
-- the head. A UUID is its 128-bit number, whose order is that of `str(uuid)`; a timestamp is a number
-- of microseconds; `now` is the clock that `now()` reads, the start of the running transaction.
use mcp_shared_memory_hub.Prelude.{ℕ, Bool, Option, List, Text}
use mcp_shared_memory_hub.Domain.Enums.{MemoryType, MemoryStatus, AuthorKind}

pub record Project : Type 0 where
  pub id : ℕ
  pub slug : Text
  pub display_name : Text

pub data AliasKind : Type 0 where
  git_remote workspace_path : AliasKind

pub record ProjectAlias : Type 0 where
  pub project_id : ℕ
  pub kind : AliasKind
  pub value_norm : Text

pub record Memory : Type 0 where
  pub id : ℕ
  pub project_id : ℕ
  pub type : MemoryType
  pub status : MemoryStatus
  pub current_revision_no : ℕ
  pub importance : ℕ
  pub expires_at : Option ℕ
  pub superseded_by_id : Option ℕ
  pub superseded_at : Option ℕ
  pub deleted_at : Option ℕ
  pub created_at : ℕ
  pub updated_at : ℕ

pub record MemoryRevision : Type 0 where
  pub memory_id : ℕ
  pub revision_no : ℕ
  pub project_id : ℕ
  pub content : Text
  pub content_hash : Text
  pub hash_version : ℕ
  pub tags : List Text
  pub is_current : Bool
  pub change_reason : Option Text
  pub source : Option Text
  pub author_client : Text
  pub author_kind : AuthorKind
  pub created_at : ℕ

-- `remember` or `revise`: the values of `operation`
pub data Operation : Type 0 where
  remember revise : Operation

pub data KeyState : Type 0 where
  in_progress completed : KeyState

-- The JSON object that a completed request stores
pub record Response : Type 0 where
  pub memory_id : ℕ
  pub revision_no : ℕ

pub record IdempotencyKey : Type 0 where
  pub project_id : ℕ
  pub client_request_id : Text
  pub operation : Operation
  pub request_fingerprint : Text
  pub state : KeyState
  pub response : Option Response
  pub completed_at : Option ℕ
  pub expires_at : ℕ

pub data AuditAction : Type 0 where
  remember revise forget supersede purge : AuditAction

pub data AuditOutcome : Type 0 where
  ok conflict dedup replay rejected : AuditOutcome

pub record AuditEvent : Type 0 where
  pub at : ℕ
  pub project_id : Option ℕ
  pub memory_id : Option ℕ
  pub revision_no : Option ℕ
  pub action : AuditAction
  pub outcome : AuditOutcome
  pub actor_client : Text
  pub request_id : Option Text

pub record MemoryDedupKey : Type 0 where
  pub project_id : ℕ
  pub hash_version : ℕ
  pub content_hash : Text
  pub memory_id : ℕ

pub record MemoryAttestation : Type 0 where
  pub memory_id : ℕ
  pub client_name : Text
  pub project_id : ℕ
  pub first_seen_at : ℕ
  pub last_seen_at : ℕ
  pub times_seen : ℕ

pub data JobState : Type 0 where
  pending done dead : JobState

pub record EmbeddingJob : Type 0 where
  pub id : ℕ
  pub memory_id : ℕ
  pub revision_no : ℕ
  pub project_id : ℕ
  pub model : Text
  pub state : JobState
  pub attempts : ℕ
  pub next_attempt_at : ℕ
  pub last_error : Option Text

-- `embedding` is the text of the vector that the worker sends
pub record MemoryEmbedding : Type 0 where
  pub memory_id : ℕ
  pub revision_no : ℕ
  pub model : Text
  pub project_id : ℕ
  pub dim : ℕ
  pub embedding : Text

pub record Db : Type 0 where
  pub now : ℕ
  pub projects : List Project
  pub project_aliases : List ProjectAlias
  pub memories : List Memory
  pub memory_revisions : List MemoryRevision
  pub idempotency_keys : List IdempotencyKey
  pub audit_events : List AuditEvent
  pub memory_dedup_keys : List MemoryDedupKey
  pub memory_attestations : List MemoryAttestation
  pub memory_embeddings : List MemoryEmbedding
  pub embedding_jobs : List EmbeddingJob
  -- the sequence behind `embedding_jobs.id`
  pub next_job_id : ℕ
