-- ===== src/Domain/Models.antt =====
-- src/memhub/domain/models.py: what the services return, and repositories/memories.py's `to_view`.
use mcp_shared_memory_hub.Prelude.{ℕ, Bool, Option, List, Text}
use mcp_shared_memory_hub.Domain.Enums.{MemoryType, MemoryStatus, AuthorKind}
use mcp_shared_memory_hub.Store.Tables.{AuditAction, AuditOutcome}

pub record MemoryView : Type 0 where
  pub memory_id : ℕ
  pub project_id : ℕ
  pub type : MemoryType
  pub status : MemoryStatus
  pub revision_no : ℕ
  pub content : Text
  pub tags : List Text
  pub importance : ℕ
  pub expires_at : Option ℕ
  pub author_client : Text
  pub author_kind : AuthorKind
  pub source : Option Text
  pub created_at : ℕ
  pub updated_at : ℕ

pub data RememberOutcome : Type 0 where
  created deduplicated idempotent_replay : RememberOutcome

pub record RememberResult : Type 0 where
  pub memory : MemoryView
  pub outcome : RememberOutcome
  pub superseded : List ℕ
  pub not_superseded : List ℕ
  pub attestation_count : ℕ

pub data ForgetOutcome : Type 0 where
  forgotten already_forgotten : ForgetOutcome

-- ReviseSucceeded, ReviseReplayed and ReviseConflicted
pub data ReviseResult : Type 0 where
  revise_succeeded : (memory : MemoryView) → (previous_revision : ℕ) → ReviseResult
  revise_replayed : (memory : MemoryView) → ReviseResult
  revise_conflicted : (current : MemoryView) → (expected_revision : ℕ) → ReviseResult

pub record RevisionView : Type 0 where
  pub revision_no : ℕ
  pub content : Text
  pub tags : List Text
  pub is_current : Bool
  pub change_reason : Option Text
  pub author_client : Text
  pub author_kind : AuthorKind
  pub created_at : ℕ

pub record AttestationView : Type 0 where
  pub client_name : Text
  pub times_seen : ℕ
  pub first_seen_at : ℕ
  pub last_seen_at : ℕ

pub record SupersessionLink : Type 0 where
  pub memory_id : ℕ
  pub content : Text
  pub at : Option ℕ

pub record AuditEntry : Type 0 where
  pub at : ℕ
  pub action : AuditAction
  pub outcome : AuditOutcome
  pub actor_client : Text
  pub revision_no : Option ℕ

pub record MemoryHistory : Type 0 where
  pub memory : MemoryView
  pub revisions : List RevisionView
  pub superseded_by : Option SupersessionLink
  pub supersedes : List SupersessionLink
  pub attestations : List AttestationView
  pub audit : List AuditEntry
