-- ===== src/Mcp/Schemas.antt =====
-- src/memhub/mcp/schemas.py: what the tools answer with. Descriptions, notes and guidance are not
-- modelled; a share keeps its exact value.
use mcp_shared_memory_hub.Prelude.{ℕ, Bool, Option, none, some, List, map, Text, codes, length}
use mcp_shared_memory_hub.Domain.Enums.{
  MemoryType, decision, constraint, fact, task, MemoryStatus, active, superseded, deleted,
  AuthorKind, agent, human_confirmed, import_,
}
use mcp_shared_memory_hub.Domain.Models.{
  MemoryView, RememberOutcome, RememberResult, ForgetOutcome, ReviseResult, revise_succeeded,
  revise_replayed, revise_conflicted, RevisionView, AttestationView, SupersessionLink, AuditEntry,
  MemoryHistory,
}
use mcp_shared_memory_hub.Store.Coverage.{Ratio}
use mcp_shared_memory_hub.Context.Builder.{Dropped}
use mcp_shared_memory_hub.Services.Projects.{ProjectRef}
use mcp_shared_memory_hub.Services.Search.{SearchResult, Degraded}
use mcp_shared_memory_hub.Services.Brief.{ProjectContext}

-- the values of the enumerations
abbrev pub type_value : MemoryType → Text
type_value decision = codes "DECISION"
type_value constraint = codes "CONSTRAINT"
type_value fact = codes "FACT"
type_value task = codes "TASK"

abbrev pub status_value : MemoryStatus → Text
status_value active = codes "ACTIVE"
status_value superseded = codes "SUPERSEDED"
status_value deleted = codes "DELETED"

abbrev pub author_value : AuthorKind → Text
author_value agent = codes "agent"
author_value human_confirmed = codes "human_confirmed"
author_value import_ = codes "import"

pub record ProjectOut : Type 0 where
  pub project_id : Text
  pub slug : Text
  pub display_name : Text
  pub created : Bool

pub record MemoryOut : Type 0 where
  pub memory_id : Text
  pub project_id : Text
  pub type : Text
  pub status : Text
  pub revision_no : ℕ
  pub content : Text
  pub tags : List Text
  pub importance : ℕ
  pub expires_at : Option ℕ
  pub author_client : Text
  pub author_kind : Text
  pub source : Option Text
  pub created_at : ℕ
  pub updated_at : ℕ

pub record RememberOut : Type 0 where
  pub outcome : RememberOutcome
  pub memory : MemoryOut
  pub superseded : List Text
  pub not_superseded : List Text
  pub attestation_count : ℕ

pub record SearchOut : Type 0 where
  pub results : List MemoryOut
  pub returned : ℕ
  pub total_matched : ℕ

pub data ReviseOutcome : Type 0 where
  revised conflict idempotent_replay : ReviseOutcome

pub record ReviseOut : Type 0 where
  pub outcome : ReviseOutcome
  pub memory : MemoryOut
  pub previous_revision : Option ℕ
  pub current_revision : Option ℕ
  pub expected_revision : Option ℕ

pub record ForgetOut : Type 0 where
  pub outcome : ForgetOutcome
  pub memory_id : Text

pub record RevisionOut : Type 0 where
  pub revision_no : ℕ
  pub content : Text
  pub tags : List Text
  pub is_current : Bool
  pub change_reason : Option Text
  pub author_client : Text
  pub author_kind : Text
  pub created_at : ℕ

pub record SupersessionOut : Type 0 where
  pub memory_id : Text
  pub content : Text
  pub at : Option ℕ

-- AttestationOut and AuditOut have the fields of AttestationView and AuditEntry
pub record HistoryOut : Type 0 where
  pub memory : MemoryOut
  pub status : Text
  pub revisions : List RevisionOut
  pub superseded_by : Option SupersessionOut
  pub supersedes : List SupersessionOut
  pub attestations : List AttestationView
  pub audit : List AuditEntry

pub record BudgetOut : Type 0 where
  pub requested : ℕ
  pub estimated_used : ℕ
  pub utilisation : Ratio
  pub estimator : Text
  pub considered : ℕ
  pub selected : ℕ
  pub dropped : Dropped

pub record ContextOut : Type 0 where
  pub brief : Text
  pub memories : List MemoryOut
  pub budget : BudgetOut
  pub semantic_coverage : Option Ratio
  pub degraded : Option Degraded

-- `uuid_text` is str(uuid)
module _ (uuid_text : ℕ → Text) where
  unfoldable pub project_out : ProjectRef → ProjectOut
  project_out ref = record {
    project_id = uuid_text ref.id;
    slug = ref.slug;
    display_name = ref.display_name;
    created = ref.created;
  }

  unfoldable pub memory_out : MemoryView → MemoryOut
  memory_out view = record {
    memory_id = uuid_text view.memory_id;
    project_id = uuid_text view.project_id;
    type = type_value view.type;
    status = status_value view.status;
    revision_no = view.revision_no;
    content = view.content;
    tags = view.tags;
    importance = view.importance;
    expires_at = view.expires_at;
    author_client = view.author_client;
    author_kind = author_value view.author_kind;
    source = view.source;
    created_at = view.created_at;
    updated_at = view.updated_at;
  }

  unfoldable pub remember_out : RememberResult → RememberOut
  remember_out result = record {
    outcome = result.outcome;
    memory = memory_out result.memory;
    superseded = map uuid_text result.superseded;
    not_superseded = map uuid_text result.not_superseded;
    attestation_count = result.attestation_count;
  }

  unfoldable pub search_out : SearchResult → SearchOut
  search_out result = record {
    results = map memory_out result.memories;
    returned = length result.memories;
    total_matched = result.total_considered;
  }

  unfoldable pub revise_out : ReviseResult → ReviseOut
  revise_out (revise_succeeded memory previous_revision) = record {
    outcome = ReviseOutcome.revised;
    memory = memory_out memory;
    previous_revision = some previous_revision;
    current_revision = none;
    expected_revision = none;
  }
  revise_out (revise_replayed memory) = record {
    outcome = ReviseOutcome.idempotent_replay;
    memory = memory_out memory;
    previous_revision = none;
    current_revision = none;
    expected_revision = none;
  }
  revise_out (revise_conflicted current expected_revision) = record {
    outcome = ReviseOutcome.conflict;
    memory = memory_out current;
    previous_revision = none;
    current_revision = some current.revision_no;
    expected_revision = some expected_revision;
  }

  unfoldable pub forget_out : ℕ → ForgetOutcome → ForgetOut
  forget_out memory_id outcome = record { outcome = outcome; memory_id = uuid_text memory_id }

  abbrev pub revision_out : RevisionView → RevisionOut
  revision_out r = record {
    revision_no = r.revision_no;
    content = r.content;
    tags = r.tags;
    is_current = r.is_current;
    change_reason = r.change_reason;
    author_client = r.author_client;
    author_kind = author_value r.author_kind;
    created_at = r.created_at;
  }

  abbrev pub supersession_out : SupersessionLink → SupersessionOut
  supersession_out s = record { memory_id = uuid_text s.memory_id; content = s.content; at = s.at }

  abbrev pub some_supersession : Option SupersessionLink → Option SupersessionOut
  some_supersession none = none
  some_supersession (some s) = some (supersession_out s)

  unfoldable pub history_out : MemoryHistory → HistoryOut
  history_out history = record {
    memory = memory_out history.memory;
    status = status_value history.memory.status;
    revisions = map revision_out history.revisions;
    superseded_by = some_supersession history.superseded_by;
    supersedes = map supersession_out history.supersedes;
    attestations = history.attestations;
    audit = history.audit;
  }

  unfoldable pub context_out : {F : Type 0} → ProjectContext F → ContextOut
  context_out context = record {
    brief = context.brief;
    memories = map memory_out context.memories;
    budget = record {
      requested = context.selection.budget;
      estimated_used = context.selection.tokens_used;
      utilisation = record {
        numerator = context.selection.tokens_used;
        denominator = context.selection.budget;
      };
      estimator = context.estimator;
      considered = context.selection.considered;
      selected = length context.selection.selected;
      dropped = context.selection.dropped;
    };
    semantic_coverage = context.semantic_coverage;
    degraded = context.degraded;
  }
