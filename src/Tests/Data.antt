-- ===== src/Tests/Data.antt =====
-- A small store and the requests that the tests make of it.
use mcp_shared_memory_hub.Prelude.{
  refl, inl, inr, true, none, some, List, [], ◌∷◌, Text, ◌==◌, Bool-cases,
}
use mcp_shared_memory_hub.Domain.Enums.{fact, active, deleted, agent}
use mcp_shared_memory_hub.Domain.Unicode.{Platform}
use mcp_shared_memory_hub.Store.Tables.{
  Memory, MemoryRevision, Operation, completed, IdempotencyKey, Db,
}
use mcp_shared_memory_hub.Store.Memories.{Draft, Edit}
use mcp_shared_memory_hub.Store.Invariant.{IsWellFormed}
use mcp_shared_memory_hub.Services.Memories.{Env, RememberRequest}
use mcp_shared_memory_hub.Services.Idempotency.{Payload}
use mcp_shared_memory_hub.Services.Replay.{quiet}
use mcp_shared_memory_hub.Services.Requests.{Request, Arrival}

abbrev pub plain : Platform
plain = record { casefold = λ t. t; nfkc = λ t. t; sha256 = λ t. t }

abbrev pub dump_size : Payload → Text
dump_size payload = []

abbrev pub here : Env
here = record { py = plain; dumps = dump_size; others = quiet; reference_time = 10 }

abbrev pub first_note : Text
first_note = b'n' ∷ b'o' ∷ b't' ∷ b'e' ∷ []

abbrev pub other_note : Text
other_note = b'm' ∷ b'o' ∷ b'r' ∷ b'e' ∷ []

abbrev pub key : Text
key = b'r' ∷ b'e' ∷ b'q' ∷ b'-' ∷ b'0' ∷ b'0' ∷ b'0' ∷ b'1' ∷ []

abbrev pub claude : Text
claude = b'c' ∷ []

abbrev pub first_memory : Memory
first_memory = record {
  id = 7;
  project_id = 1;
  type = fact;
  status = active;
  current_revision_no = 1;
  importance = 50;
  expires_at = none;
  superseded_by_id = none;
  superseded_at = none;
  deleted_at = none;
  created_at = 5;
  updated_at = 5;
}

abbrev pub its_revision : MemoryRevision
its_revision = record {
  memory_id = 7;
  revision_no = 1;
  project_id = 1;
  content = first_note;
  content_hash = first_note;
  hash_version = 1;
  tags = [];
  is_current = true;
  change_reason = none;
  source = none;
  author_client = claude;
  author_kind = agent;
  created_at = 5;
}

-- one project with one memory
abbrev pub small_db : Db
small_db = record {
  now = 10;
  projects = (record { id = 1; slug = first_note; display_name = first_note }) ∷ [];
  project_aliases = [];
  memories = first_memory ∷ [];
  memory_revisions = its_revision ∷ [];
  idempotency_keys = [];
  audit_events = [];
  memory_dedup_keys =
      (record { project_id = 1; hash_version = 1; content_hash = first_note; memory_id = 7 }) ∷ [];
  memory_attestations = [];
  memory_embeddings = [];
  embedding_jobs = [];
  next_job_id = 1;
}

pub small_db-IsWellFormed : IsWellFormed small_db
small_db-IsWellFormed m = elim (Bool-cases (7 == m)) [
  | inl e ↦ rw e ((refl, refl, refl, refl), ((refl, refl), tt), (refl, refl, refl))
  | inr e ↦ rw e (refl, refl)
]

abbrev pub other_edit : Edit
other_edit = record {
  content = other_note;
  content_hash = other_note;
  hash_version = 1;
  tags = [];
  change_reason = none;
  author_client = claude;
  author_kind = agent;
  source = none;
}

abbrev pub asking : Text → RememberRequest
asking content = record {
  memory_type = fact;
  content = content;
  tags = [];
  importance = none;
  expires_at = none;
  supersedes = [];
  source = none;
  author_client = claude;
  author_kind = agent;
  client_request_id = some key;
  request_id = none;
  embedding_model = none;
}

-- another memory is remembered, and the first one forgotten
abbrev pub two_arrivals : List Arrival
two_arrivals =
    (record {
      env = here;
      now = 20;
      project_id = 1;
      request = Request.remembering 8 (asking other_note);
    })
    ∷ (record { env = here; now = 30; project_id = 1; request = Request.forgetting 7 claude none })
    ∷ []

abbrev pub forgotten_memory : Memory
forgotten_memory = record first_memory { status = deleted; deleted_at = some 9 }

-- the same memory, after it was forgotten
abbrev pub forgotten_db : Db
forgotten_db = record small_db { memories = forgotten_memory ∷ []; memory_dedup_keys = [] }

pub forgotten_db-IsWellFormed : IsWellFormed forgotten_db
forgotten_db-IsWellFormed m = elim (Bool-cases (7 == m)) [
  | inl e ↦ rw e ((refl, refl, refl, refl), tt, (refl, (9, refl)))
  | inr e ↦ rw e (refl, refl)
]

abbrev pub completed_key : IdempotencyKey
completed_key = record {
  project_id = 1;
  client_request_id = key;
  operation = Operation.remember;
  request_fingerprint = [];
  state = completed;
  response = some (record { memory_id = 7; revision_no = 1 });
  completed_at = some 9;
  expires_at = 90;
}

abbrev pub keyed_db : Db
keyed_db = record small_db { idempotency_keys = completed_key ∷ [] }

-- what `remember` writes for the content of the small store's memory
abbrev pub note_draft : Draft
note_draft = record {
  memory_type = fact;
  content = first_note;
  content_hash = first_note;
  hash_version = 1;
  tags = [];
  importance = 50;
  expires_at = none;
  author_client = claude;
  author_kind = agent;
  source = none;
}
