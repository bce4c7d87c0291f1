-- ===== src/Services/Retry/Frame.antt =====
-- What leaves the table of idempotency keys alone: all of `remember` but `claim` and `complete`.
use mcp_shared_memory_hub.Prelude.{
  ℕ, ◌≡◌, refl, ◌∙◌, Bool, true, false, Option, none, some, List, [], ◌∷◌, Text, arith,
}
use mcp_shared_memory_hub.Domain.Errors.{memory_not_found}
use mcp_shared_memory_hub.Store.Tables.{Memory, MemoryRevision, AuditAction, AuditOutcome, Db}
use mcp_shared_memory_hub.Store.Tx.{◌>>=◌}
use mcp_shared_memory_hub.Store.Guarantee.{
  IsStep, Guarantees, Guarantees-pure, Guarantees-raise, guarantee_rules,
}
use mcp_shared_memory_hub.Store.Audit.{record_event}
use mcp_shared_memory_hub.Store.Memories.{Draft, get, create, insert_memory, insert_revision}
use mcp_shared_memory_hub.Store.Dedup.{claim_dedup_key, dedup_key_holder, release_dedup_keys}
use mcp_shared_memory_hub.Store.Attestation.{upsert_attestation, attest, attestation_count}
use mcp_shared_memory_hub.Store.Retirement
use mcp_shared_memory_hub.Store.Retirement.{cas_supersede, release_if}
use mcp_shared_memory_hub.Store.Outbox.{enqueue_embedding}
use mcp_shared_memory_hub.Services.Memories.{
  RememberRequest, get_memory, or_missing, deduplicate, note_supersession, supersede_one,
  supersede_each, apply_supersession, enqueue_for,
}
use mcp_shared_memory_hub.Services.Remember.{speculate, assert_again}

abbrev pub SameKeys : Db → Db → Type 0
SameKeys s t = t.idempotency_keys ≡ s.idempotency_keys

pub SameKeys-step : IsStep SameKeys
SameKeys-step = record { stay = λ s. refl; trans = λ s t u h k. k ∙ h }

insert_memory-frame : (row : Memory) → Guarantees SameKeys (insert_memory row)
unfolding insert_memory
insert_memory-frame row = record { at = λ s a s' h. ground arith }

insert_revision-frame : (row : MemoryRevision) → Guarantees SameKeys (insert_revision row)
unfolding insert_revision
insert_revision-frame row = record { at = λ s a s' h. ground arith }

create-frame :
    (new_id project_id : ℕ) (draft : Draft) → Guarantees SameKeys (create new_id project_id draft)
unfolding create
create-frame new_id project_id draft =
    search (guarantee_rules, SameKeys-step, insert_memory-frame, insert_revision-frame) depth 8

claim_dedup_key-frame :
    (project_id : ℕ) (content_hash : Text) (hash_version memory_id : ℕ)
    → Guarantees SameKeys (claim_dedup_key project_id content_hash hash_version memory_id)
unfolding claim_dedup_key
claim_dedup_key-frame project_id content_hash hash_version memory_id = record {
  at = λ s a s' h. ground arith;
}

pub speculate-frame :
    (new_id project_id : ℕ) (draft : Draft)
    → Guarantees SameKeys (speculate new_id project_id draft)
unfolding speculate
speculate-frame new_id project_id draft =
    search (guarantee_rules, SameKeys-step, create-frame, claim_dedup_key-frame) depth 8

cas_supersede-frame :
    (project_id memory_id winner_id : ℕ)
    → Guarantees SameKeys (cas_supersede project_id memory_id winner_id)
unfolding cas_supersede
cas_supersede-frame project_id memory_id winner_id = record { at = λ s a s' h. ground arith }

release-frame :
    (project_id memory_id : ℕ) → Guarantees SameKeys (release_dedup_keys project_id memory_id)
unfolding release_dedup_keys ◌>>=◌
release-frame project_id memory_id = record { at = λ s a s' h. ground arith }

release_if-frame :
    (project_id memory_id : ℕ) (hit : Bool)
    → Guarantees SameKeys (release_if project_id memory_id hit)
unfolding release_if
release_if-frame project_id memory_id true = search (guarantee_rules, SameKeys-step, release-frame)
release_if-frame project_id memory_id false = Guarantees-pure SameKeys-step false

supersede-frame :
    (project_id memory_id winner_id : ℕ)
    → Guarantees SameKeys (Retirement.supersede project_id memory_id winner_id)
unfolding Retirement.supersede
supersede-frame project_id memory_id winner_id =
    search (guarantee_rules, SameKeys-step, cas_supersede-frame, release_if-frame)

pub event-frame :
    (action : AuditAction) (outcome : AuditOutcome) (client : Text) (project_id memory_id : ℕ)
    (revision_no : Option ℕ) (request_id : Option Text)
    → Guarantees SameKeys
        (record_event action outcome client project_id memory_id revision_no request_id)
unfolding record_event ◌>>=◌
event-frame action outcome client project_id memory_id revision_no request_id = record {
  at = λ s a s' h. ground arith;
}

upsert-frame :
    (project_id memory_id : ℕ) (client_name : Text)
    → Guarantees SameKeys (upsert_attestation project_id memory_id client_name)
unfolding upsert_attestation
upsert-frame project_id memory_id client_name = record { at = λ s a s' h. ground arith }

pub attest-frame :
    (project_id memory_id : ℕ) (client_name : Text)
    → Guarantees SameKeys (attest project_id memory_id client_name)
unfolding attest attestation_count
attest-frame project_id memory_id client_name =
    search (guarantee_rules, SameKeys-step, upsert-frame)

enqueue_embedding-frame :
    (project_id memory_id revision_no : ℕ) (model : Text)
    → Guarantees SameKeys (enqueue_embedding project_id memory_id revision_no model)
unfolding enqueue_embedding
enqueue_embedding-frame project_id memory_id revision_no model = record {
  at = λ s a s' h. ground arith;
}

pub enqueue-frame :
    (project_id memory_id revision_no : ℕ) (model : Option Text)
    → Guarantees SameKeys (enqueue_for project_id memory_id revision_no model)
unfolding enqueue_for
enqueue-frame project_id memory_id revision_no none = Guarantees-pure SameKeys-step tt
enqueue-frame project_id memory_id revision_no (some model) =
    enqueue_embedding-frame project_id memory_id revision_no model

note-frame :
    (project_id target : ℕ) (client : Text) (request_id : Option Text) (hit : Bool)
    → Guarantees SameKeys (note_supersession project_id target client request_id hit)
unfolding note_supersession
note-frame project_id target client request_id true = search (event-frame)
note-frame project_id target client request_id false = Guarantees-pure SameKeys-step _

supersede_one-frame :
    (project_id winner_id : ℕ) (client : Text) (request_id : Option Text) (target : ℕ)
    → Guarantees SameKeys (supersede_one project_id winner_id client request_id target)
unfolding supersede_one
supersede_one-frame project_id winner_id client request_id target =
    search (guarantee_rules, SameKeys-step, supersede-frame, note-frame)

supersede_each-frame :
    (project_id winner_id : ℕ) (client : Text) (request_id : Option Text) (targets : List ℕ)
    → Guarantees SameKeys (supersede_each project_id winner_id client request_id targets)
unfolding supersede_each
supersede_each-frame project_id winner_id client request_id [] = Guarantees-pure SameKeys-step _
supersede_each-frame project_id winner_id client request_id (target ∷ targets) = search (
  guarantee_rules,
  SameKeys-step,
  supersede_one-frame project_id winner_id client request_id target,
  supersede_each-frame project_id winner_id client request_id targets,
)

pub apply_supersession-frame :
    (project_id winner_id : ℕ) (targets : List ℕ) (client : Text) (request_id : Option Text)
    → Guarantees SameKeys (apply_supersession project_id winner_id targets client request_id)
unfolding apply_supersession
apply_supersession-frame project_id winner_id targets client request_id =
    search (supersede_each-frame)

or_missing-frame : {A : Type 0} (o : Option A) → Guarantees SameKeys (or_missing o)
or_missing-frame none = Guarantees-raise memory_not_found
or_missing-frame (some a) = Guarantees-pure SameKeys-step a

get_memory-frame :
    (project_id memory_id : ℕ) → Guarantees SameKeys (get_memory project_id memory_id)
unfolding get_memory get
get_memory-frame project_id memory_id = search (guarantee_rules, SameKeys-step)

deduplicate-frame :
    (project_id holder_id : ℕ) (request : RememberRequest)
    → Guarantees SameKeys (deduplicate project_id holder_id request)
unfolding deduplicate
deduplicate-frame project_id holder_id request =
    search
      (
        guarantee_rules, SameKeys-step, get_memory-frame, or_missing-frame, attest-frame,
        event-frame,
      )
      depth 8

pub assert_again-frame :
    (project_id : ℕ) (draft : Draft) (request : RememberRequest)
    → Guarantees SameKeys (assert_again project_id draft request)
unfolding assert_again dedup_key_holder
assert_again-frame project_id draft request =
    search (guarantee_rules, SameKeys-step, or_missing-frame, deduplicate-frame)
