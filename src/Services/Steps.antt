-- ===== src/Services/Steps.antt =====
-- The interface between what the store's writes guarantee and what the services guarantee.
use mcp_shared_memory_hub.Prelude.{ℕ, zero, suc, ◌≡◌, subst, Bool, Option, none, some, Text, arith}
use mcp_shared_memory_hub.Domain.Errors.{internal, memory_not_found, idempotency_key_reused}
use mcp_shared_memory_hub.Store.Tables.{
  Operation, KeyState, Response, IdempotencyKey, AuditAction, AuditOutcome, Db,
}
use mcp_shared_memory_hub.Store.Tx.{Tx, modify, ◌>>=◌}
use mcp_shared_memory_hub.Store.Guarantee.{
  IsStep, Guarantees, Guarantees-weaken, Guarantees-pure, Guarantees-raise, Guarantees-gets,
  Guarantees-lift, Guarantees-if, Guarantees-bind, guarantee_rules,
}
use mcp_shared_memory_hub.Store.Audit.{record_event}
use mcp_shared_memory_hub.Store.Memories.{Draft, Edit, get, compare_and_set}
use mcp_shared_memory_hub.Store.Attestation.{upsert_attestation, attest, attestation_count}
use mcp_shared_memory_hub.Store.Retirement
use mcp_shared_memory_hub.Store.Outbox.{enqueue_embedding}
use mcp_shared_memory_hub.Services.Idempotency.{
  ClaimOutcome, claimed, validate_key, claim_idempotency, wait_idempotency, stored_response, settle,
  claim_loop, claim, complete,
}
use mcp_shared_memory_hub.Services.Memories.{enqueue_for, complete_for, or_missing}
use mcp_shared_memory_hub.Services.Remember.{speculate}

-- a write to the other tables: memories, revisions and dedup keys stay as they are
pub record SameTruth (s t : Db) : Type 0 where
  pub memories : t.memories ≡ s.memories
  pub memory_revisions : t.memory_revisions ≡ s.memory_revisions
  pub memory_dedup_keys : t.memory_dedup_keys ≡ s.memory_dedup_keys

upsert_attestation-SameTruth :
    (project_id memory_id : ℕ) (client_name : Text)
    → Guarantees SameTruth (upsert_attestation project_id memory_id client_name)
unfolding upsert_attestation
upsert_attestation-SameTruth project_id memory_id client_name = record {
  at = λ s a s' h. ground arith;
}

record_event-SameTruth :
    (action : AuditAction) (outcome : AuditOutcome) (client : Text) (project_id memory_id : ℕ)
    (revision_no : Option ℕ) (request_id : Option Text)
    → Guarantees SameTruth
        (record_event action outcome client project_id memory_id revision_no request_id)
unfolding record_event ◌>>=◌
record_event-SameTruth action outcome client project_id memory_id revision_no request_id = record {
  at = λ s a s' h. ground arith;
}

enqueue_embedding-SameTruth :
    (project_id memory_id revision_no : ℕ) (model : Text)
    → Guarantees SameTruth (enqueue_embedding project_id memory_id revision_no model)
unfolding enqueue_embedding
enqueue_embedding-SameTruth project_id memory_id revision_no model = record {
  at = λ s a s' h. ground arith;
}

claim_idempotency-SameTruth :
    (project_id : ℕ) (key : Text) (operation : Operation) (request_fingerprint : Text)
    → Guarantees SameTruth (claim_idempotency project_id key operation request_fingerprint)
unfolding claim_idempotency
claim_idempotency-SameTruth project_id key operation request_fingerprint = record {
  at = λ s a s' h. ground arith;
}

complete-SameTruth :
    (project_id : ℕ) (client_request_id : Text) (response : Response)
    → Guarantees SameTruth (complete project_id client_request_id response)
unfolding complete
complete-SameTruth project_id client_request_id response = record { at = λ s a s' h. ground arith }

-- A relation that every write of the store keeps.
pub record IsStoreStep (R : Db → Db → Type 0) : Type 0 where
  pub step : IsStep R
  pub same : (s t : Db) → SameTruth s t → R s t
  pub speculates :
      (new_id project_id : ℕ) (draft : Draft) → Guarantees R (speculate new_id project_id draft)
  pub compares :
      (project_id memory_id expected : ℕ) (edit : Edit)
      → Guarantees R (compare_and_set project_id memory_id expected edit)
  pub supersedes :
      (project_id memory_id winner_id : ℕ)
      → Guarantees R (Retirement.supersede project_id memory_id winner_id)
  pub forgets : (project_id memory_id : ℕ) → Guarantees R (Retirement.forget project_id memory_id)

module _ {R : Db → Db → Type 0} (keeps : IsStoreStep R) where
  abbrev kept : {A : Type 0} (m : Tx A) → Guarantees SameTruth m → Guarantees R m
  kept m = Guarantees-weaken m keeps.same

  pub attest-keeps :
      (project_id memory_id : ℕ) (client_name : Text)
      → Guarantees R (attest project_id memory_id client_name)
  unfolding attest attestation_count
  attest-keeps project_id memory_id client_name =
      search (guarantee_rules, keeps.step, kept, upsert_attestation-SameTruth)

  pub event-keeps :
      (action : AuditAction) (outcome : AuditOutcome) (client : Text) (project_id memory_id : ℕ)
      (revision_no : Option ℕ) (request_id : Option Text)
      → Guarantees R
          (record_event action outcome client project_id memory_id revision_no request_id)
  event-keeps action outcome client project_id memory_id revision_no request_id =
      kept _
        (record_event-SameTruth action outcome client project_id memory_id revision_no request_id)

  pub enqueue-keeps :
      (project_id memory_id revision_no : ℕ) (model : Option Text)
      → Guarantees R (enqueue_for project_id memory_id revision_no model)
  unfolding enqueue_for
  enqueue-keeps project_id memory_id revision_no none = Guarantees-pure keeps.step tt
  enqueue-keeps project_id memory_id revision_no (some model) =
      kept _ (enqueue_embedding-SameTruth project_id memory_id revision_no model)

  pub complete-keeps :
      (project_id : ℕ) (client_request_id : Option Text) (memory_id revision_no : ℕ)
      → Guarantees R (complete_for project_id client_request_id memory_id revision_no)
  unfolding complete_for
  complete-keeps project_id none memory_id revision_no = Guarantees-pure keeps.step tt
  complete-keeps project_id (some client_request_id) memory_id revision_no =
      kept _ (complete-SameTruth project_id client_request_id _)

  pub or_missing-keeps : {A : Type 0} (o : Option A) → Guarantees R (or_missing o)
  or_missing-keeps none = Guarantees-raise memory_not_found
  or_missing-keeps (some a) = Guarantees-pure keeps.step a

  pub get-keeps :
      (project_id memory_id : ℕ) (include_retired : Bool)
      → Guarantees R (get project_id memory_id include_retired)
  unfolding get
  get-keeps project_id memory_id include_retired = Guarantees-gets keeps.step _

  stored_response-keeps :
      (state : KeyState) (response : Option Response)
      → Guarantees R (stored_response state response)
  unfolding stored_response
  stored_response-keeps KeyState.completed none = Guarantees-raise internal
  stored_response-keeps KeyState.completed (some response) = Guarantees-pure keeps.step _
  stored_response-keeps KeyState.in_progress response = Guarantees-raise internal

  settle-keeps :
      (operation : Operation) (request_fingerprint : Text) (again : Tx ClaimOutcome)
      (found : Option IdempotencyKey)
      → Guarantees R again
      → Guarantees R (settle operation request_fingerprint again found)
  unfolding settle
  settle-keeps operation request_fingerprint again none g = g
  settle-keeps operation request_fingerprint again (some k) g =
      Guarantees-if _ _ _ (Guarantees-raise idempotency_key_reused)
        (stored_response-keeps k.state k.response)

  module _ (others : ℕ → Db → Db) (rely : (i : ℕ) (s : Db) → R s (others i s)) where
    others-keeps : (i : ℕ) → Guarantees R (modify (others i))
    unfolding modify
    others-keeps i = record { at = λ s a s' h. subst (R s) (ground arith) (rely i s) }

    claim_loop-keeps :
        (left project_id : ℕ) (key : Text) (operation : Operation) (request_fingerprint : Text)
        → Guarantees R (claim_loop others left project_id key operation request_fingerprint)
    unfolding claim_loop wait_idempotency
    claim_loop-keeps zero project_id key operation request_fingerprint = Guarantees-raise internal
    claim_loop-keeps (suc left) project_id key operation request_fingerprint =
        Guarantees-bind keeps.step _ _
          (kept _ (claim_idempotency-SameTruth project_id key operation request_fingerprint))
          λ owned. Guarantees-if owned _ _ (Guarantees-pure keeps.step claimed) (
            Guarantees-bind keeps.step _ _ (others-keeps left) λ _.
              Guarantees-bind keeps.step _ _ (Guarantees-gets keeps.step _) λ found.
                settle-keeps operation request_fingerprint _ found
                  (claim_loop-keeps left project_id key operation request_fingerprint))

    pub claim-keeps :
        (project_id : ℕ) (client_request_id : Text) (operation : Operation)
        (request_fingerprint : Text)
        → Guarantees R (claim others project_id client_request_id operation request_fingerprint)
    unfolding claim
    claim-keeps project_id client_request_id operation request_fingerprint =
        Guarantees-bind keeps.step _ _ (Guarantees-lift keeps.step (validate_key client_request_id))
          λ key. claim_loop-keeps _ project_id key operation request_fingerprint
