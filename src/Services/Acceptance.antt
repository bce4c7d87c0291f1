-- ===== src/Services/Acceptance.antt =====
-- `remember` of src/memhub/services/memories.py: its validation and the constraints of the schema.
use mcp_shared_memory_hub.Prelude.{
  ℕ, ◌≡◌, refl, subst, ◌∙◌, inl, inr, Bool, true, false, not, ◌&&◌, ◌||◌, Option, none, some, List,
  [], ◌∷◌, arith, leb, ◌==◌, ==_refl, length, any, is_some, Bool-cases, if◌then◌else◌,
}
use mcp_shared_memory_hub.Domain.Enums.{MemoryType, decision, constraint, fact, task, type_eq}
use mcp_shared_memory_hub.Domain.Errors.{ok}
use mcp_shared_memory_hub.Domain.Validation.{
  validate_content, validate_tags, validate_importance, resolve_expiry,
}
use mcp_shared_memory_hub.Domain.Validation.Bounds.{
  ExpiryFits, validate_content-bounds, validate_importance-le, resolve_expiry-ExpiryFits,
}
use mcp_shared_memory_hub.Domain.Validation.Tags.{validate_tags_lem}
use mcp_shared_memory_hub.Store.Tables.{Memory, MemoryRevision, MemoryDedupKey, Db}
use mcp_shared_memory_hub.Store.Tx.{◌>>=◌, savepoint}
use mcp_shared_memory_hub.Store.Memories.{
  Draft, create, insert_memory, insert_revision, memory_allowed, revision_allowed, new_memory,
  first_revision, storable,
}
use mcp_shared_memory_hub.Store.Dedup.{key_matches, claim_dedup_key}
use mcp_shared_memory_hub.Store.Invariant.{rows_of, log_of, keys_of, IsSound, IsWellFormed}
use mcp_shared_memory_hub.Store.Invariant.Writes.{at_unused}
use mcp_shared_memory_hub.Store.Race.{any_at}
use mcp_shared_memory_hub.Services.Memories.{Env, RememberRequest}
use mcp_shared_memory_hub.Services.Remember.{remember_draft, speculate}

-- the CHECKs of the schema on what a draft fills in
record DraftFits (draft : Draft) : Type 0 where
  importance_fits : leb draft.importance 100 ≡ true
  expiry_fits : not (type_eq draft.memory_type task) || is_some draft.expires_at ≡ true
  some_content : leb 1 (length draft.content) ≡ true
  short_content : leb (length draft.content) 8192 ≡ true
  few_tags : leb (length draft.tags) 16 ≡ true

-- the parts of a draft that was accepted
record Accepted (env : Env) (request : RememberRequest) (draft : Draft) : Type 0 where
  content : validate_content request.content ≡ ok draft.content
  tags : validate_tags env.py request.tags ≡ ok draft.tags
  importance : validate_importance request.importance request.memory_type ≡ ok draft.importance
  expiry :
      resolve_expiry request.expires_at request.memory_type env.reference_time ≡ ok draft.expires_at
  memory_type : request.memory_type ≡ draft.memory_type

remember_draft-Accepted :
    (env : Env) (request : RememberRequest) (draft : Draft)
    → remember_draft env request ≡ ok draft
    → Accepted env request draft
unfolding remember_draft
remember_draft-Accepted env request draft h = record {
  content = ground arith;
  tags = ground arith;
  importance = ground arith;
  expiry = ground arith;
  memory_type = ground arith;
}

fitting_expiry :
    (t : MemoryType) (now : ℕ) (expiry : Option ℕ)
    → ExpiryFits t now expiry
    → not (type_eq t task) || is_some expiry ≡ true
fitting_expiry decision now expiry h = refl
fitting_expiry constraint now expiry h = refl
fitting_expiry fact now expiry h = refl
fitting_expiry task now none h = absurd h
fitting_expiry task now (some t) h = refl

remember_draft-DraftFits :
    (env : Env) (request : RememberRequest) (draft : Draft)
    → remember_draft env request ≡ ok draft
    → DraftFits draft
remember_draft-DraftFits env request draft h =
    let accepted = remember_draft-Accepted env request draft h in
    let (some_content, short_content) = validate_content-bounds request.content accepted.content in
    let le = validate_importance-le request.importance request.memory_type accepted.importance in
    let (_, _, few, _) = validate_tags_lem env.py request.tags accepted.tags in
    record {
      importance_fits = ground arith;
      expiry_fits =
          subst (λ t. not (type_eq t task) || is_some draft.expires_at ≡ true) accepted.memory_type
            (fitting_expiry request.memory_type env.reference_time draft.expires_at (
              resolve_expiry-ExpiryFits request.expires_at request.memory_type env.reference_time
                accepted.expiry));
      some_content = ground arith;
      short_content = ground arith;
      few_tags = ground arith;
    }

empty_log :
    (rows : List Memory) (log : List MemoryRevision) (keys : List MemoryDedupKey)
    → rows ≡ []
    → IsSound rows log keys
    → log ≡ []
empty_log [] log keys e sound = sound.0
empty_log (r ∷ rows) log keys e sound = absurd (ground arith)

no_revision :
    (new_id : ℕ) (s : Db) (q : MemoryRevision → Bool)
    → IsWellFormed s
    → any (λ r. r.id == new_id) s.memories ≡ false
    → any (λ r. r.memory_id == new_id && q r) s.memory_revisions ≡ false
no_revision new_id s q wf unused =
    any_at (λ (r : MemoryRevision). r.memory_id) new_id q s.memory_revisions
    ∙ rw
        (empty_log (rows_of new_id s) (log_of new_id s) (keys_of new_id s)
          (at_unused (λ (r : Memory). r.id) new_id s.memories unused) (wf new_id))
        refl

-- In a well-formed store that has the project, under an id that no memory has, the speculative insert
-- of a draft that passed the validation and has no U+0000 in its texts never raises: it is undone without a trace if the content's
-- dedup key is taken, and otherwise leaves exactly the new memory, its first revision and its key.
pub speculate_lem :
    (env : Env) (request : RememberRequest) (draft : Draft) (new_id project_id : ℕ) (s : Db)
    → remember_draft env request ≡ ok draft
    → storable draft.content draft.tags none draft.source draft.author_client ≡ true
    → IsWellFormed s
    → any (λ p. p.id == project_id) s.projects ≡ true
    → any (λ r. r.id == new_id) s.memories ≡ false
    → speculate new_id project_id draft s ≡ (
        if any (key_matches project_id draft.hash_version draft.content_hash) s.memory_dedup_keys
        then ok (none, s)
        else ok (
          some (
            new_memory new_id project_id draft s.now,
            first_revision new_id project_id draft s.now,
          ),
          record s {
            memories = new_memory new_id project_id draft s.now ∷ s.memories;
            memory_revisions = first_revision new_id project_id draft s.now ∷ s.memory_revisions;
            memory_dedup_keys =
                record {
                  project_id = project_id;
                  hash_version = draft.hash_version;
                  content_hash = draft.content_hash;
                  memory_id = new_id;
                }
                ∷ s.memory_dedup_keys;
          },
        ))
unfolding speculate savepoint create insert_memory memory_allowed insert_revision revision_allowed
    claim_dedup_key ◌>>=◌
speculate_lem env request draft new_id project_id s accepted fit_texts wf known unused =
    let fits = remember_draft-DraftFits env request draft accepted in
    let numbered = no_revision new_id s (λ r. r.revision_no == 1) wf unused in
    let current = no_revision new_id s (λ r. r.is_current) wf unused in
    elim (Bool-cases
      (any (key_matches project_id draft.hash_version draft.content_hash) s.memory_dedup_keys)) [
        | inl e ↦
            rw
              (
                known,
                unused,
                fits.importance_fits,
                fits.expiry_fits,
                fit_texts,
                numbered,
                current,
                ==_refl new_id,
                ==_refl project_id,
                fits.some_content,
                fits.short_content,
                fits.few_tags,
                e,
              )
              refl
        | inr e ↦
            rw
              (
                known,
                unused,
                fits.importance_fits,
                fits.expiry_fits,
                fit_texts,
                numbered,
                current,
                ==_refl new_id,
                ==_refl project_id,
                fits.some_content,
                fits.short_content,
                fits.few_tags,
                e,
              )
              (rw (==_refl new_id, ==_refl project_id) refl)
      ]
