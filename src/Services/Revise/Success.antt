-- ===== src/Services/Revise/Success.antt =====
-- A `revise` (src/memhub/services/memories.py) that names the current revision.
use mcp_shared_memory_hub.Prelude.{
  ℕ, ◌+◌, ◌≡◌, refl, sym, ◌∙◌, subst, subst₂, inl, inr, true, false, ◌&&◌, Option, none, some, List,
  [], ◌∷◌, arith, ◌==◌, ==_iff, ==_refl, at-head, at, any, update_where, Bool-cases, Text,
}
use mcp_shared_memory_hub.Domain.Errors.{ok}
use mcp_shared_memory_hub.Domain.Models.{revise_succeeded}
use mcp_shared_memory_hub.Domain.Validation.{validate_content, validate_tags}
use mcp_shared_memory_hub.Domain.Validation.Bounds.{validate_content-bounds}
use mcp_shared_memory_hub.Domain.Validation.Tags.{validate_tags_lem}
use mcp_shared_memory_hub.Store.Tables.{
  Memory, MemoryRevision, EmbeddingJob, AuditEvent, AuditAction, AuditOutcome, Operation, Db,
}
use mcp_shared_memory_hub.Store.Tx.{done, pure, ◌>>=◌}
use mcp_shared_memory_hub.Store.Audit.{record_event}
use mcp_shared_memory_hub.Store.Memories.{
  Edit, get, cas_matches, advance, next_revision, retire_revision, compare_and_set, storable,
}
use mcp_shared_memory_hub.Store.Outbox.{has_revision, job_matches, new_job, enqueue_embedding}
use mcp_shared_memory_hub.Store.Invariant.{rows_of, log_of, IsLog}
use mcp_shared_memory_hub.Store.Invariant.Cas.{after_cas, rows_of-after_cas}
use mcp_shared_memory_hub.Store.Race.{EditFits, compare_and_set_won}
use mcp_shared_memory_hub.Store.Found.{get_live}
use mcp_shared_memory_hub.Services.Memories.{
  Env, ReviseRequest, to_view, enqueue_for, complete_for, claim_for,
}
use mcp_shared_memory_hub.Services.Idempotency.{Payload, claimed}
use mcp_shared_memory_hub.Services.Revise.{
  revise_edit, revise_payload, report_success, report, revise_claimed, revise,
}
use mcp_shared_memory_hub.Services.Revise.Conflict.{noted}
use mcp_shared_memory_hub.Services.Revise.Found.{IsFound}

revise_edit-EditFits :
    (env : Env) (request : ReviseRequest) (edit : Edit)
    → revise_edit env request ≡ ok edit
    → storable edit.content edit.tags edit.change_reason edit.source edit.author_client ≡ true
    → EditFits edit
unfolding revise_edit
revise_edit-EditFits env request edit h fit_texts =
    let content : validate_content request.content ≡ ok edit.content = ground arith in
    let tags : validate_tags env.py request.tags ≡ ok edit.tags = ground arith in
    let (some_content, short_content) = validate_content-bounds request.content content in
    let (_, _, few, _) = validate_tags_lem env.py request.tags tags in
    record {
      some_content = some_content;
      short_content = short_content;
      few_tags = few;
      fit_texts = fit_texts;
    }

claimed_keyless :
    (env : Env) (project_id : ℕ) (payload : Payload) (key : Option Text) (s : Db)
    → key ≡ none
    → claim_for env project_id key Operation.revise payload s ≡ ok (claimed, s)
unfolding claim_for pure
claimed_keyless env project_id payload key s h = rw h refl

completed_keyless :
    (project_id m k : ℕ) (key : Option Text) (s : Db)
    → key ≡ none
    → complete_for project_id key m k s ≡ ok (tt, s)
unfolding complete_for pure
completed_keyless project_id m k key s h = rw h refl

-- The outbox takes a job for a revision that is there.
enqueued :
    (project_id m k : ℕ) (model : Option Text) (db : Db)
    → has_revision m k db ≡ true
    → (jobs : List EmbeddingJob) × (next : ℕ) × (enqueue_for project_id m k model db
        ≡ ok (tt, record db { embedding_jobs = jobs; next_job_id = next }))
unfolding enqueue_for enqueue_embedding pure
enqueued project_id m k none db h = (db.embedding_jobs, db.next_job_id, refl)
enqueued project_id m k (some model) db h =
    elim (Bool-cases (any (job_matches m k model) db.embedding_jobs)) [
      | inl e ↦ (db.embedding_jobs, db.next_job_id + 1, rw e refl)
      | inr e ↦
          (new_job project_id m k model db ∷ db.embedding_jobs, db.next_job_id + 1, rw (e, h) refl)
    ]

module _ (env : Env) (project_id m n : ℕ) (request : ReviseRequest) (edit : Edit) (s : Db)
    (r : Memory) (v : MemoryRevision) (log : List MemoryRevision)
    (found : IsFound project_id m s.now s r v log) (number : r.current_revision_no ≡ n) where
  abbrev pub after : Db
  after = after_cas project_id m n edit (n + 1) s

  abbrev pub revised : MemoryRevision
  revised = next_revision project_id m (n + 1) edit s.now

  matches : cas_matches project_id n r ≡ true
  matches = let mine = found.mine in let live = found.live in ground arith

  id : r.id ≡ m
  id = (==_iff r.id m).0 (at-head (λ (x : Memory). x.id) m s.memories found.rows)

  won : EditFits edit → compare_and_set project_id m n edit s ≡ ok (some (n + 1), after)
  won fits = compare_and_set_won project_id m n s r found.rows matches edit fits (
      subst₂ (λ p k. IsLog p k (log_of m s)) found.mine number
        (subst (IsLog r.project_id r.current_revision_no) (sym found.log_is) found.sound))

  rows_after : rows_of m after ≡ advance s.now r ∷ []
  rows_after =
      rows_of-after_cas project_id m n edit (n + 1) s m ∙ rw (==_refl m, found.rows, matches) refl

  log_after :
      log_of m after
      ≡ revised
        ∷ at
            (λ w. w.memory_id)
            m
            (update_where
              (λ w. w.memory_id == m && w.revision_no == n)
              retire_revision
              s.memory_revisions)
  log_after = rw (==_refl m) refl

  -- `get` finds the new revision in any database that holds what the compare-and-set left
  seen_after :
      (jobs : List EmbeddingJob) (next : ℕ) (event : AuditEvent)
      → get project_id m false
          (noted event (record after { embedding_jobs = jobs; next_job_id = next }))
        ≡ done
            (some (advance s.now r, revised))
            (noted event (record after { embedding_jobs = jobs; next_job_id = next }))
  seen_after jobs next event =
      get_live project_id m
        (noted event (record after { embedding_jobs = jobs; next_job_id = next })) (advance s.now r)
        revised _ rows_after log_after id found.mine found.live refl (sym found.mine)

  abbrev success : AuditEvent
  success = record {
    at = s.now;
    project_id = some project_id;
    memory_id = some m;
    revision_no = some (n + 1);
    action = AuditAction.revise;
    outcome = AuditOutcome.ok;
    actor_client = request.author_client;
    request_id = request.request_id;
  }

  succeeds :
      request.client_request_id ≡ none
      → (u : Db) × (report_success project_id m
            (record request { expected_revision = n })
            r
            (n + 1)
            after
          ≡ ok (revise_succeeded (to_view (r, revised)) n, u))
  unfolding report_success record_event pure ◌>>=◌
  succeeds keyless =
      let (jobs, next, stored) =
        enqueued project_id m (n + 1) request.embedding_model after (ground (arith, ==_refl m)) in
      let end : Db = noted success (record after { embedding_jobs = jobs; next_job_id = next }) in
      (
        end,
        rw
            (
              stored,
              completed_keyless project_id m (n + 1) request.client_request_id end keyless,
              seen_after jobs next success,
            )
            refl,
      )

  pub merged :
      request.client_request_id ≡ none
      → revise_edit env request ≡ ok edit
      → storable edit.content edit.tags edit.change_reason edit.source edit.author_client ≡ true
      → (u : Db) × (revise env project_id m (record request { expected_revision = n }) s
          ≡ ok (revise_succeeded (to_view (r, revised)) n, u))
  unfolding revise revise_edit revise_claimed report pure ◌>>=◌
  merged keyless accepted fit_texts =
      let (u, reports) = succeeds keyless in
      let here =
        get_live project_id m s r v log found.rows found.log_is id found.mine found.live
          found.sound.1 found.sound.2 in
      (
        u,
        rw
            (
              accepted,
              claimed_keyless env project_id (revise_payload m n edit) request.client_request_id s
                  keyless,
              here,
              won (revise_edit-EditFits env request edit accepted fit_texts),
            )
            reports,
      )
