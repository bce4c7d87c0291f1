-- ===== src/Services/Revise/Merged.antt =====
-- The retry of a `revise` that reported a conflict, with the revision that it reported.
use mcp_shared_memory_hub.Prelude.{ℕ, ◌+◌, ◌≡◌, sym, subst, subst₂, true, none, List, arith}
use mcp_shared_memory_hub.Domain.Errors.{ok}
use mcp_shared_memory_hub.Domain.Models.{MemoryView, revise_succeeded, revise_conflicted}
use mcp_shared_memory_hub.Store.Tables.{Memory, MemoryRevision, AuditEvent, Db}
use mcp_shared_memory_hub.Store.Memories.{Edit, unexpired, storable, optional_fits}
use mcp_shared_memory_hub.Store.Invariant.{IsWellFormed}
use mcp_shared_memory_hub.Services.Memories.{Env, ReviseRequest, to_view}
use mcp_shared_memory_hub.Services.Revise.{revise_edit, revise}
use mcp_shared_memory_hub.Services.Revise.Conflict.{noted, revise-Conflicted}
use mcp_shared_memory_hub.Services.Revise.Found.{IsFound}
use mcp_shared_memory_hub.Services.Revise.Success.{merged}

-- the view of a memory that was revised
abbrev pub with_edit : Edit → MemoryView → MemoryView
with_edit edit view = record view {
  revision_no = view.revision_no + 1;
  content = edit.content;
  tags = edit.tags;
  author_client = edit.author_client;
  author_kind = edit.author_kind;
  source = edit.source;
}

module _ (env retry_env : Env) (project_id m : ℕ) (request retry : ReviseRequest) (edit : Edit)
    (now : ℕ) where
  abbrev Succeeds : MemoryView → Db → Type 0
  Succeeds current t =
      (u : Db) × (revise retry_env project_id m
          (record retry { expected_revision = current.revision_no }) (record t { now = now })
        ≡ ok (revise_succeeded (with_edit edit current) current.revision_no, u))

  found_again :
      (s : Db) (event : AuditEvent) (r : Memory) (v : MemoryRevision) (log : List MemoryRevision)
      → IsFound project_id m s.now s r v log
      → unexpired now r.expires_at ≡ true
      → retry.client_request_id ≡ none
      → revise_edit retry_env retry ≡ ok edit
      → storable edit.content edit.tags edit.change_reason edit.source edit.author_client ≡ true
      → Succeeds (to_view (r, v)) (noted event s)
  found_again s event r v log found fresh keyless accepted fit_texts =
      merged retry_env project_id m v.revision_no retry edit (record (noted event s) { now = now })
        r v log
        (record {
          rows = found.rows;
          log_is = found.log_is;
          mine = found.mine;
          live = let live = found.live in ground arith;
          sound = found.sound;
        })
        (sym found.sound.0) keyless accepted fit_texts

  -- A client that was told of a conflict, in a well-formed store, can merge: whatever it sends then, if
  -- it passes the validation and has no U+0000 in its texts, a `revise` with the revision number that the
  -- conflict reported succeeds on the store that the conflict left, at any clock at which the memory has
  -- not expired. Its answer is the memory as the conflict reported it, at the next revision number, with
  -- the content, tags, author and source of the new request, and still with the time of the last update
  -- before it. Neither request has an idempotency key.
  pub conflict_merged :
      (s t : Db) (current : MemoryView) (expected : ℕ)
      → IsWellFormed s
      → request.client_request_id ≡ none
      → revise env project_id m request s ≡ ok (revise_conflicted current expected, t)
      → unexpired now current.expires_at ≡ true
      → retry.client_request_id ≡ none
      → revise_edit retry_env retry ≡ ok edit
      → storable edit.content edit.tags edit.change_reason edit.source edit.author_client ≡ true
      → optional_fits retry.request_id ≡ true
      → (u : Db) × (revise retry_env project_id m
            (record retry { expected_revision = current.revision_no })
            (record t { now = now })
          ≡ ok (revise_succeeded (with_edit edit current) current.revision_no, u))
  conflict_merged s t current expected wf keyless conflicts fresh keyless' accepted fit_texts _ =
      let c =
        revise-Conflicted env project_id m request s t current expected wf keyless conflicts in
      subst₂ Succeeds (sym c.shown) (sym c.after) (
        found_again s c.event c.row c.revision c.log c.is_found
          (subst (λ x. unexpired now x.expires_at ≡ true) c.shown fresh) keyless' accepted
          fit_texts)
