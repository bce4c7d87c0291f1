-- ===== src/Services/Forgotten.antt =====
-- What an answer of `forget` means for the memory.
use mcp_shared_memory_hub.Prelude.{
  ℕ, ◌≡◌, refl, sym, ◌∙◌, inl, inr, Bool, true, false, List, [], ◌∷◌, Text, Option, All, arith,
  ◌==◌, ==_refl, any, update_where, if◌then◌else◌,
}
use mcp_shared_memory_hub.Domain.Enums.{is_active}
use mcp_shared_memory_hub.Domain.Errors.{ok, Result-cases}
use mcp_shared_memory_hub.Domain.Models.{ForgetOutcome, forgotten, already_forgotten}
use mcp_shared_memory_hub.Store.Tables.{Memory, MemoryRevision, MemoryDedupKey, Db}
use mcp_shared_memory_hub.Store.Tx.{◌>>=◌}
use mcp_shared_memory_hub.Store.Guarantee.{Guarantees}
use mcp_shared_memory_hub.Store.Audit.{record_event}
use mcp_shared_memory_hub.Store.Memories.{has_memory, current_revisions}
use mcp_shared_memory_hub.Store.Retirement
use mcp_shared_memory_hub.Store.Retirement.{is_live, forget_row, exists}
use mcp_shared_memory_hub.Store.Invariant.{rows_of, log_of, keys_of, IsSound, IsWellFormed}
use mcp_shared_memory_hub.Store.Invariant.Retire.{
  after_retire, rows_of-after_retire, forget-inv, forget_row-IsRetirement,
}
use mcp_shared_memory_hub.Services.Forget.{forget}
use mcp_shared_memory_hub.Services.Requests.{Arrival, serve_all}
use mcp_shared_memory_hub.Services.Requests.Keeps.{Rely, forget-keeps}
use mcp_shared_memory_hub.Services.WellFormed.{KeepsWellFormed, well_formed_step}
use mcp_shared_memory_hub.Services.Permanent.{permanent_step}
use mcp_shared_memory_hub.Services.Retrieval.{any_at, is_of, IsRetired, retired_never_retrieved}

module _ (project_id memory_id : ℕ) (client : Text) (request_id : Option Text) where
  -- the parts of a `forget` that returned
  forget-parts :
      (s : Db) (o : ForgetOutcome) (s' : Db)
      → forget project_id memory_id client request_id s ≡ ok (o, s')
      → (b : Bool) × (u : Db) × (has_memory project_id memory_id s ≡ true)
        × (Retirement.forget project_id memory_id s ≡ ok (b, u))
        × (s'.memories ≡ u.memories)
        × (o ≡ (if b then forgotten else already_forgotten))
  unfolding forget exists record_event ◌>>=◌
  forget-parts s o s' h = elim (Result-cases (Retirement.forget project_id memory_id s)) [
    | inl ((b, u), e) ↦ (b, u, ground arith, e, ground arith, ground arith)
    | inr (c, e) ↦ absurd (ground arith)
  ]

  live_rows :
      (rows : List Memory) (log : List MemoryRevision) (keys : List MemoryDedupKey) (now : ℕ)
      (b : Bool)
      → IsSound rows log keys
      → any (λ r. r.project_id == project_id) rows ≡ true
      → b ≡ any (is_live project_id) rows
      → (r : Memory) × ((if b
            then update_where (is_live project_id) (forget_row now) rows
            else rows)
          ≡ r ∷ [])
        × (is_active r.status ≡ false)
  live_rows [] log keys now b sound mine hit = absurd (ground arith)
  live_rows (r ∷ []) log keys now true sound mine hit = (forget_row now r, ground arith, refl)
  live_rows (r ∷ []) log keys now false sound mine hit = (r, refl, ground arith)
  live_rows (r ∷ r' ∷ rows) log keys now b sound mine hit = absurd sound

  rows_after :
      (s u : Db) (b : Bool)
      → u ≡ (
          if b
          then after_retire project_id memory_id
              (forget_row s.now)
              (forget_row-IsRetirement s.now)
              s
          else s)
      → rows_of memory_id u ≡ (
          if b
          then update_where (is_live project_id) (forget_row s.now) (rows_of memory_id s)
          else rows_of memory_id s)
  rows_after s u false e = rw e refl
  rows_after s u true e = rw e (
      rows_of-after_retire project_id memory_id (forget_row s.now) (forget_row-IsRetirement s.now) s
        memory_id
      ∙ rw (==_refl memory_id) refl)

  -- A memory that `forget` has answered for, with either answer, is retired.
  pub forget-IsRetired :
      (s : Db) (o : ForgetOutcome) (s' : Db)
      → forget project_id memory_id client request_id s ≡ ok (o, s')
      → IsWellFormed s
      → IsRetired memory_id s'
  forget-IsRetired s o s' h wf =
      let (b, u, known, removed, same, _) = forget-parts s o s' h in
      let (hit, after) = forget-inv project_id memory_id s b u removed in
      let (r, rows, retired) =
        live_rows (rows_of memory_id s) (log_of memory_id s) (keys_of memory_id s) s.now b
          (wf memory_id)
          (sym (any_at memory_id (λ r. r.project_id == project_id) s.memories) ∙ known)
          (hit ∙ any_at memory_id (is_live project_id) s.memories) in
      (r, rw same (rows_after s u b after ∙ rows), retired)

-- After `forget` has answered, with either outcome, the memory is in no project's retrieval, whatever
-- requests follow, from a well-formed store and beside processes that keep the store well formed and
-- its past.
pub forgotten_never_retrieved :
    (project_id memory_id other : ℕ) (client : Text) (request_id : Option Text) (s s' : Db)
    (o : ForgetOutcome) (arrivals : List Arrival)
    → IsWellFormed s
    → forget project_id memory_id client request_id s ≡ ok (o, s')
    → All (Rely well_formed_step) arrivals
    → All (Rely permanent_step) arrivals
    → any (is_of memory_id) (current_revisions other false (serve_all arrivals s')) ≡ false
forgotten_never_retrieved project_id memory_id other client request_id s s' o arrivals wf h rely
      rely' =
    retired_never_retrieved arrivals s' memory_id other rely rely' (forget_step.at s o s' h wf)
      (forget-IsRetired project_id memory_id client request_id s o s' h wf)
  where
    forget_step : Guarantees KeepsWellFormed (forget project_id memory_id client request_id)
    forget_step = forget-keeps well_formed_step project_id memory_id client request_id
