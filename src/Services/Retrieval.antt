-- ===== src/Services/Retrieval.antt =====
-- Retrieval (src/memhub/retrieval/filters.py) of a memory that has been retired.
use mcp_shared_memory_hub.Prelude.{
  ℕ, ◌≡◌, refl, subst, ◌∙◌, ◌⊎◌, inl, inr, Bool, true, false, ◌&&◌, ◌||◌, List, [], ◌∷◌, ◌++◌, map,
  All, arith, ◌==◌, any, select_where,
}
use mcp_shared_memory_hub.Domain.Enums.{is_active}
use mcp_shared_memory_hub.Store.Tables.{Memory, MemoryRevision, Db}
use mcp_shared_memory_hub.Store.Memories.{join, is_retrievable, current_revisions}
use mcp_shared_memory_hub.Store.Invariant.{rows_of, log_of, keys_of, IsSound, IsWellFormed}
use mcp_shared_memory_hub.Store.Permanence.{RowsEvolve, IsPermanent}
use mcp_shared_memory_hub.Services.Requests.{Arrival, serve_all}
use mcp_shared_memory_hub.Services.Requests.Keeps.{Rely}
use mcp_shared_memory_hub.Services.WellFormed.{well_formed_step, serve_all-IsWellFormed}
use mcp_shared_memory_hub.Services.Permanent.{permanent_step, serve_all-IsPermanent}

any-select {ℓ} :
    {A : Type ℓ} (p q : A → Bool) (xs ys : List A)
    → any p (select_where q (xs ++ ys)) ≡ (any p (select_where q xs) || any p (select_where q ys))
any-select p q [] ys = refl
any-select p q (x ∷ xs) ys = ground (arith, any-select p q xs ys)

-- a row of a retrieval is of memory `m`
abbrev pub is_of : ℕ → Memory × MemoryRevision → Bool
is_of m x = x.0.id == m

-- the stage-0 filter
abbrev passes : ℕ → ℕ → Memory × MemoryRevision → Bool
passes project_id now x = x.0.project_id == project_id && (false || is_retrievable now x)

module _ (m project_id now : ℕ) where
  row_out :
      (r : Memory) (log : List MemoryRevision)
      → (r.id == m) && is_active r.status ≡ false
      → any (is_of m) (select_where (passes project_id now) (map (λ v. (r, v)) log)) ≡ false
  row_out r [] h = refl
  row_out r (v ∷ log) h = ground (arith, row_out r log h)

  rows_out :
      (rows : List Memory) (revisions : List MemoryRevision)
      → any (λ r. r.id == m && is_active r.status) rows ≡ false
      → any (is_of m) (select_where (passes project_id now) (join rows revisions)) ≡ false
  rows_out [] revisions h = refl
  rows_out (r ∷ rows) revisions h =
      let mine : List MemoryRevision =
        select_where (λ v. v.memory_id == r.id && v.project_id == r.project_id) revisions in
      rw
        (any-select (is_of m) (passes project_id now) (map (λ v. (r, v)) mine)
          (join rows revisions))
        (rw (row_out r mine (ground arith), rows_out rows revisions (ground arith)))

pub any_at :
    (m : ℕ) (q : Memory → Bool) (rows : List Memory)
    → any (λ r. r.id == m && q r) rows ≡ any q (select_where (λ r. r.id == m) rows)
any_at m q [] = refl
any_at m q (r ∷ rows) = ground (arith, any_at m q rows)

-- The retirement of a memory, as the tables show it.
abbrev pub IsRetired : ℕ → Db → Type 0
IsRetired m db = (r : Memory) × (rows_of m db ≡ r ∷ []) × (is_active r.status ≡ false)

pub retired_out :
    (m project_id : ℕ) (db : Db)
    → IsRetired m db
    → any (is_of m) (current_revisions project_id false db) ≡ false
unfolding current_revisions
retired_out m project_id db (r, here, retired) =
    rows_out m project_id db.now db.memories db.memory_revisions
      (any_at m (λ r. is_active r.status) db.memories ∙ rw (here, retired) refl)

evolved-IsRetired :
    (m : ℕ) (r : Memory) (rows' : List Memory) (db : Db)
    → rows_of m db ≡ rows'
    → RowsEvolve (r ∷ []) rows'
    → is_active r.status ≡ false
    → IsSound rows' (log_of m db) (keys_of m db)
    → IsRetired m db
evolved-IsRetired m r [] db e h retired sound = absurd h
evolved-IsRetired m r (r' ∷ []) db e h retired sound = (r', e, final r' h.0.final)
  where
    final : (x : Memory) → (is_active r.status ≡ true) ⊎ (x ≡ r) → is_active x.status ≡ false
    final x (inl active) = absurd (ground arith)
    final x (inr same) = rw same retired
evolved-IsRetired m r (r' ∷ r'' ∷ rows) db e h retired sound = absurd sound

-- what is retired stays so, in a store that keeps its past and is still well formed
pub kept-IsRetired :
    (m : ℕ) (db t : Db) → IsPermanent db t → IsWellFormed t → IsRetired m db → IsRetired m t
kept-IsRetired m db t permanent wf (r, here, retired) =
    evolved-IsRetired m r (rows_of m t) t refl
      (subst (λ rows. RowsEvolve rows (rows_of m t)) here (permanent m).0) retired (wf m)

-- Once a memory is retired in a well-formed store, it is in no project's retrieval after any
-- requests that any clients make, beside processes that keep the store well formed and its past.
pub retired_never_retrieved :
    (arrivals : List Arrival) (db : Db) (m project_id : ℕ)
    → All (Rely well_formed_step) arrivals
    → All (Rely permanent_step) arrivals
    → IsWellFormed db
    → IsRetired m db
    → any (is_of m) (current_revisions project_id false (serve_all arrivals db)) ≡ false
retired_never_retrieved arrivals db m project_id rely rely' wf retired =
    let t = serve_all arrivals db in
    retired_out m project_id t (
      kept-IsRetired m db t (serve_all-IsPermanent arrivals db rely')
        (serve_all-IsWellFormed arrivals db rely wf) retired)
