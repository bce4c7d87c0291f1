-- ===== src/Services/WellFormed.antt =====
-- The requests of src/memhub/services and the well-formedness of the store.
use mcp_shared_memory_hub.Prelude.{ℕ, refl, inl, inr, List, [], ◌∷◌, Text, All, ◌==◌, Bool-cases}
use mcp_shared_memory_hub.Store.Tables.{Memory, MemoryRevision, MemoryDedupKey, Db}
use mcp_shared_memory_hub.Store.Guarantee.{IsStep, Guarantees}
use mcp_shared_memory_hub.Store.Memories.{Draft, new_memory, first_revision}
use mcp_shared_memory_hub.Store.Retirement.{supersede_row, forget_row}
use mcp_shared_memory_hub.Store.Invariant.{rows_of, log_of, keys_of, OwnsKey, IsSound, IsWellFormed}
use mcp_shared_memory_hub.Store.Invariant.Writes.{after_create, after_create-IsWellFormed}
use mcp_shared_memory_hub.Store.Invariant.Cas.{compare_and_set-Guarantees, after_cas-IsWellFormed}
use mcp_shared_memory_hub.Store.Invariant.Retire.{
  after_retire-IsWellFormed, supersede-Guarantees, forget-Guarantees, supersede_row-IsRetirement,
  forget_row-IsRetirement,
}
use mcp_shared_memory_hub.Services.Remember.{speculate}
use mcp_shared_memory_hub.Services.Speculation.{key_row, speculate-Guarantees}
use mcp_shared_memory_hub.Services.Steps.{SameTruth, IsStoreStep}
use mcp_shared_memory_hub.Services.Requests.{Arrival, serve_all}
use mcp_shared_memory_hub.Services.Requests.Keeps.{Rely, serve_all-keeps}

abbrev pub KeepsWellFormed : Db → Db → Type 0
KeepsWellFormed s t = IsWellFormed s → IsWellFormed t

keeps-IsStep : IsStep KeepsWellFormed
keeps-IsStep = record { stay = λ s h. h; trans = λ s t u f g h. g (f h) }

same-keeps : (s t : Db) → SameTruth s t → KeepsWellFormed s t
same-keeps s t e wf m = rw (e.memories, e.memory_revisions, e.memory_dedup_keys) (wf m)

own-IsSound :
    (r : Memory) (k : MemoryDedupKey) (rest : List Memory) (log : List MemoryRevision)
    (keys : List MemoryDedupKey)
    → OwnsKey r k
    → IsSound (r ∷ rest) log keys
    → IsSound (r ∷ rest) log (k ∷ keys)
own-IsSound r k [] log keys own h = (h.0, (own, h.1), h.2)
own-IsSound r k (r' ∷ rest) log keys own h = h

-- the store after a fresh memory has taken its dedup key
keyed-IsWellFormed :
    (new_id project_id hash_version : ℕ) (content_hash : Text) (draft : Draft) (s : Db)
    → IsWellFormed (after_create new_id project_id draft s)
    → IsWellFormed (record (after_create new_id project_id draft s) {
      memory_dedup_keys = key_row project_id hash_version content_hash new_id ∷ s.memory_dedup_keys;
    })
keyed-IsWellFormed new_id project_id hash_version content_hash draft s wf m =
    elim (Bool-cases (new_id == m)) [
      | inl e ↦ rw e (
          own-IsSound (new_memory new_id project_id draft s.now) _ (rows_of m s)
            (first_revision new_id project_id draft s.now ∷ log_of m s) (keys_of m s) (refl, refl)
            (rw e at (wf m)))
      | inr e ↦ rw e (rw e at (wf m))
    ]

speculate-keeps :
    (new_id project_id : ℕ) (draft : Draft)
    → Guarantees KeepsWellFormed (speculate new_id project_id draft)
speculate-keeps =
    speculate-Guarantees keeps-IsStep
      (λ new_id project_id draft s unused.
        after_create-IsWellFormed new_id project_id draft s unused)
      (λ new_id project_id hash_version content_hash draft s.
        keyed-IsWellFormed new_id project_id hash_version content_hash draft s)

pub well_formed_step : IsStoreStep KeepsWellFormed
well_formed_step = record {
  step = keeps-IsStep;
  same = same-keeps;
  speculates = speculate-keeps;
  compares = λ project_id memory_id expected edit.
      compare_and_set-Guarantees keeps-IsStep project_id memory_id expected edit
        (after_cas-IsWellFormed project_id memory_id expected edit);
  supersedes = λ project_id memory_id winner_id.
      supersede-Guarantees keeps-IsStep project_id memory_id winner_id λ s.
        after_retire-IsWellFormed project_id memory_id (supersede_row winner_id s.now)
          (supersede_row-IsRetirement winner_id s.now) s;
  forgets = λ project_id memory_id. forget-Guarantees keeps-IsStep project_id memory_id λ s.
      after_retire-IsWellFormed project_id memory_id (forget_row s.now)
        (forget_row-IsRetirement s.now) s;
}

-- Whatever requests arrive, from a well-formed store and beside processes that keep it so, the store
-- that they leave is well formed: every memory has one row, revisions 1 .. n of which only the last is
-- current, and only an active memory holds dedup keys, of its own project.
pub serve_all-IsWellFormed :
    (arrivals : List Arrival) (db : Db)
    → All (Rely well_formed_step) arrivals
    → IsWellFormed db
    → IsWellFormed (serve_all arrivals db)
serve_all-IsWellFormed arrivals db rely wf = serve_all-keeps well_formed_step arrivals db rely wf
