-- ===== src/Store/Invariant.antt =====
-- The well-formedness of the store, as persistence/models.py means it: one row for each memory, a
-- revision log 1 .. n of which only the last is current, and dedup keys of active memories only.
pub mod Writes
pub mod Cas
pub mod Retire
use mcp_shared_memory_hub.Prelude.{ℕ, suc, ◌≡◌, true, false, none, some, List, [], ◌∷◌, at, All}
use mcp_shared_memory_hub.Domain.Enums.{MemoryStatus, active, superseded, deleted, is_active}
use mcp_shared_memory_hub.Store.Tables.{Memory, MemoryRevision, MemoryDedupKey, Db}

-- the rows of one memory in each table
abbrev pub rows_of : ℕ → Db → List Memory
rows_of m db = at (λ r. r.id) m db.memories

abbrev pub log_of : ℕ → Db → List MemoryRevision
log_of m db = at (λ r. r.memory_id) m db.memory_revisions

abbrev pub keys_of : ℕ → Db → List MemoryDedupKey
keys_of m db = at (λ k. k.memory_id) m db.memory_dedup_keys

-- the revisions before number `n`, newest first: n - 1 down to 1, none of them current
abbrev pub IsHistory : ℕ → ℕ → List MemoryRevision → Type 0
IsHistory project_id n [] = n ≡ 1
IsHistory project_id n (r ∷ log) =
    (suc r.revision_no ≡ n)
    × (r.is_current ≡ false)
    × (r.project_id ≡ project_id)
    × IsHistory project_id r.revision_no log

-- revision `n` is current, and before it stand n - 1 down to 1
abbrev pub IsLog : ℕ → ℕ → List MemoryRevision → Type 0
IsLog project_id n [] = ⊥
IsLog project_id n (r ∷ log) =
    (r.revision_no ≡ n)
    × (r.is_current ≡ true)
    × (r.project_id ≡ project_id)
    × IsHistory project_id n log

-- the columns that each status fills
abbrev pub StatusFits : MemoryStatus → Memory → Type 0
StatusFits active r = (r.superseded_by_id ≡ none) × (r.superseded_at ≡ none) × (r.deleted_at ≡ none)
StatusFits superseded r =
    ((w : ℕ) × (r.superseded_by_id ≡ some w))
    × ((t : ℕ) × (r.superseded_at ≡ some t))
    × (r.deleted_at ≡ none)
StatusFits deleted r = (r.superseded_at ≡ none) × ((t : ℕ) × (r.deleted_at ≡ some t))

abbrev pub OwnsKey : Memory → MemoryDedupKey → Type 0
OwnsKey r k = (is_active r.status ≡ true) × (k.project_id ≡ r.project_id)

-- what the three tables hold of one memory
abbrev pub IsSound : List Memory → List MemoryRevision → List MemoryDedupKey → Type 0
IsSound [] log keys = (log ≡ []) × (keys ≡ [])
IsSound (r ∷ []) log keys =
    IsLog r.project_id r.current_revision_no log × All (OwnsKey r) keys × StatusFits r.status r
IsSound (r ∷ r' ∷ rows) log keys = ⊥

abbrev pub IsWellFormed : Db → Type 0
IsWellFormed db = (m : ℕ) → IsSound (rows_of m db) (log_of m db) (keys_of m db)
