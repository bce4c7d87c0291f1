-- ===== src/Store/Lineage.antt =====
-- src/memhub/persistence/repositories/truth.py: the walk from a retired memory to the current one.
pub mod Chain
use mcp_shared_memory_hub.Prelude.{
  ℕ, zero, suc, ◌+◌, ◌&&◌, Option, none, some, List, [], ◌∷◌, map, ◌==◌, first, select_where,
}
use mcp_shared_memory_hub.Store.Tables.{Db}
use mcp_shared_memory_hub.Store.Tx.{Tx, gets}

abbrev pub max_lineage_depth : ℕ
max_lineage_depth = 64

unfoldable pub next_link : ℕ → ℕ → Db → Option (Option ℕ)
next_link project_id memory_id db = first (
    map (λ m. m.superseded_by_id)
      (select_where (λ m. m.id == memory_id && m.project_id == project_id) db.memories))

-- the recursive CTE of `lineage`: the fuel is the number of rows that the depth cap leaves
unfoldable pub chain_from : ℕ → ℕ → Db → Option ℕ → List ℕ
chain_from zero project_id db link = []
chain_from (suc fuel) project_id db none = []
chain_from (suc fuel) project_id db (some memory_id) = elim (next_link project_id memory_id db) [
  | none ↦ []
  | some link ↦ memory_id ∷ chain_from fuel project_id db link
]

unfoldable pub lineage : ℕ → ℕ → Tx (List ℕ)
lineage project_id memory_id =
    gets λ db. chain_from (max_lineage_depth + 1) project_id db (some memory_id)
