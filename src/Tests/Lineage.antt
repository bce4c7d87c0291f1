-- ===== src/Tests/Lineage.antt =====
-- A memory that another one superseded.
use mcp_shared_memory_hub.Prelude.{ℕ, ◌≤◌, ◌≡◌, ◌⊎◌, refl, some, [], ◌∷◌, length, first}
use mcp_shared_memory_hub.Domain.Enums.{superseded}
use mcp_shared_memory_hub.Domain.Errors.{ok}
use mcp_shared_memory_hub.Store.Tables.{Db}
use mcp_shared_memory_hub.Store.Tx.{◌>>=◌}
use mcp_shared_memory_hub.Store.Lineage.{next_link, chain_from, lineage}
use mcp_shared_memory_hub.Store.Lineage.Chain.{IsChain, EndsAt, lineage-IsChain}
use mcp_shared_memory_hub.Tests.Data.{small_db, first_memory}

abbrev replaced_db : Db
replaced_db = record small_db {
  memories =
      record first_memory { status = superseded; superseded_at = some 9; superseded_by_id = some 8 }
      ∷ record first_memory { id = 8 }
      ∷ [];
}

walked : lineage 1 7 replaced_db ≡ ok (7 ∷ 8 ∷ [], replaced_db)
unfolding lineage chain_from next_link ◌>>=◌
walked = refl

lineage-IsChain_example :
    (first {A = ℕ} (7 ∷ 8 ∷ []) ≡ some 7)
    × IsChain 1 replaced_db (7 ∷ 8 ∷ [])
    × (length {A = ℕ} (7 ∷ 8 ∷ []) ≤ 65)
    × ((length {A = ℕ} (7 ∷ 8 ∷ []) ≡ 65) ⊎ EndsAt 1 replaced_db (some 7) (7 ∷ 8 ∷ []))
lineage-IsChain_example = lineage-IsChain 1 7 replaced_db replaced_db (7 ∷ 8 ∷ []) refl walked
