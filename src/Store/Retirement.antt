-- ===== src/Store/Retirement.antt =====
-- src/memhub/persistence/repositories/truth.py: supersession and deletion.
use mcp_shared_memory_hub.Prelude.{
  ℕ, Bool, true, false, not, ◌&&◌, some, ◌==◌, any, update_where, if◌then◌else◌,
}
use mcp_shared_memory_hub.Domain.Enums.{superseded, deleted, is_active}
use mcp_shared_memory_hub.Domain.Errors.{err, integrity_error}
use mcp_shared_memory_hub.Store.Tables.{Memory}
use mcp_shared_memory_hub.Store.Memories.{has_memory}
use mcp_shared_memory_hub.Store.Dedup.{release_dedup_keys}
use mcp_shared_memory_hub.Store.Tx.{Tx, done, pure, gets, ◌>>=◌, ◌>>◌}

-- the WHERE clause of sql/cas_supersede.sql and sql/cas_forget.sql behind `id = :memory_id`
abbrev pub is_live : ℕ → Memory → Bool
is_live project_id m = m.project_id == project_id && is_active m.status

abbrev pub supersede_row : ℕ → ℕ → Memory → Memory
supersede_row winner_id now m = record m {
  status = superseded;
  superseded_at = some now;
  superseded_by_id = some winner_id;
  updated_at = now;
}

abbrev pub forget_row : ℕ → Memory → Memory
forget_row now m = record m { status = deleted; deleted_at = some now; updated_at = now }

-- sql/cas_supersede.sql: the row is only hit if the winner is another memory of the same project
unfoldable pub cas_supersede : ℕ → ℕ → ℕ → Tx Bool
cas_supersede project_id memory_id winner_id db =
    let hit : Memory → Bool = λ m. m.id == memory_id && is_live project_id m in
    if not (any hit db.memories)
    then done false db
    else if has_memory project_id winner_id db && not (winner_id == memory_id)
    then done true
        (record db { memories = update_where hit (supersede_row winner_id db.now) db.memories })
    else err integrity_error

-- sql/cas_forget.sql
unfoldable pub cas_forget : ℕ → ℕ → Tx Bool
cas_forget project_id memory_id db =
    let hit : Memory → Bool = λ m. m.id == memory_id && is_live project_id m in
    done (any hit db.memories)
      (record db { memories = update_where hit (forget_row db.now) db.memories })

unfoldable pub release_if : ℕ → ℕ → Bool → Tx Bool
release_if project_id memory_id false = pure false
release_if project_id memory_id true = do release_dedup_keys project_id memory_id; pure true

unfoldable pub supersede : ℕ → ℕ → ℕ → Tx Bool
supersede project_id memory_id winner_id = do
  retired ← cas_supersede project_id memory_id winner_id
  release_if project_id memory_id retired

unfoldable pub forget : ℕ → ℕ → Tx Bool
forget project_id memory_id = do
  removed ← cas_forget project_id memory_id
  release_if project_id memory_id removed

unfoldable pub exists : ℕ → ℕ → Tx Bool
exists project_id memory_id = gets (has_memory project_id memory_id)
