-- ===== src/Store/Dedup.antt =====
-- src/memhub/persistence/repositories/truth.py: the deduplication keys.
use mcp_shared_memory_hub.Prelude.{
  ℕ, Bool, ◌&&◌, Option, none, some, ◌∷◌, map, ◌==◌, Text, text_eq, first, any, select_where,
  delete_where, if◌then◌else◌,
}
use mcp_shared_memory_hub.Domain.Errors.{err, integrity_error}
use mcp_shared_memory_hub.Store.Tables.{MemoryDedupKey}
use mcp_shared_memory_hub.Store.Memories.{has_memory}
use mcp_shared_memory_hub.Store.Tx.{Tx, done, modify, gets}

-- the primary key of `memory_dedup_keys`
abbrev pub key_matches : ℕ → ℕ → Text → MemoryDedupKey → Bool
key_matches project_id hash_version content_hash k =
    k.project_id == project_id
    && k.hash_version == hash_version
    && text_eq k.content_hash content_hash

-- sql/claim_dedup_key.sql
unfoldable pub claim_dedup_key : ℕ → Text → ℕ → ℕ → Tx (Option ℕ)
claim_dedup_key project_id content_hash hash_version memory_id db =
    if any (key_matches project_id hash_version content_hash) db.memory_dedup_keys
    then done none db
    else if has_memory project_id memory_id db
    then done (some memory_id) (record db {
      memory_dedup_keys =
          record {
            project_id = project_id;
            hash_version = hash_version;
            content_hash = content_hash;
            memory_id = memory_id;
          }
          ∷ db.memory_dedup_keys;
    })
    else err integrity_error

unfoldable pub dedup_key_holder : ℕ → Text → ℕ → Tx (Option ℕ)
dedup_key_holder project_id content_hash hash_version = gets λ db. first (
    map (λ k. k.memory_id)
      (select_where (key_matches project_id hash_version content_hash) db.memory_dedup_keys))

unfoldable pub release_dedup_keys : ℕ → ℕ → Tx (Unit {0})
release_dedup_keys project_id memory_id = modify λ db. record db {
  memory_dedup_keys =
      delete_where (λ k. k.memory_id == memory_id && k.project_id == project_id)
        db.memory_dedup_keys;
}
