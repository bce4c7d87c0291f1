-- ===== src/Services/Expiry.antt =====
-- What an expired memory does to the next assertion of its content.
use mcp_shared_memory_hub.Prelude.{
  ℕ, ◌≡◌, refl, Bool, false, not, ◌&&◌, ◌||◌, List, [], ◌∷◌, ◌++◌, map, arith, ◌==◌, any,
  select_where,
}
use mcp_shared_memory_hub.Domain.Errors.{err, memory_not_found}
use mcp_shared_memory_hub.Store.Tables.{Memory, MemoryRevision, MemoryDedupKey, Db}
use mcp_shared_memory_hub.Store.Tx.{◌>>=◌}
use mcp_shared_memory_hub.Store.Memories.{
  Draft, join, unexpired, is_retrievable, current_revisions, get,
}
use mcp_shared_memory_hub.Store.Dedup.{key_matches, dedup_key_holder}
use mcp_shared_memory_hub.Services.Memories.{RememberRequest, get_memory, deduplicate}
use mcp_shared_memory_hub.Services.Remember.{assert_again}

module _ (project_id m now : ℕ) where
  -- what `get` selects from the join
  abbrev gets_row : Memory × MemoryRevision → Bool
  gets_row x = x.0.id == m && (not false || x.1.is_current)

  abbrev passes : Memory × MemoryRevision → Bool
  passes x = x.0.project_id == project_id && (false || is_retrievable now x)

  abbrev unexpired_row : Memory → Bool
  unexpired_row r = r.id == m && unexpired now r.expires_at

  abbrev found : List (Memory × MemoryRevision) → List (Memory × MemoryRevision)
  found rows = select_where gets_row (select_where passes rows)

  found-append :
      (xs ys : List (Memory × MemoryRevision))
      → found xs ≡ []
      → found ys ≡ []
      → found (xs ++ ys) ≡ []
  found-append [] ys h k = k
  found-append (x ∷ xs) ys h k = ground (arith, found-append xs ys)

  found-row :
      (r : Memory) (log : List MemoryRevision)
      → unexpired_row r ≡ false
      → found (map (λ v. (r, v)) log) ≡ []
  found-row r [] h = refl
  found-row r (v ∷ log) h = ground (arith, found-row r log)

  found-join :
      (rows : List Memory) (log : List MemoryRevision)
      → any unexpired_row rows ≡ false
      → found (join rows log) ≡ []
  found-join [] log h = refl
  found-join (r ∷ rows) log h =
      found-append
        (map (λ v. (r, v))
          (select_where (λ v. v.memory_id == r.id && v.project_id == r.project_id) log))
        (join rows log) (found-row r _ (ground arith)) (found-join rows log (ground arith))

-- While the dedup key of a content is held by a memory whose rows have all expired, an assertion of
-- the content that finds the key taken raises MemoryNotFoundError.
pub expired_reasserted :
    (project_id m : ℕ) (draft : Draft) (request : RememberRequest) (key : MemoryDedupKey)
    (keys : List MemoryDedupKey) (db : Db)
    → select_where
        (key_matches project_id draft.hash_version draft.content_hash)
        db.memory_dedup_keys
      ≡ key ∷ keys
    → key.memory_id ≡ m
    → any (unexpired_row project_id m db.now) db.memories ≡ false
    → assert_again project_id draft request db ≡ err memory_not_found
unfolding assert_again dedup_key_holder deduplicate get_memory get current_revisions ◌>>=◌
expired_reasserted project_id m draft request key keys db held holder expired =
    rw (held, holder, found-join project_id m db.now db.memories db.memory_revisions expired) refl
