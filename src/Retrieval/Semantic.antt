-- ===== src/Retrieval/Semantic.antt =====
-- src/memhub/retrieval/semantic.py: the nearest vectors of a project, by the statement of
-- `search_by_vector`. pgvector is a parameter.
use mcp_shared_memory_hub.Prelude.{
  ℕ, Bool, ◌&&◌, List, [], ◌∷◌, ◌++◌, map, ◌==◌, Text, take, select_where, sort_by,
}
use mcp_shared_memory_hub.Store.Tables.{Memory, MemoryRevision, MemoryEmbedding, Db}
use mcp_shared_memory_hub.Store.Tx.{Tx, gets}
use mcp_shared_memory_hub.Store.Memories.{join, is_retrievable}
use mcp_shared_memory_hub.Store.Coverage.{vectors}

-- `within` is (e <=> q) <= max_distance for the query's vector and a stored one, `nearer` compares two
-- distances to the query, and `reached` is whether the iterative scan of the HNSW index reaches a row
-- before it stops.
pub record VectorSearch : Type 0 where
  pub within : Text → Text → Bool
  pub nearer : Text → Text → Text → Bool
  pub reached : Text → MemoryEmbedding → Bool

-- a memory, its revision and a vector of it
pub record Neighbour : Type 0 where
  pub row : Memory × MemoryRevision
  pub vector : MemoryEmbedding

abbrev pub with_vectors : Text → Db → List (Memory × MemoryRevision) → List Neighbour
with_vectors model db [] = []
with_vectors model db (x ∷ rows) =
    map (λ e. record { row = x; vector = e }) (vectors model db x) ++ with_vectors model db rows

abbrev pub is_near : VectorSearch → ℕ → ℕ → Text → Neighbour → Bool
is_near index project_id now query n =
    n.row.0.project_id == project_id
    && is_retrievable now n.row
    && index.within query n.vector.embedding
    && index.reached query n.vector

unfoldable pub near : VectorSearch → ℕ → Text → Text → Db → List Neighbour
near index project_id query model db =
    select_where (is_near index project_id db.now query)
      (with_vectors model db (join db.memories db.memory_revisions))

-- the ids, nearest first; the distances that come with them are not used
unfoldable pub search_by_vector : VectorSearch → ℕ → Text → Text → ℕ → Tx (List ℕ)
unfolding near
search_by_vector index project_id query model limit = gets λ db.
    map (λ n. n.row.0.id)
      (take limit (
        sort_by (λ a b. index.nearer query a.vector.embedding b.vector.embedding)
          (near index project_id query model db)))
