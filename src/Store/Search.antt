-- ===== src/Store/Search.antt =====
-- src/memhub/persistence/repositories/memories.py: `search` and `count`. PostgreSQL's full text search
-- and the scores of src/memhub/retrieval/ranking.py are a parameter.
use mcp_shared_memory_hub.Prelude.{
  ℕ, Bool, true, false, not, ◌&&◌, ◌||◌, Option, none, some, List, [], ◌∷◌, ltb, ◌==◌, Text,
  text_eq, length, take, any, is_empty, select_where, sort_by,
}
use mcp_shared_memory_hub.Domain.Enums.{MemoryType, type_eq}
use mcp_shared_memory_hub.Store.Tables.{Memory, MemoryRevision, Db}
use mcp_shared_memory_hub.Store.Tx.{Tx, gets}
use mcp_shared_memory_hub.Store.Memories.{current_revisions}

-- `matches` is content_tsv @@ websearch_to_tsquery(query), on the content that the vector is generated
-- from; `scores_above` compares the final scores of two rows for a query at a time.
pub record TextSearch : Type 0 where
  pub matches : Text → Text → Bool
  pub scores_above : Text → ℕ → Memory × MemoryRevision → Memory × MemoryRevision → Bool

-- the keyword arguments of `search` and `count`; an empty list filters nothing
pub record Filters : Type 0 where
  pub query : Option Text
  pub types : List MemoryType
  pub tags : List Text

abbrev pub of_types : List MemoryType → MemoryType → Bool
of_types types t = is_empty types || any (λ u. type_eq u t) types

-- tags.contains(_): all of them
abbrev pub carries_all : List Text → List Text → Bool
carries_all [] tags = true
carries_all (t ∷ asked) tags = any (text_eq t) tags && carries_all asked tags

abbrev pub matches_query : TextSearch → Option Text → Text → Bool
matches_query engine none content = true
matches_query engine (some query) content = engine.matches query content

-- `_apply_filters`
unfoldable pub passes_filters : TextSearch → Filters → Memory × MemoryRevision → Bool
passes_filters engine filters x =
    of_types filters.types x.0.type
    && carries_all filters.tags x.1.tags
    && matches_query engine filters.query x.1.content

-- created_at DESC, id
abbrev pub newer : Memory → Memory → Bool
newer m n = ltb n.created_at m.created_at || (m.created_at == n.created_at && ltb m.id n.id)

abbrev pub comes_before :
    TextSearch → ℕ → Option Text → Memory × MemoryRevision → Memory × MemoryRevision → Bool
comes_before engine now none x y =
    ltb y.0.importance x.0.importance || (x.0.importance == y.0.importance && newer x.0 y.0)
comes_before engine now (some query) x y =
    engine.scores_above query now x y || (not (engine.scores_above query now y x) && newer x.0 y.0)

unfoldable pub matching : TextSearch → ℕ → Filters → Db → List (Memory × MemoryRevision)
matching engine project_id filters db =
    select_where (passes_filters engine filters) (current_revisions project_id false db)

unfoldable pub count : TextSearch → ℕ → Filters → Tx ℕ
count engine project_id filters = gets λ db. length (matching engine project_id filters db)

unfoldable pub search_rows : TextSearch → ℕ → Filters → ℕ → Tx (List (Memory × MemoryRevision))
search_rows engine project_id filters limit = gets λ db.
    take limit
      (sort_by (comes_before engine db.now filters.query) (matching engine project_id filters db))
