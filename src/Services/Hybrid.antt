-- ===== src/Services/Hybrid.antt =====
-- src/memhub/services/retrieval.py: lexical and semantic retrieval, fused by rank. What goes wrong
-- outside is a parameter: the embedder that gives no vector, and the error that PostgreSQL answers the
-- vector query with, after which the transaction is aborted and takes no other statement.
pub mod Rows
pub mod Sound
use mcp_shared_memory_hub.Prelude.{
  ℕ, ◌*◌, Bool, true, false, not, Option, none, some, List, [], ◌∷◌, ◌++◌, map, ◌==◌, Text, length,
  take, first, any, select_where, if◌then◌else◌,
}
use mcp_shared_memory_hub.Domain.Enums.{MemoryType}
use mcp_shared_memory_hub.Domain.Errors.{Error, query_canceled, in_failed_transaction}
use mcp_shared_memory_hub.Domain.Models.{MemoryView}
use mcp_shared_memory_hub.Store.Tables.{Memory, MemoryRevision}
use mcp_shared_memory_hub.Store.Tx.{Tx, pure, raise, ◌>>=◌}
use mcp_shared_memory_hub.Store.Memories.{get}
use mcp_shared_memory_hub.Store.Search.{TextSearch, search_rows}
use mcp_shared_memory_hub.Store.Coverage.{semantic_coverage}
use mcp_shared_memory_hub.Context.Floats.{Floats}
use mcp_shared_memory_hub.Retrieval.Fusion.{rrf_k, lexical, semantic, reciprocal_rank_fusion}
use mcp_shared_memory_hub.Retrieval.Semantic.{VectorSearch, search_by_vector}
use mcp_shared_memory_hub.Services.Memories.{to_view}
use mcp_shared_memory_hub.Services.Search.{
  MatchStrategy, Degraded, embedding_failed, timed_out, SearchResult, if_any,
}

abbrev pub overfetch : ℕ
overfetch = 3

-- EmbeddingPort; `embed` of one text, `none` for EmbeddingError
pub record Embedder : Type 0 where
  pub model_name : Text
  pub embed : Text → Option Text

-- what a hybrid search finds outside itself: PostgreSQL's two searches, the error that the vector query
-- raises if any, and the arithmetic of the scores
pub record Engines : Type 1 where
  pub text : TextSearch
  pub index : VectorSearch
  pub vector_query_raises : Option Error
  pub floats : Floats

pub record HybridRequest : Type 0 where
  pub query : Text
  pub types : List MemoryType
  pub tags : List Text
  pub limit : ℕ

-- what the `try` block leaves: the ranking, the reason if it is empty, and whether the transaction is
-- aborted
pub record Leg : Type 0 where
  pub ranking : List ℕ
  pub degraded : Option Degraded
  pub aborted : Bool

abbrev pub Row : Type 0
Row = Memory × MemoryRevision

-- `except DBAPIError`
unfoldable pub recovered : Error → Tx Leg
recovered query_canceled = pure (record { ranking = []; degraded = some timed_out; aborted = true })
recovered e = raise e

unfoldable pub vector_leg : VectorSearch → Option Error → ℕ → Text → Text → ℕ → Tx Leg
vector_leg index none project_id vector model candidates = do
  neighbours ← search_by_vector index project_id vector model candidates
  pure (record { ranking = neighbours; degraded = none; aborted = false })
vector_leg index (some e) project_id vector model candidates = recovered e

unfoldable pub embedded_leg : VectorSearch → Option Error → ℕ → Text → ℕ → Option Text → Tx Leg
embedded_leg index raises project_id model candidates none =
    pure (record { ranking = []; degraded = some embedding_failed; aborted = false })
embedded_leg index raises project_id model candidates (some vector) =
    vector_leg index raises project_id vector model candidates

-- a further statement of the transaction
unfoldable pub statement : {A : Type 0} → Bool → Tx A → Tx A
statement aborted m = if aborted then raise in_failed_transaction else m

-- a `dict` by id, in which a later row replaces an earlier one
abbrev pub index_rows : List Row → List Row → List Row
index_rows [] by_id = by_id
index_rows (x ∷ rows) by_id = index_rows rows (x ∷ by_id)

abbrev pub row_of : ℕ → List Row → Option Row
row_of n by_id = first (select_where (λ x. x.0.id == n) by_id)

abbrev pub is_known : List Row → ℕ → Bool
is_known by_id n = any (λ x. x.0.id == n) by_id

abbrev pub with_row : Option Row → List Row → List Row
with_row none by_id = by_id
with_row (some x) by_id = x ∷ by_id

unfoldable pub fetch_missing : ℕ → Bool → List ℕ → List Row → Tx (List Row)
fetch_missing project_id aborted [] by_id = pure by_id
fetch_missing project_id aborted (n ∷ missing) by_id = do
  found ← statement aborted (get project_id n false)
  fetch_missing project_id aborted missing (with_row found by_id)

abbrev pub with_view : Option Row → List MemoryView → List MemoryView
with_view none views = views
with_view (some x) views = to_view x ∷ views

unfoldable pub hydrate : List ℕ → List Row → List MemoryView
hydrate [] by_id = []
hydrate (n ∷ ids) by_id = with_view (row_of n by_id) (hydrate ids by_id)

-- set(_)
abbrev pub distinct : List ℕ → List ℕ
distinct [] = []
distinct (n ∷ ids) = if any (λ m. m == n) ids then distinct ids else n ∷ distinct ids

abbrev pub memory_ids : List Row → List ℕ
memory_ids rows = map (λ x. x.0.id) rows

unfoldable pub fused_ids : (fl : Floats) → List ℕ → List ℕ → ℕ → List ℕ
fused_ids fl lexical_ranking semantic_ranking limit =
    map (λ r. r.memory_id)
      (take limit (
        reciprocal_rank_fusion fl rrf_k (
          (record { name = lexical; weight = fl.decimal 1 0; ids = lexical_ranking })
          ∷ (record { name = semantic; weight = fl.decimal 1 0; ids = semantic_ranking })
          ∷ [])))

-- the fusion and what follows it
unfoldable pub fuse : Engines → Embedder → ℕ → ℕ → List Row → Leg → Tx SearchResult
fuse engines embedder project_id limit lexical_rows leg = do
  let fused = fused_ids engines.floats (memory_ids lexical_rows) leg.ranking limit
  let known = index_rows lexical_rows []
  by_id ←
      fetch_missing project_id leg.aborted (select_where (λ n. not (is_known known n)) fused) known
  coverage ← statement leg.aborted (semantic_coverage project_id embedder.model_name)
  pure (record {
    memories = hydrate fused by_id;
    total_considered = length (distinct (memory_ids lexical_rows ++ leg.ranking));
    match_strategy = MatchStrategy.hybrid;
    semantic_coverage = some coverage;
    degraded = leg.degraded;
  })

unfoldable pub hybrid_search : Engines → Embedder → ℕ → HybridRequest → Tx SearchResult
hybrid_search engines embedder project_id request = do
  lexical_rows ←
      search_rows engines.text project_id
        (record { query = if_any request.query; types = request.types; tags = request.tags })
        (request.limit * overfetch)
  leg ←
      embedded_leg engines.index engines.vector_query_raises project_id embedder.model_name
        (request.limit * overfetch) (embedder.embed request.query)
  fuse engines embedder project_id request.limit lexical_rows leg
