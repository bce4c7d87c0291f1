-- ===== src/Tests/Retrieval.antt =====
-- Two rankings that share a memory.
use mcp_shared_memory_hub.Prelude.{ℕ, ◌≡◌, List, [], ◌∷◌}
use mcp_shared_memory_hub.Retrieval.Fusion.{
  Ranking, rrf_k, lexical, semantic, reciprocal_rank_fusion,
}
use mcp_shared_memory_hub.Retrieval.Exact.{occurrences, ids_of, fusion_exact}
use mcp_shared_memory_hub.Tests.Context.{thousandths}

abbrev two_rankings : List (Ranking ℕ)
two_rankings =
    (record { name = lexical; weight = 1000; ids = 7 ∷ 8 ∷ [] })
    ∷ (record { name = semantic; weight = 1000; ids = 8 ∷ [] })
    ∷ []

fusion_exact_example :
    occurrences 8 (ids_of (reciprocal_rank_fusion thousandths rrf_k two_rankings)) ≡ 1
fusion_exact_example = fusion_exact thousandths rrf_k 8 two_rankings
