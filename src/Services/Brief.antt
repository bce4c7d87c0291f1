-- ===== src/Services/Brief.antt =====
-- src/memhub/services/context.py: the brief of a project. The observations of the metrics are left out.
pub mod Gather
pub mod Sound
use mcp_shared_memory_hub.Prelude.{
  ℕ, suc, ◌+◌, not, ◌&&◌, Option, none, some, List, [], ◌∷◌, map, leb, Text, if◌then◌else◌,
}
use mcp_shared_memory_hub.Domain.Errors.{validation_failed}
use mcp_shared_memory_hub.Domain.Models.{MemoryView}
use mcp_shared_memory_hub.Domain.Unicode.{Platform}
use mcp_shared_memory_hub.Domain.Validation.{pos}
use mcp_shared_memory_hub.Store.Tables.{Project}
use mcp_shared_memory_hub.Store.Tx.{Tx, pure, raise, ◌>>=◌}
use mcp_shared_memory_hub.Store.Projects.{get_by_id}
use mcp_shared_memory_hub.Store.Search.{search_rows}
use mcp_shared_memory_hub.Store.Coverage.{Ratio}
use mcp_shared_memory_hub.Context.Floats.{Floats}
use mcp_shared_memory_hub.Context.Builder.{Candidate, Selection, select}
use mcp_shared_memory_hub.Context.Render.{render_brief}
use mcp_shared_memory_hub.Services.Memories.{to_view}
use mcp_shared_memory_hub.Services.Search.{Degraded, search}
use mcp_shared_memory_hub.Services.Hybrid.{Engines, Embedder, hybrid_search}

abbrev pub candidate_pool : ℕ
candidate_pool = 60

abbrev pub min_budget : ℕ
min_budget = 100

abbrev pub max_budget : ℕ
max_budget = 32_000

-- TokenEstimator
pub record TokenEstimator : Type 0 where
  pub name : Text
  pub estimate : Text → ℕ

-- what retrieval offers
pub record Offer : Type 0 where
  pub views : List MemoryView
  pub coverage : Option Ratio
  pub degraded : Option Degraded

pub record ProjectContext (F : Type 0) : Type 0 where
  pub brief : Text
  pub memories : List MemoryView
  pub selection : Selection F
  pub estimator : Text
  pub semantic_coverage : Option Ratio
  pub degraded : Option Degraded

-- what a brief is built with beside the engines; `uuid_text` is str(uuid)
pub record BriefEnv : Type 0 where
  pub py : Platform
  pub uuid_text : ℕ → Text
  pub embedder : Option Embedder
  pub counter : TokenEstimator

-- `query and embedder is not None`, `query`, or neither; the empty text is falsy
unfoldable pub gather : Platform → Engines → Option Embedder → ℕ → Option Text → Tx Offer
gather py engines embedder project_id none = do
  rows ←
      search_rows engines.text project_id (record { query = none; types = []; tags = [] })
        candidate_pool
  pure (record { views = map to_view rows; coverage = none; degraded = none })
gather py engines embedder project_id (some []) = do
  rows ←
      search_rows engines.text project_id (record { query = none; types = []; tags = [] })
        candidate_pool
  pure (record { views = map to_view rows; coverage = none; degraded = none })
gather py engines none project_id (some (c ∷ query)) = do
  found ← search py engines.text project_id (record {
    query = some (c ∷ query);
    types = [];
    tags = [];
    limit = some (pos candidate_pool);
  })
  pure (record { views = found.memories; coverage = none; degraded = none })
gather py engines (some embedder) project_id (some (c ∷ query)) = do
  found ←
      hybrid_search engines embedder project_id
        (record { query = c ∷ query; types = []; tags = []; limit = candidate_pool })
  pure (record {
    views = found.memories;
    coverage = found.semantic_coverage;
    degraded = found.degraded;
  })

-- project.slug if project else str(project_id)
abbrev pub slug_of : (ℕ → Text) → ℕ → Option Project → Text
slug_of uuid_text project_id none = uuid_text project_id
slug_of uuid_text project_id (some project) = project.slug

module _ (fl : Floats) where
  -- enumerate(views), from an index on
  abbrev pub candidates_from : TokenEstimator → ℕ → List MemoryView → List (Candidate fl.F)
  candidates_from counter index [] = []
  candidates_from counter index (view ∷ views) =
      (record {
        memory = view;
        score = fl.over (fl.decimal 1 0) (fl.of_nat (index + 1));
        tokens = counter.estimate view.content;
      })
      ∷ candidates_from counter (suc index) views

unfoldable pub build_context :
    BriefEnv → (engines : Engines) → ℕ → Option Text → ℕ → Tx (ProjectContext engines.floats.F)
build_context env engines project_id query token_budget =
    if not (leb min_budget token_budget && leb token_budget max_budget)
    then raise validation_failed
    else do
      project ← get_by_id project_id
      offer ← gather env.py engines env.embedder project_id query
      let selection =
          select engines.floats env.py (candidates_from engines.floats env.counter 0 offer.views)
            token_budget
      pure (record {
        brief = render_brief selection.selected (slug_of env.uuid_text project_id project);
        memories = map (λ c. c.memory) selection.selected;
        selection = selection;
        estimator = env.counter.name;
        semantic_coverage = offer.coverage;
        degraded = offer.degraded;
      })
