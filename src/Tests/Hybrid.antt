-- ===== src/Tests/Hybrid.antt =====
-- A hybrid search and a brief of the small store.
use mcp_shared_memory_hub.Prelude.{
  ℕ, ◌≤◌, ◌≡◌, ◌≢◌, refl, true, false, none, some, [], ◌∷◌, map, text_eq, length, All, sort_by,
  insert_sorted,
}
use mcp_shared_memory_hub.Domain.Enums.{task}
use mcp_shared_memory_hub.Domain.Errors.{ok, query_canceled}
use mcp_shared_memory_hub.Store.Tables.{MemoryEmbedding, Db}
use mcp_shared_memory_hub.Store.Tx.{◌>>=◌}
use mcp_shared_memory_hub.Store.Memories.{current_revisions, get}
use mcp_shared_memory_hub.Store.Search.{passes_filters, matching, search_rows}
use mcp_shared_memory_hub.Store.Coverage.{semantic_coverage}
use mcp_shared_memory_hub.Store.Projects.{get_by_id}
use mcp_shared_memory_hub.Context.Tokens.{usable_budget}
use mcp_shared_memory_hub.Context.Builder.{Selection, select}
use mcp_shared_memory_hub.Context.Render.{brief_lines, content_line, render_brief}
use mcp_shared_memory_hub.Context.Render.Order.{bullets, brief_in_order}
use mcp_shared_memory_hub.Retrieval.Fusion.{
  add_score, add_ranking, add_rankings, position, reciprocal_rank_fusion,
}
use mcp_shared_memory_hub.Retrieval.Semantic.{search_by_vector}
use mcp_shared_memory_hub.Services.Memories.{to_view}
use mcp_shared_memory_hub.Services.Search.{MatchStrategy, SearchResult}
use mcp_shared_memory_hub.Services.Hybrid.{
  Engines, Embedder, HybridRequest, embedded_leg, vector_leg, statement, fetch_missing, hydrate,
  fused_ids, fuse, hybrid_search,
}
use mcp_shared_memory_hub.Services.Hybrid.Rows.{IsLive}
use mcp_shared_memory_hub.Services.Hybrid.Sound.{hybrid_search_sound, hybrid_search_timed_out}
use mcp_shared_memory_hub.Services.Brief.{
  min_budget, max_budget, BriefEnv, ProjectContext, gather, candidates_from, build_context,
}
use mcp_shared_memory_hub.Services.Brief.Sound.{cost, build_context_sound}
use mcp_shared_memory_hub.Mcp.Server.{heuristic}
use mcp_shared_memory_hub.Tests.Context.{thousandths, two_candidates}
use mcp_shared_memory_hub.Tests.Data.{
  plain, claude, first_note, small_db, first_memory, its_revision,
}
use mcp_shared_memory_hub.Tests.Search.{matches_all}

abbrev pub its_vector : MemoryEmbedding
its_vector = record {
  memory_id = 7;
  revision_no = 1;
  model = claude;
  project_id = 1;
  dim = 1;
  embedding = first_note;
}

abbrev pub embedded_db : Db
embedded_db = record small_db { memory_embeddings = its_vector ∷ [] }

abbrev pub engines : Engines
engines = record {
  text = matches_all;
  index = record { within = λ q e. true; nearer = λ q a b. false; reached = λ q e. true };
  vector_query_raises = none;
  floats = thousandths;
}

abbrev pub embedder : Embedder
embedder = record { model_name = claude; embed = λ text. some text }

-- no memory of the type that is asked for
abbrev for_tasks : HybridRequest
for_tasks = record { query = first_note; types = task ∷ []; tags = []; limit = 10 }

abbrev the_fact : SearchResult
the_fact = record {
  memories = to_view (first_memory, its_revision) ∷ [];
  total_considered = 1;
  match_strategy = MatchStrategy.hybrid;
  semantic_coverage = some (record { numerator = 1; denominator = 1 });
  degraded = none;
}

-- The vectors of a memory lead to it, also if it has none of the types that are asked for.
searched : hybrid_search engines embedder 1 for_tasks embedded_db ≡ ok (the_fact, embedded_db)
unfolding text_eq sort_by insert_sorted ◌>>=◌ current_revisions get passes_filters matching
    search_rows semantic_coverage search_by_vector embedded_leg vector_leg statement fetch_missing
    hydrate fused_ids fuse hybrid_search add_score add_ranking add_rankings position
    reciprocal_rank_fusion
searched = refl

hybrid_search_sound_example :
    (embedded_db ≡ embedded_db)
    × (length the_fact.memories ≤ 10)
    × All (IsLive 1 10) the_fact.memories
hybrid_search_sound_example =
    hybrid_search_sound engines embedder 1 for_tasks embedded_db embedded_db the_fact searched

abbrev too_slow : Engines
too_slow = record {
  text = matches_all;
  index = record { within = λ q e. true; nearer = λ q a b. false; reached = λ q e. true };
  vector_query_raises = some query_canceled;
  floats = thousandths;
}

hybrid_search_timed_out_example :
    hybrid_search too_slow embedder 1 for_tasks embedded_db ≢ ok (the_fact, embedded_db)
hybrid_search_timed_out_example =
    hybrid_search_timed_out too_slow embedder 1 for_tasks embedded_db embedded_db first_note
      the_fact refl refl

brief_in_order_example :
    bullets (brief_lines (select thousandths plain two_candidates 200).selected first_note)
    ≡ map (λ c. content_line c.memory) (select thousandths plain two_candidates 200).selected
brief_in_order_example = brief_in_order thousandths plain two_candidates 200 first_note

abbrev brief_env : BriefEnv
brief_env = record { py = plain; uuid_text = λ n. n ∷ []; embedder = none; counter = heuristic }

abbrev its_selection : Selection ℕ
its_selection =
    select thousandths plain
      (candidates_from thousandths heuristic 0 (to_view (first_memory, its_revision) ∷ [])) 200

abbrev its_brief : ProjectContext ℕ
its_brief = record {
  brief = render_brief its_selection.selected first_note;
  memories = map (λ c. c.memory) its_selection.selected;
  selection = its_selection;
  estimator = heuristic.name;
  semantic_coverage = none;
  degraded = none;
}

built : build_context brief_env engines 1 none 200 embedded_db ≡ ok (its_brief, embedded_db)
unfolding sort_by insert_sorted ◌>>=◌ current_revisions get_by_id passes_filters matching
    search_rows gather build_context
built = refl

build_context_sound_example :
    (min_budget ≤ 200)
    × (200 ≤ max_budget)
    × (embedded_db ≡ embedded_db)
    × All (IsLive 1 10) its_brief.memories
    × (its_brief.selection.tokens_used ≡ cost heuristic its_brief.memories)
    × (its_brief.selection.tokens_used ≤ usable_budget 200)
build_context_sound_example =
    build_context_sound brief_env engines 1 none 200 embedded_db embedded_db its_brief built
