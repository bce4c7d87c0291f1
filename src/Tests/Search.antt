-- ===== src/Tests/Search.antt =====
-- A search for the small store's memory.
use mcp_shared_memory_hub.Prelude.{
  ℕ, ◌≡◌, min, refl, true, false, none, some, List, [], ◌∷◌, Text, text_eq, length, All, sort_by,
  insert_sorted,
}
use mcp_shared_memory_hub.Domain.Enums.{fact}
use mcp_shared_memory_hub.Domain.Errors.{ok}
use mcp_shared_memory_hub.Domain.Unicode.{strip, lstrip_by, rstrip_by}
use mcp_shared_memory_hub.Domain.Validation.{validate_limit, validate_tags, collect_tags}
use mcp_shared_memory_hub.Store.Tx.{lift, ◌>>=◌}
use mcp_shared_memory_hub.Store.Memories.{current_revisions}
use mcp_shared_memory_hub.Store.Search.{TextSearch, passes_filters, matching, count, search_rows}
use mcp_shared_memory_hub.Services.Memories.{to_view}
use mcp_shared_memory_hub.Services.Search.{
  MatchStrategy, SearchResult, SearchRequest, run, run_widened, widen, search,
}
use mcp_shared_memory_hub.Services.Search.Sound.{IsAnswer, search_sound}
use mcp_shared_memory_hub.Tests.Data.{plain, first_note, small_db, first_memory, its_revision}

abbrev pub matches_all : TextSearch
matches_all = record { matches = λ q c. true; scores_above = λ q now x y. false }

abbrev for_note : SearchRequest
for_note = record { query = some first_note; types = fact ∷ []; tags = []; limit = none }

abbrev the_note : SearchResult
the_note = record {
  memories = to_view (first_memory, its_revision) ∷ [];
  total_considered = 1;
  match_strategy = MatchStrategy.all_terms;
  semantic_coverage = none;
  degraded = none;
}

searched : search plain matches_all 1 for_note small_db ≡ ok (the_note, small_db)
unfolding text_eq sort_by insert_sorted strip lstrip_by rstrip_by validate_limit validate_tags
    collect_tags lift ◌>>=◌ current_revisions passes_filters matching count search_rows run
    run_widened widen search
searched = refl

search_sound_example :
    (limit : ℕ) × (tags : List Text) × (validate_limit for_note.limit ≡ ok limit)
    × (validate_tags plain for_note.tags ≡ ok tags)
    × (small_db ≡ small_db)
    × (length the_note.memories ≡ min limit the_note.total_considered)
    × All (IsAnswer 1 small_db.now for_note.types tags) the_note.memories
search_sound_example = search_sound plain matches_all 1 for_note small_db small_db the_note searched
