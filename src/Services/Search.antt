-- ===== src/Services/Search.antt =====
-- src/memhub/services/memories.py: `search`, and `any_term_query` of src/memhub/retrieval/lexical.py.
pub mod Sound
use mcp_shared_memory_hub.Prelude.{
  ℕ, Bool, true, false, not, ◌&&◌, ◌||◌, Option, none, some, List, [], ◌∷◌, ◌++◌, map, ltb, ◌==◌,
  Text, length, is_empty, if◌then◌else◌,
}
use mcp_shared_memory_hub.Domain.Enums.{MemoryType}
use mcp_shared_memory_hub.Domain.Models.{MemoryView}
use mcp_shared_memory_hub.Domain.Unicode.{Platform, is_space, strip}
use mcp_shared_memory_hub.Domain.Validation.{ℤ, validate_limit, validate_tags}
use mcp_shared_memory_hub.Store.Tx.{Tx, pure, lift, ◌>>=◌}
use mcp_shared_memory_hub.Store.Coverage.{Ratio}
use mcp_shared_memory_hub.Store.Search.{TextSearch, Filters, count, search_rows}
use mcp_shared_memory_hub.Services.Memories.{to_view}

pub data MatchStrategy : Type 0 where
  all_terms any_term hybrid : MatchStrategy

-- why a search was lexical only
pub data Degraded : Type 0 where
  embedding_failed timed_out : Degraded

pub record SearchResult : Type 0 where
  pub memories : List MemoryView
  pub total_considered : ℕ
  pub match_strategy : MatchStrategy
  pub semantic_coverage : Option Ratio
  pub degraded : Option Degraded

pub record SearchRequest : Type 0 where
  pub query : Option Text
  pub types : List MemoryType
  pub tags : List Text
  pub limit : Option ℤ

-- `marker in text`
abbrev pub starts_with : Text → Text → Bool
starts_with [] text = true
starts_with (m ∷ marker) [] = false
starts_with (m ∷ marker) (c ∷ text) = m == c && starts_with marker text

abbrev pub contains : Text → Text → Bool
contains marker [] = is_empty marker
contains marker (c ∷ text) = starts_with marker (c ∷ text) || contains marker text

-- _EXPLICIT_SYNTAX
abbrev pub has_explicit_syntax : Text → Bool
has_explicit_syntax query =
    contains (b'"' ∷ []) query
    || contains (b'-' ∷ []) query
    || contains (b' ' ∷ b'o' ∷ b'r' ∷ b' ' ∷ []) query
    || contains (b' ' ∷ b'O' ∷ b'R' ∷ b' ' ∷ []) query

-- text.split(): the first word of the result still grows if the text starts with a letter of it
abbrev pub add_letter : ℕ → Bool → List Text → List Text
add_letter c true (w ∷ words) = (c ∷ w) ∷ words
add_letter c true [] = (c ∷ []) ∷ []
add_letter c false words = (c ∷ []) ∷ words

abbrev pub starts_in_word : Text → Bool
starts_in_word [] = false
starts_in_word (c ∷ text) = not (is_space c)

unfoldable pub split : Text → List Text
split [] = []
split (c ∷ text) =
    let rest = split text in if is_space c then rest else add_letter c (starts_in_word text) rest

-- " or ".join(_)
abbrev pub join_or : List Text → Text
join_or [] = []
join_or (w ∷ []) = w
join_or (w ∷ v ∷ words) = w ++ b' ' ∷ b'o' ∷ b'r' ∷ b' ' ∷ join_or (v ∷ words)

unfoldable pub any_term_query : Text → Option Text
any_term_query query =
    if has_explicit_syntax query || ltb (length (split query)) 2
    then none
    else some (join_or (split query))

-- query.strip() if query and query.strip() else None
abbrev pub if_any : Text → Option Text
if_any [] = none
if_any (c ∷ text) = some (c ∷ text)

abbrev pub clean_query : Option Text → Option Text
clean_query none = none
clean_query (some query) = if_any (strip query)

-- `run`, with the strategy that it is run for
unfoldable pub run : TextSearch → ℕ → Filters → ℕ → MatchStrategy → Tx SearchResult
run engine project_id filters limit strategy = do
  rows ← search_rows engine project_id filters limit
  total ← count engine project_id filters
  pure (record {
    memories = map to_view rows;
    total_considered = total;
    match_strategy = strategy;
    semantic_coverage = none;
    degraded = none;
  })

-- the second stage, for a query that may be widened
unfoldable pub run_widened :
    TextSearch → ℕ → Filters → ℕ → SearchResult → Option Text → Tx SearchResult
run_widened engine project_id filters limit strict none = pure strict
run_widened engine project_id filters limit strict (some widened) =
    run engine project_id (record filters { query = some widened }) limit any_term

unfoldable pub widen : TextSearch → ℕ → Filters → ℕ → SearchResult → Option Text → Tx SearchResult
widen engine project_id filters limit strict none = pure strict
widen engine project_id filters limit strict (some query) =
    if is_empty strict.memories
    then run_widened engine project_id filters limit strict (any_term_query query)
    else pure strict

unfoldable pub search : Platform → TextSearch → ℕ → SearchRequest → Tx SearchResult
search py engine project_id request = do
  limit ← lift (validate_limit request.limit)
  tags ← lift (validate_tags py request.tags)
  strict ←
      run engine project_id
        (record { query = clean_query request.query; types = request.types; tags = tags }) limit
        all_terms
  widen engine project_id
      (record { query = clean_query request.query; types = request.types; tags = tags }) limit
      strict (clean_query request.query)
