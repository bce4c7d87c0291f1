-- ===== src/Services/Brief/Gather.antt =====
-- src/memhub/services/context.py: the three ways to gather candidates, and the stage-0 filter.
use mcp_shared_memory_hub.Prelude.{
  ℕ, ◌≡◌, sym, subst, ◌∙◌, inl, inr, false, Option, none, some, List, [], ◌∷◌, map, Text, is_empty,
  All, Bool-cases,
}
use mcp_shared_memory_hub.Domain.Errors.{ok}
use mcp_shared_memory_hub.Domain.Unicode.{Platform}
use mcp_shared_memory_hub.Domain.Models.{MemoryView}
use mcp_shared_memory_hub.Domain.Validation.{pos, validate_limit, validate_tags}
use mcp_shared_memory_hub.Store.Tables.{Db}
use mcp_shared_memory_hub.Store.Tx.{lift}
use mcp_shared_memory_hub.Store.Guarantee.{pure-inv, lift-inv, gets-inv, bind-inv}
use mcp_shared_memory_hub.Store.Memories.{current_revisions}
use mcp_shared_memory_hub.Store.Search.{TextSearch, Filters, count, search_rows}
use mcp_shared_memory_hub.Services.Memories.{to_view}
use mcp_shared_memory_hub.Services.Search.{
  MatchStrategy, SearchRequest, SearchResult, clean_query, any_term_query, run, run_widened, widen,
  search,
}
use mcp_shared_memory_hub.Services.Hybrid.{Row, Engines, Embedder, hybrid_search}
use mcp_shared_memory_hub.Services.Hybrid.Rows.{RowHolds, search_rows-All}
use mcp_shared_memory_hub.Services.Hybrid.Sound.{hybrid_search-All}
use mcp_shared_memory_hub.Services.Brief.{candidate_pool, Offer, gather}

module _ (Q : MemoryView → Type 0) (project_id : ℕ) (s : Db)
    (base : All (λ x. Q (to_view x)) (current_revisions project_id false s)) where
  views-All : (rows : List Row) → All (RowHolds Q project_id s base) rows → All Q (map to_view rows)
  views-All [] h = tt
  views-All (x ∷ rows) h = (h.0, views-All rows h.1)

  run-All :
      (engine : TextSearch) (filters : Filters) (limit : ℕ) (strategy : MatchStrategy)
      {result : SearchResult} {t : Db}
      → run engine project_id filters limit strategy s ≡ ok (result, t)
      → All Q result.memories × (t ≡ s)
  unfolding run count
  run-All engine filters limit strategy {result} {t} h =
      let (rows, u, found, k) = bind-inv (search_rows engine project_id filters limit) _ s h in
      let (holds, same_u) = search_rows-All Q project_id s base engine filters limit found in
      let (total, v, counted, l) = bind-inv (count engine project_id filters) _ u k in
      let (same, at) = pure-inv l in
      (
        subst (λ r. All Q r.memories) same (views-All rows holds),
        sym ((gets-inv _ counted).1 ∙ at) ∙ same_u,
      )

  widen-All :
      (engine : TextSearch) (filters : Filters) (limit : ℕ) (strict : SearchResult)
      (query : Option Text) {result : SearchResult} {t : Db}
      → All Q strict.memories
      → widen engine project_id filters limit strict query s ≡ ok (result, t)
      → All Q result.memories × (t ≡ s)
  unfolding widen run_widened
  widen-All engine filters limit strict none all h =
      let (same, at) = pure-inv h in (subst (λ r. All Q r.memories) same all, sym at)
  widen-All engine filters limit strict (some query) {result} {t} all h =
      elim (Bool-cases (is_empty strict.memories)) [
        | inl e ↦ wider (any_term_query query) (rw e at h)
        | inr e ↦
            let (same, at) = pure-inv {a = strict} {b = result} {s = s} {t = t} (rw e at h) in
            (subst (λ r. All Q r.memories) same all, sym at)
      ]
    where
      wider :
          (widened : Option Text)
          → run_widened engine project_id filters limit strict widened s ≡ ok (result, t)
          → All Q result.memories × (t ≡ s)
      wider none h = let (same, at) = pure-inv h in (subst (λ r. All Q r.memories) same all, sym at)
      wider (some widened) h =
          run-All engine (record filters { query = some widened }) limit MatchStrategy.any_term h

  pub search-All :
      (py : Platform) (engine : TextSearch) (request : SearchRequest) {result : SearchResult}
      {t : Db}
      → search py engine project_id request s ≡ ok (result, t)
      → (t ≡ s) × All Q result.memories
  unfolding search
  search-All py engine request {result} {t} h =
      let (limit, s1, h1, k1) = bind-inv (lift (validate_limit request.limit)) _ s h in
      let (tags, s2, h2, k2) = bind-inv (lift (validate_tags py request.tags)) _ s1 k1 in
      let at : s ≡ s2 =
        (lift-inv (validate_limit request.limit) h1).1
        ∙ (lift-inv (validate_tags py request.tags) h2).1 in
      let filters : Filters = record {
        query = clean_query request.query;
        types = request.types;
        tags = tags;
      } in
      let (strict, s3, h3, k3) =
        bind-inv (run engine project_id filters limit MatchStrategy.all_terms) _ s2 k2 in
      let (all, same_3) = run-All engine filters limit MatchStrategy.all_terms (
        subst (λ u. run engine project_id filters limit MatchStrategy.all_terms u ≡ ok (strict, s3))
          (sym at) h3) in
      let (holds, same) = widen-All engine filters limit strict (clean_query request.query) all (
        subst
          (λ u.
            widen engine project_id filters limit strict (clean_query request.query) u
            ≡ ok (result, t))
          same_3 k3) in
      (same, holds)

  browse-All :
      (py : Platform) (engines : Engines) (embedder : Option Embedder) {offer : Offer} {t : Db}
      → gather py engines embedder project_id none s ≡ ok (offer, t)
      → (t ≡ s) × All Q offer.views
  unfolding gather
  browse-All py engines embedder {offer} {t} h =
      let (rows, u, found, k) =
        bind-inv
          (search_rows engines.text project_id (record { query = none; types = []; tags = [] })
            candidate_pool)
          _ s h in
      let (holds, same) = search_rows-All Q project_id s base engines.text _ candidate_pool found in
      let (offered, at) = pure-inv k in
      (sym at ∙ same, subst (λ o. All Q o.views) offered (views-All rows holds))

  pub gather-All :
      (py : Platform) (engines : Engines) (embedder : Option Embedder) (query : Option Text)
      {offer : Offer} {t : Db}
      → gather py engines embedder project_id query s ≡ ok (offer, t)
      → (t ≡ s) × All Q offer.views
  unfolding gather
  gather-All py engines embedder none h = browse-All py engines embedder h
  gather-All py engines embedder (some []) h = browse-All py engines embedder h
  gather-All py engines none (some (c ∷ query)) h =
      let (found, u, searched, k) =
        bind-inv
          (search py engines.text project_id (record {
            query = some (c ∷ query);
            types = [];
            tags = [];
            limit = some (pos candidate_pool);
          }))
          _ s h in
      let (same, holds) = search-All py engines.text _ searched in
      let (offered, at) = pure-inv k in (sym at ∙ same, subst (λ o. All Q o.views) offered holds)
  gather-All py engines (some embedder) (some (c ∷ query)) h =
      let (found, u, searched, k) =
        bind-inv
          (hybrid_search engines embedder project_id
            (record { query = c ∷ query; types = []; tags = []; limit = candidate_pool }))
          _ s h in
      let (same, _, holds) =
        hybrid_search-All engines embedder project_id _ s Q base u found searched in
      let (offered, at) = pure-inv k in (sym at ∙ same, subst (λ o. All Q o.views) offered holds)
