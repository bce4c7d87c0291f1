-- ===== src/Services/Hybrid/Sound.antt =====
-- What a hybrid search may answer with.
use mcp_shared_memory_hub.Prelude.{
  ℕ, suc, ◌*◌, ◌≤◌, ◌≡◌, ◌≢◌, refl, sym, subst, ap, ◌∙◌, Bool, true, false, not, Option, none, some,
  List, [], ◌∷◌, map, arith, Text, length, take, select_where, All, length-take,
}
use mcp_shared_memory_hub.Domain.Errors.{
  Error, ok, internal, validation_failed, project_not_found, ambiguous_project, project_exists,
  memory_not_found, idempotency_key_reused, integrity_error, query_canceled, in_failed_transaction,
  database_error, resource_not_found,
}
use mcp_shared_memory_hub.Domain.Models.{MemoryView}
use mcp_shared_memory_hub.Store.Memories.{current_revisions}
use mcp_shared_memory_hub.Services.Memories.{to_view}
use mcp_shared_memory_hub.Store.Tables.{Db}
use mcp_shared_memory_hub.Store.Tx.{Tx, raise}
use mcp_shared_memory_hub.Store.Guarantee.{pure-inv, gets-inv, bind-inv}
use mcp_shared_memory_hub.Store.Search.{search_rows}
use mcp_shared_memory_hub.Store.Coverage.{semantic_coverage}
use mcp_shared_memory_hub.Context.Floats.{Floats}
use mcp_shared_memory_hub.Retrieval.Fusion.{
  FusedResult, rrf_k, lexical, semantic, reciprocal_rank_fusion,
}
use mcp_shared_memory_hub.Retrieval.Semantic.{VectorSearch, search_by_vector}
use mcp_shared_memory_hub.Services.Search.{SearchResult, if_any}
use mcp_shared_memory_hub.Services.Hybrid.{
  Engines, Embedder, HybridRequest, Leg, Row, overfetch, recovered, vector_leg, embedded_leg,
  statement, index_rows, is_known, fetch_missing, memory_ids, fused_ids, fuse, hybrid_search,
}
use mcp_shared_memory_hub.Services.Hybrid.Rows.{
  IsLive, current-IsLive, RowHolds, fetch-All, search_rows-All, index-All, hydrate-All,
}

pub raise-inv : {A : Type 0} (e : Error) (s : Db) {a : A} {t : Db} → raise e s ≡ ok (a, t) → ⊥
unfolding raise
raise-inv e s h = cc

-- only a cancelled query is recovered from, and it leaves the transaction aborted
pub recovered-inv :
    (e : Error) (s : Db) {leg : Leg} {t : Db}
    → recovered e s ≡ ok (leg, t)
    → (leg.aborted ≡ true) × (s ≡ t)
unfolding recovered
recovered-inv query_canceled s h = (ap (λ l. l.aborted) (sym (pure-inv h).0), (pure-inv h).1)
recovered-inv internal s h = absurd (raise-inv _ s h)
recovered-inv validation_failed s h = absurd (raise-inv _ s h)
recovered-inv project_not_found s h = absurd (raise-inv _ s h)
recovered-inv ambiguous_project s h = absurd (raise-inv _ s h)
recovered-inv project_exists s h = absurd (raise-inv _ s h)
recovered-inv memory_not_found s h = absurd (raise-inv _ s h)
recovered-inv idempotency_key_reused s h = absurd (raise-inv _ s h)
recovered-inv integrity_error s h = absurd (raise-inv _ s h)
recovered-inv in_failed_transaction s h = absurd (raise-inv _ s h)
recovered-inv database_error s h = absurd (raise-inv _ s h)
recovered-inv resource_not_found s h = absurd (raise-inv _ s h)

pub statement-inv :
    {A : Type 0} (aborted : Bool) (m : Tx A) (s : Db) {a : A} {t : Db}
    → statement aborted m s ≡ ok (a, t)
    → (aborted ≡ false) × (m s ≡ ok (a, t))
unfolding statement
statement-inv true m s h = absurd (raise-inv in_failed_transaction s h)
statement-inv false m s h = (refl, h)

length-map : {A B : Type 0} (f : A → B) (xs : List A) → length (map f xs) ≡ length xs
length-map f [] = refl
length-map f (x ∷ xs) = ap (λ n. suc n) (length-map f xs)

abbrev fusion : (fl : Floats) → List ℕ → List ℕ → List (FusedResult fl.F)
fusion fl xs ys = reciprocal_rank_fusion fl rrf_k (
    (record { name = lexical; weight = fl.decimal 1 0; ids = xs })
    ∷ (record { name = semantic; weight = fl.decimal 1 0; ids = ys })
    ∷ [])

length-fused :
    (fl : Floats) (xs ys : List ℕ) (limit : ℕ) → length (fused_ids fl xs ys limit) ≤ limit
unfolding fused_ids
length-fused fl xs ys limit =
    rw
      (
        length-map (λ r. r.memory_id) (take limit (fusion fl xs ys)),
        length-take limit (fusion fl xs ys),
      )
      (omega arith)

-- what the vector query may leave, the index and the embedder as they may be
module _ (engines : Engines) (embedder : Embedder) (project_id : ℕ) (request : HybridRequest)
    (s : Db) where
  leg-same :
      (index : VectorSearch) (raises : Option Error) (model : Text) (candidates : ℕ)
      (vector : Option Text) {leg : Leg} {t : Db}
      → embedded_leg index raises project_id model candidates vector s ≡ ok (leg, t)
      → t ≡ s
  unfolding embedded_leg vector_leg search_by_vector
  leg-same index raises model candidates none h = sym (pure-inv h).1
  leg-same index none model candidates (some vector) h =
      let (ids, u, e, k) =
        bind-inv (search_by_vector index project_id vector model candidates) _ s h in
      sym ((gets-inv _ e).1 ∙ (pure-inv k).1)
  leg-same index (some e) model candidates (some vector) h = sym (recovered-inv e s h).1

module _ (engines : Engines) (embedder : Embedder) (project_id : ℕ) (request : HybridRequest)
    (s : Db) (Q : MemoryView → Type 0)
    (base : All (λ x. Q (to_view x)) (current_revisions project_id false s)) where
  fuse-All :
      (rows : List Row) (leg : Leg) {result : SearchResult} {t : Db}
      → All (RowHolds Q project_id s base) rows
      → fuse engines embedder project_id request.limit rows leg s ≡ ok (result, t)
      → (t ≡ s)
        × (length result.memories ≤ request.limit)
        × All Q result.memories
        × (leg.aborted ≡ false)
  unfolding fuse semantic_coverage
  fuse-All rows leg {result} {t} live h =
      let known = index_rows rows [] in
      let fused = fused_ids engines.floats (memory_ids rows) leg.ranking request.limit in
      let (by_id, u, fetched, k) =
        bind-inv
          (fetch_missing project_id leg.aborted (select_where (λ n. not (is_known known n)) fused)
            known)
          _ s h in
      let (rows_live, same_u) =
        fetch-All Q project_id s base leg.aborted (select_where (λ n. not (is_known known n)) fused)
          known (index-All Q project_id s base rows [] live tt) fetched in
      let (coverage, v, counted, l) =
        bind-inv (statement leg.aborted (semantic_coverage project_id embedder.model_name)) _ u k in
      let (goes_on, c) = statement-inv leg.aborted _ u counted in
      let (same, at) = pure-inv l in
      let (views, short) = hydrate-All Q project_id s base fused by_id rows_live in
      let bound = length-fused engines.floats (memory_ids rows) leg.ranking request.limit in
      (
        sym ((gets-inv _ c).1 ∙ at) ∙ same_u,
        subst (λ r. length r.memories ≤ request.limit) same (omega (arith, short, bound)),
        subst (λ r. All Q r.memories) same views,
        goes_on,
      )

  -- what holds of all that the filter lets through holds of the answer
  pub hybrid_search-All :
      (t : Db) (result : SearchResult)
      → hybrid_search engines embedder project_id request s ≡ ok (result, t)
      → (t ≡ s) × (length result.memories ≤ request.limit) × All Q result.memories
  unfolding hybrid_search
  hybrid_search-All t result h =
      let (rows, u, found, k) =
        bind-inv
          (search_rows engines.text project_id
            (record { query = if_any request.query; types = request.types; tags = request.tags })
            (request.limit * overfetch))
          _ s h in
      let (live, same_u) =
        search_rows-All Q project_id s base engines.text _ (request.limit * overfetch) found in
      let (leg, v, ran, l) =
        bind-inv
          (embedded_leg engines.index engines.vector_query_raises project_id embedder.model_name
            (request.limit * overfetch) (embedder.embed request.query))
          _ u k in
      let same_v : v ≡ s =
        leg-same engines embedder project_id request u engines.index engines.vector_query_raises
          embedder.model_name (request.limit * overfetch) (embedder.embed request.query) ran
        ∙ same_u in
      let (same, short, views, _) = fuse-All rows leg live (
        subst (λ w. fuse engines embedder project_id request.limit rows leg w ≡ ok (result, t))
          same_v l) in
      (same, short, views)

-- A hybrid search that answers, whatever the embedder, the index, the scores and the vector query do,
-- leaves the database alone and returns at most as many memories as asked, each of them an active
-- memory of the project that has not expired.
pub hybrid_search_sound :
    (engines : Engines) (embedder : Embedder) (project_id : ℕ) (request : HybridRequest) (s t : Db)
    (result : SearchResult)
    → hybrid_search engines embedder project_id request s ≡ ok (result, t)
    → (t ≡ s)
      × (length result.memories ≤ request.limit)
      × All (IsLive project_id s.now) result.memories
hybrid_search_sound engines embedder project_id request s t result h =
    hybrid_search-All engines embedder project_id request s (IsLive project_id s.now)
      (current-IsLive project_id s) t result h

cancelled_leg :
    (index : VectorSearch) (raises : Option Error) (project_id : ℕ) (model : Text) (candidates : ℕ)
    (embedded : Option Text) (vector : Text) (s : Db) {leg : Leg} {t : Db}
    → embedded ≡ some vector
    → raises ≡ some query_canceled
    → embedded_leg index raises project_id model candidates embedded s ≡ ok (leg, t)
    → (leg.aborted ≡ true) × (s ≡ t)
unfolding embedded_leg vector_leg
cancelled_leg index raises project_id model candidates embedded vector s embeds cancels h =
    recovered-inv query_canceled s (rw (embeds, cancels) at h)

-- When PostgreSQL cancels the vector query, a hybrid search never answers, with the lexical results
-- or any others: the transaction that the query has aborted refuses the count of the coverage.
pub hybrid_search_timed_out :
    (engines : Engines) (embedder : Embedder) (project_id : ℕ) (request : HybridRequest) (s t : Db)
    (vector : Text) (result : SearchResult)
    → embedder.embed request.query ≡ some vector
    → engines.vector_query_raises ≡ some query_canceled
    → hybrid_search engines embedder project_id request s ≢ ok (result, t)
unfolding hybrid_search
hybrid_search_timed_out engines embedder project_id request s t vector result embeds cancels h =
    let (rows, u, found, k) =
      bind-inv
        (search_rows engines.text project_id
          (record { query = if_any request.query; types = request.types; tags = request.tags })
          (request.limit * overfetch))
        _ s h in
    let (live, same_u) =
      search_rows-All (IsLive project_id s.now) project_id s (current-IsLive project_id s)
        engines.text _ (request.limit * overfetch) found in
    let (leg, v, ran, l) =
      bind-inv
        (embedded_leg engines.index engines.vector_query_raises project_id embedder.model_name
          (request.limit * overfetch) (embedder.embed request.query))
        _ u k in
    let (aborted, same_v) =
      cancelled_leg engines.index engines.vector_query_raises project_id embedder.model_name
        (request.limit * overfetch) (embedder.embed request.query) vector u embeds cancels ran in
    let (_, _, _, goes_on) =
      fuse-All engines embedder project_id request s (IsLive project_id s.now)
        (current-IsLive project_id s) rows leg live
        (subst (λ w. fuse engines embedder project_id request.limit rows leg w ≡ ok (result, t))
          (sym same_v ∙ same_u) l) in
    absurd (ground arith)
