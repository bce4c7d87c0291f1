-- ===== src/Services/Search/Sound.antt =====
-- What a search may answer with.
use mcp_shared_memory_hub.Prelude.{
  All-take, All-sort_by, length-take, length-sort_by, ℕ, suc, ◌≡◌, min, refl, sym, subst, subst₂,
  ap, ◌∙◌, inl, inr, Bool, true, false, ◌&&◌, ◌||◌, Option, none, some, List, [], ◌∷◌, map, arith,
  ◌==◌, ==_iff, Text, length, take, is_empty, select_where, sort_by, All, Bool-cases,
}
use mcp_shared_memory_hub.Domain.Enums.{MemoryType, is_active}
use mcp_shared_memory_hub.Domain.Errors.{ok}
use mcp_shared_memory_hub.Domain.Models.{MemoryView}
use mcp_shared_memory_hub.Domain.Unicode.{Platform}
use mcp_shared_memory_hub.Domain.Validation.{validate_limit, validate_tags}
use mcp_shared_memory_hub.Store.Tables.{Memory, MemoryRevision, Db}
use mcp_shared_memory_hub.Store.Tx.{◌>>=◌, lift, pure}
use mcp_shared_memory_hub.Store.Guarantee.{pure-inv, lift-inv, bind-inv}
use mcp_shared_memory_hub.Store.Memories.{unexpired, is_retrievable, current_revisions, join}
use mcp_shared_memory_hub.Store.Search.{
  TextSearch, Filters, of_types, carries_all, passes_filters, comes_before, matching, count,
  search_rows,
}
use mcp_shared_memory_hub.Services.Memories.{to_view}
use mcp_shared_memory_hub.Services.Search.{
  MatchStrategy, SearchResult, SearchRequest, clean_query, any_term_query, run, run_widened, widen,
  search,
}

-- An active memory of the project that has not expired, of one of the types and with all of the tags.
abbrev pub IsAnswer : ℕ → ℕ → List MemoryType → List Text → MemoryView → Type 0
IsAnswer project_id now types tags v =
    (v.project_id ≡ project_id)
    × (is_active v.status ≡ true)
    × (unexpired now v.expires_at ≡ true)
    × (of_types types v.type ≡ true)
    × (carries_all tags v.tags ≡ true)

module _ (engine : TextSearch) (project_id limit : ℕ) (filters : Filters) (db : Db) where
  abbrev Answers : List MemoryView → Type 0
  Answers views = All (IsAnswer project_id db.now filters.types filters.tags) views

  abbrev RowIsAnswer : Memory × MemoryRevision → Type 0
  RowIsAnswer x = IsAnswer project_id db.now filters.types filters.tags (to_view x)

  abbrev found : Memory × MemoryRevision → Bool
  found x = x.0.project_id == project_id && (false || is_retrievable db.now x)

  row-IsAnswer :
      (x : Memory × MemoryRevision)
      → found x ≡ true
      → passes_filters engine filters x ≡ true
      → RowIsAnswer x
  unfolding passes_filters
  row-IsAnswer x h k = (
    ground (arith, ==_iff x.0.project_id project_id),
    ground arith,
    ground arith,
    ground arith,
    ground arith,
  )

  rows-All :
      (xs : List (Memory × MemoryRevision))
      → All RowIsAnswer (select_where (passes_filters engine filters) (select_where found xs))
  rows-All [] = tt
  rows-All (x ∷ xs) = elim (Bool-cases (found x)) [
    | inl e ↦ elim (Bool-cases (passes_filters engine filters x)) [
      | inl e' ↦ rw (e, e') (row-IsAnswer x e e', rows-All xs)
      | inr e' ↦ rw (e, e') (rows-All xs)
    ]
    | inr e ↦ rw e (rows-All xs)
  ]

  All-views :
      (rows : List (Memory × MemoryRevision)) → All RowIsAnswer rows → Answers (map to_view rows)
  All-views [] h = tt
  All-views (x ∷ rows) h = (h.0, All-views rows h.1)

  length-views : (rows : List (Memory × MemoryRevision)) → length (map to_view rows) ≡ length rows
  length-views [] = refl
  length-views (x ∷ rows) = ap (λ n. suc n) (length-views rows)

  -- what a stage of the search answers with
  abbrev pub IsSoundResult : SearchResult → Db → Type 0
  IsSoundResult result t =
      (t ≡ db)
      × (length result.memories ≡ min limit result.total_considered)
      × Answers result.memories

  run-IsSoundResult :
      (strategy : MatchStrategy) {result : SearchResult} {t : Db}
      → run engine project_id filters limit strategy db ≡ ok (result, t)
      → IsSoundResult result t
  unfolding run search_rows count matching current_revisions ◌>>=◌
  run-IsSoundResult strategy {result} {t} h =
      let rows : List (Memory × MemoryRevision) =
        select_where (passes_filters engine filters)
          (select_where found (join db.memories db.memory_revisions)) in
      let sorted = sort_by (comes_before engine db.now filters.query) rows in
      let (same, same_db) =
        pure-inv
          {a = record {
            memories = map to_view (take limit sorted);
            total_considered = length rows;
            match_strategy = strategy;
            semantic_coverage = none;
            degraded = none;
          }}
          {s = db} h in
      subst (λ r. IsSoundResult r t) same
        (
          sym same_db,
          length-views (take limit sorted)
              ∙ length-take limit sorted
              ∙ ap (min limit) (length-sort_by (comes_before engine db.now filters.query) rows),
          All-views (take limit sorted) (
              All-take RowIsAnswer limit sorted (
                All-sort_by RowIsAnswer (comes_before engine db.now filters.query) rows
                  (rows-All (join db.memories db.memory_revisions)))),
        )

module _ (engine : TextSearch) (project_id limit : ℕ) (filters : Filters) (db : Db) where
  strict-IsSoundResult :
      (strict : SearchResult) {result : SearchResult} {t : Db}
      → IsSoundResult engine project_id limit filters db strict db
      → pure strict db ≡ ok (result, t)
      → IsSoundResult engine project_id limit filters db result t
  strict-IsSoundResult strict sound h =
      let (same, same_db) = pure-inv h in
      subst₂ (IsSoundResult engine project_id limit filters db) same same_db sound

  run_widened-IsSoundResult :
      (strict : SearchResult) (widened : Option Text) {result : SearchResult} {t : Db}
      → IsSoundResult engine project_id limit filters db strict db
      → run_widened engine project_id filters limit strict widened db ≡ ok (result, t)
      → IsSoundResult engine project_id limit filters db result t
  unfolding run_widened
  run_widened-IsSoundResult strict none sound h = strict-IsSoundResult strict sound h
  run_widened-IsSoundResult strict (some widened) sound h =
      run-IsSoundResult engine project_id limit (record filters { query = some widened }) db
        MatchStrategy.any_term h

  widen-IsSoundResult :
      (strict : SearchResult) (query : Option Text) {result : SearchResult} {t : Db}
      → IsSoundResult engine project_id limit filters db strict db
      → widen engine project_id filters limit strict query db ≡ ok (result, t)
      → IsSoundResult engine project_id limit filters db result t
  unfolding widen
  widen-IsSoundResult strict none sound h = strict-IsSoundResult strict sound h
  widen-IsSoundResult strict (some query) sound h = elim (Bool-cases (is_empty strict.memories)) [
    | inl e ↦ run_widened-IsSoundResult strict (any_term_query query) sound (rw e at h)
    | inr e ↦ strict-IsSoundResult strict sound (rw e at h)
  ]

-- A search that answers, strictly or widened, leaves the database alone, returns as many memories as
-- the validated limit lets of all those that it counted, and each of them is an active memory of the
-- project that has not expired, of one of the types asked for and with all of the validated tags.
pub search_sound :
    (py : Platform) (engine : TextSearch) (project_id : ℕ) (request : SearchRequest) (s t : Db)
    (result : SearchResult)
    → search py engine project_id request s ≡ ok (result, t)
    → (limit : ℕ) × (tags : List Text) × (validate_limit request.limit ≡ ok limit)
      × (validate_tags py request.tags ≡ ok tags)
      × (t ≡ s)
      × (length result.memories ≡ min limit result.total_considered)
      × All (IsAnswer project_id s.now request.types tags) result.memories
unfolding search
search_sound py engine project_id request s t result h =
    let (limit, s1, h1, k1) = bind-inv (lift (validate_limit request.limit)) _ s h in
    let (tags, s2, h2, k2) = bind-inv (lift (validate_tags py request.tags)) _ s1 k1 in
    let (valid_limit, at1) = lift-inv (validate_limit request.limit) h1 in
    let (valid_tags, at2) = lift-inv (validate_tags py request.tags) h2 in
    let (unchanged, exact, answers) = answered limit tags s2 k2 in
    let back : s2 ≡ s = sym (at1 ∙ at2) in
    (
      limit,
      tags,
      valid_limit,
      valid_tags,
      unchanged ∙ back,
      exact,
      subst (λ (x : Db). All (IsAnswer project_id x.now request.types tags) result.memories) back
          answers,
    )
  where
    answered :
        (limit : ℕ) (tags : List Text) (u : Db)
        → (run engine project_id
                (record { query = clean_query request.query; types = request.types; tags = tags })
                limit
                MatchStrategy.all_terms
              >>= λ strict.
                  widen engine project_id
                    (record {
                      query = clean_query request.query;
                      types = request.types;
                      tags = tags;
                    })
                    limit
                    strict
                    (clean_query request.query))
            u
          ≡ ok (result, t)
        → (t ≡ u)
          × (length result.memories ≡ min limit result.total_considered)
          × All (IsAnswer project_id u.now request.types tags) result.memories
    answered limit tags u k =
        let filters : Filters = record {
          query = clean_query request.query;
          types = request.types;
          tags = tags;
        } in
        let (strict, u1, h3, k3) =
          bind-inv (run engine project_id filters limit MatchStrategy.all_terms) _ u k in
        let sound =
          run-IsSoundResult engine project_id limit filters u MatchStrategy.all_terms h3 in
        widen-IsSoundResult engine project_id limit filters u strict (clean_query request.query)
          (refl, sound.1, sound.2)
          (subst
            (λ x.
              widen engine project_id filters limit strict (clean_query request.query) x
              ≡ ok (result, t))
            sound.0 k3)
