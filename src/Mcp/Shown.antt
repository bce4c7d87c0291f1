-- ===== src/Mcp/Shown.antt =====
-- The memories that memory_search and memory_context of src/memhub/mcp/server.py show a client.
use mcp_shared_memory_hub.Prelude.{
  ℕ, ◌≡◌, ◌≢◌, sym, subst, ◌∙◌, inl, inr, Bool, true, false, Option, none, some, List, [], ◌∷◌, map,
  Text, arith, All, any, ◌==◌, ==_iff, Bool-cases,
}
use mcp_shared_memory_hub.Domain.Errors.{ok, Result-cases}
use mcp_shared_memory_hub.Domain.Models.{MemoryView}
use mcp_shared_memory_hub.Domain.Validation.{pos}
use mcp_shared_memory_hub.Store.Tables.{Memory, MemoryRevision, Db}
use mcp_shared_memory_hub.Store.Tx.{lift}
use mcp_shared_memory_hub.Store.Guarantee.{bind-inv, pure-inv, lift-inv}
use mcp_shared_memory_hub.Store.Memories.{current_revisions}
use mcp_shared_memory_hub.Services.Memories.{to_view}
use mcp_shared_memory_hub.Services.Retrieval.{is_of}
use mcp_shared_memory_hub.Services.Search.{SearchRequest, SearchResult}
use mcp_shared_memory_hub.Services.Hybrid.{Embedder}
use mcp_shared_memory_hub.Services.Hybrid.Sound.{hybrid_search-All}
use mcp_shared_memory_hub.Services.Brief.{BriefEnv, build_context}
use mcp_shared_memory_hub.Services.Brief.Gather.{search-All}
use mcp_shared_memory_hub.Services.Brief.Sound.{build_context-All}
use mcp_shared_memory_hub.Services.Projects.{truthy}
use mcp_shared_memory_hub.Mcp.Arguments.{parse_uuid, parse_types}
use mcp_shared_memory_hub.Mcp.Schemas.{memory_out, search_out, context_out}
use mcp_shared_memory_hub.Mcp.Calls.{
  World, Call, MemorySearch, Answer, memory_search, memory_context, search_answer, context_answer,
}
use mcp_shared_memory_hub.Mcp.Server.{
  heuristic, search_with, handle_memory_search, handle_memory_context, handle, fields_fit, answered,
  reply_of, reply,
}

none_of :
    (m : ℕ) (rows : List (Memory × MemoryRevision))
    → any (is_of m) rows ≡ false
    → All (λ x. (to_view x).memory_id ≢ m) rows
none_of m [] h = tt
none_of m (x ∷ rows) h = elim (Bool-cases (x.0.id == m)) [
  | inl e ↦ absurd (ground arith)
  | inr e ↦ ((λ same. ground (arith, ==_iff x.0.id m)), none_of m rows (ground arith))
]

-- the memories that a search or a brief shows the client, by the ids that it is sent
abbrev pub shown : Answer → List Text
shown (search_answer out) = map (λ r. r.memory_id) out.results
shown (context_answer out) = map (λ r. r.memory_id) out.memories
shown _ = []

shown-All :
    (uuid_text : ℕ → Text) (m : ℕ)
    → ((n : ℕ) → uuid_text n ≡ uuid_text m → n ≡ m)
    → (views : List MemoryView) → All (λ v. v.memory_id ≢ m) views
    → All (λ t. t ≢ uuid_text m) (map (λ r. r.memory_id) (map (memory_out uuid_text) views))
unfolding memory_out
shown-All uuid_text m distinct [] h = tt
shown-All uuid_text m distinct (v ∷ views) h =
    ((λ same. h.0 (distinct v.memory_id same)), shown-All uuid_text m distinct views h.1)

module _ (w : World) (m : ℕ) (t : Db)
    (distinct : (n : ℕ) → w.reading.uuid_text n ≡ w.reading.uuid_text m → n ≡ m)
    (out : (project_id : ℕ) → any (is_of m) (current_revisions project_id false t) ≡ false) where
  base :
      (project_id : ℕ) → All (λ x. (to_view x).memory_id ≢ m) (current_revisions project_id false t)
  base project_id = none_of m (current_revisions project_id false t) (out project_id)

  search_with-All :
      (embedder : Option Embedder) (project_id : ℕ) (request : SearchRequest) (limit : ℕ)
      (query : Option Text) (u : Db) (result : SearchResult)
      → search_with w embedder project_id request limit query t ≡ ok (result, u)
      → All (λ v. v.memory_id ≢ m) result.memories
  unfolding search_with
  search_with-All none project_id request limit query u result h =
      (search-All (λ v. v.memory_id ≢ m) project_id t (base project_id) w.env.py w.engines.text
        request h).1
  search_with-All (some embedder) project_id request limit none u result h =
      (search-All (λ v. v.memory_id ≢ m) project_id t (base project_id) w.env.py w.engines.text
        request h).1
  search_with-All (some embedder) project_id request limit (some query) u result h =
      let (_, _, views) =
        hybrid_search-All w.engines embedder project_id
          (record { query = query; types = request.types; tags = request.tags; limit = limit }) t
          (λ v. v.memory_id ≢ m) (base project_id) u result h in
      views

  searched-shown :
      (args : MemorySearch) (a : Answer) (u : Db)
      → handle_memory_search w args t ≡ ok (a, u)
      → All (λ i. i ≢ w.reading.uuid_text m) (shown a)
  unfolding handle_memory_search search_out
  searched-shown args a u h =
      let (project_id, t1, h1, k1) = bind-inv (lift (parse_uuid w.reading args.project_id)) _ t h in
      let (types, t2, h2, k2) = bind-inv (lift (parse_types w.reading args.types)) _ t1 k1 in
      let request : SearchRequest = record {
        query = args.query;
        types = types;
        tags = args.tags;
        limit = some (pos args.limit);
      } in
      let (result, t3, h3, k3) =
        bind-inv (search_with w w.embedder project_id request args.limit (truthy args.query)) _ t2
          k2 in
      let at : t2 ≡ t =
        sym (lift-inv (parse_types w.reading args.types) h2).1
        ∙ sym (lift-inv (parse_uuid w.reading args.project_id) h1).1 in
      let views =
        search_with-All w.embedder project_id request args.limit (truthy args.query) t3 result (
          subst
            (λ s.
              search_with w w.embedder project_id request args.limit (truthy args.query) s
              ≡ ok (result, t3))
            at h3) in
      subst (λ b. All (λ i. i ≢ w.reading.uuid_text m) (shown b)) (pure-inv k3).0
        (shown-All w.reading.uuid_text m distinct result.memories views)

  briefed-shown :
      (project_text : Text) (query : Option Text) (token_budget : ℕ) (a : Answer) (u : Db)
      → handle_memory_context w project_text query token_budget t ≡ ok (a, u)
      → All (λ i. i ≢ w.reading.uuid_text m) (shown a)
  unfolding handle_memory_context context_out
  briefed-shown project_text query token_budget a u h =
      let (project_id, t1, h1, k1) = bind-inv (lift (parse_uuid w.reading project_text)) _ t h in
      let env : BriefEnv = record {
        py = w.env.py;
        uuid_text = w.reading.uuid_text;
        embedder = w.embedder;
        counter = heuristic;
      } in
      let (built, t2, h2, k2) =
        bind-inv (build_context env w.engines project_id query token_budget) _ t1 k1 in
      let (_, _, _, views, _, _) =
        build_context-All env w.engines project_id query token_budget t (λ v. v.memory_id ≢ m)
          (base project_id) t2 built
          (subst (λ s. build_context env w.engines project_id query token_budget s ≡ ok (built, t2))
            (sym (lift-inv (parse_uuid w.reading project_text) h1).1) h2) in
      subst (λ b. All (λ i. i ≢ w.reading.uuid_text m) (shown b)) (pure-inv k2).0
        (shown-All w.reading.uuid_text m distinct built.memories views)

-- memory_search and memory_context
unfoldable pub retrieves : Call → Bool
retrieves (memory_search args) = true
retrieves (memory_context project_id query token_budget) = true
retrieves _ = false

pub handled-shown :
    (w : World) (m : ℕ) (t : Db) (call : Call) (a : Answer) (u : Db)
    → ((n : ℕ) → w.reading.uuid_text n ≡ w.reading.uuid_text m → n ≡ m)
    → ((project_id : ℕ) → any (is_of m) (current_revisions project_id false t) ≡ false)
    → retrieves call ≡ true
    → handle w call t ≡ ok (a, u)
    → All (λ i. i ≢ w.reading.uuid_text m) (shown a)
unfolding handle retrieves
handled-shown w m t (memory_search args) a u distinct out r h =
    searched-shown w m t distinct out args a u h
handled-shown w m t (memory_context project_id query token_budget) a u distinct out r h =
    briefed-shown w m t distinct out project_id query token_budget a u h
handled-shown w m t (Call.project_use args) a u distinct out r h = absurd (cc)
handled-shown w m t (Call.memory_remember args) a u distinct out r h = absurd (cc)
handled-shown w m t (Call.memory_revise args) a u distinct out r h = absurd (cc)
handled-shown w m t (Call.memory_forget p i client) a u distinct out r h = absurd (cc)
handled-shown w m t (Call.memory_history p i) a u distinct out r h = absurd (cc)
handled-shown w m t Call.list_projects a u distinct out r h = absurd (cc)
handled-shown w m t (Call.read_memory_history i) a u distinct out r h = absurd (cc)
handled-shown w m t (Call.read_memory i) a u distinct out r h = absurd (cc)

pub answered-inv :
    (w : World) (call : Call) (t : Db) (a : Answer)
    → reply w call t ≡ answered a
    → (u : Db) × (handle w call t ≡ ok (a, u))
unfolding reply
answered-inv w call t a h = elim (Bool-cases (fields_fit call)) [
  | inl fits ↦ served (rw fits at h)
  | inr e ↦ absurd (ground arith)
]
  where
    served : reply_of call (handle w call t) ≡ answered a → (u : Db) × (handle w call t ≡ ok (a, u))
    served k = elim (Result-cases (handle w call t)) [
      | inl ((b, u), e) ↦ (u, ground arith)
      | inr (c, e) ↦ absurd (ground arith)
    ]
