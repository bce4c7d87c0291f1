-- ===== src/Mcp/Server.antt =====
-- src/memhub/mcp/server.py: the seven tools and the three resources, each as one transaction.
use mcp_shared_memory_hub.Prelude.{
  ℕ, Bool, true, ◌&&◌, Option, none, some, List, [], ◌∷◌, map, leb, Text, codes, first,
  select_where, ◌==◌, if◌then◌else◌,
}
use mcp_shared_memory_hub.Domain.Enums.{AuthorKind, agent}
use mcp_shared_memory_hub.Domain.Errors.{Error, Result, ok, err, resource_not_found}
use mcp_shared_memory_hub.Domain.Validation.{pos}
use mcp_shared_memory_hub.Store.Tables.{Db}
use mcp_shared_memory_hub.Store.Tx.{Tx, pure, raise, lift, gets, session_scope, ◌>>=◌}
use mcp_shared_memory_hub.Store.Projects.{list_all}
use mcp_shared_memory_hub.Context.Tokens.{estimate}
use mcp_shared_memory_hub.Services.Memories.{get_memory}
use mcp_shared_memory_hub.Services.Remember.{remember}
use mcp_shared_memory_hub.Services.Revise.{revise}
use mcp_shared_memory_hub.Services.Forget.{forget}
use mcp_shared_memory_hub.Services.Projects.{truthy, use_project}
use mcp_shared_memory_hub.Services.Search.{SearchRequest, SearchResult, search}
use mcp_shared_memory_hub.Services.Hybrid.{Embedder, hybrid_search}
use mcp_shared_memory_hub.Services.Brief.{TokenEstimator, build_context}
use mcp_shared_memory_hub.Services.History.{history}
use mcp_shared_memory_hub.Mcp.Arguments.{Reading, parse_uuid, parse_type, parse_types, parse_uuids}
use mcp_shared_memory_hub.Mcp.Mapping.{Reported, propagated, exception_of, domain_errors}
use mcp_shared_memory_hub.Mcp.Schemas.{
  project_out, memory_out, remember_out, revise_out, search_out, context_out, forget_out,
  history_out,
}
use mcp_shared_memory_hub.Mcp.Calls.{
  ProjectUse, MemoryRemember, MemoryRevise, MemorySearch, Call, Answer, World, project_use,
  memory_remember, memory_revise, memory_search, memory_context, memory_forget, memory_history,
  list_projects, read_memory_history, read_memory, project_answer, remember_answer, revise_answer,
  search_answer, context_answer, forget_answer, history_answer, memory_answer, projects_answer,
}

-- HeuristicEstimator()
abbrev pub heuristic : TokenEstimator
heuristic = record { name = codes "heuristic(chars/3.2)"; estimate = estimate }

-- the `ge` and `le` of the fields, which are checked before the handler runs
unfoldable pub fields_fit : Call → Bool
fields_fit (memory_revise args) = leb 1 args.expected_revision
fields_fit (memory_search args) = leb 1 args.limit && leb args.limit 100
fields_fit (memory_context project_id query token_budget) =
    leb 100 token_budget && leb token_budget 32_000
fields_fit (project_use args) = true
fields_fit (memory_remember args) = true
fields_fit (memory_forget project_id memory_id client) = true
fields_fit (memory_history project_id memory_id) = true
fields_fit list_projects = true
fields_fit (read_memory_history memory_id) = true
fields_fit (read_memory memory_id) = true

abbrev pub some_uuid : Result ℕ → Result (Option ℕ)
some_uuid (ok n) = ok (some n)
some_uuid (err e) = err e

-- _parse_uuid(value) if value else None
abbrev pub parse_hint : Reading → Option Text → Result (Option ℕ)
parse_hint reading none = ok none
parse_hint reading (some value) = some_uuid (parse_uuid reading value)

abbrev pub model_of : Option Embedder → Option Text
model_of none = none
model_of (some embedder) = some embedder.model_name

-- `embedder is not None and query`: the hybrid search, or the service's
unfoldable pub search_with :
    World → Option Embedder → ℕ → SearchRequest → ℕ → Option Text → Tx SearchResult
search_with w none project_id request limit query =
    search w.env.py w.engines.text project_id request
search_with w (some embedder) project_id request limit none =
    search w.env.py w.engines.text project_id request
search_with w (some embedder) project_id request limit (some query) =
    hybrid_search w.engines embedder project_id
      (record { query = query; types = request.types; tags = request.tags; limit = limit })

-- `_owning_project`
abbrev pub or_no_resource : {A : Type 0} → Option A → Tx A
or_no_resource none = raise resource_not_found
or_no_resource (some a) = pure a

unfoldable pub owning_project : ℕ → Tx ℕ
owning_project memory_id = do
  owner ←
      gets λ db. first (map (λ m. m.project_id) (select_where (λ m. m.id == memory_id) db.memories))
  or_no_resource owner

module _ (w : World) where
  unfoldable pub handle_project_use : ProjectUse → Tx Answer
  handle_project_use args = do
    project_id ← lift (parse_hint w.reading (truthy args.project_id))
    ref ← use_project w.env.py w.new_id (record {
      project_id = project_id;
      slug = args.slug;
      git_remote = args.git_remote;
      workspace_path = args.workspace_path;
      display_name = args.display_name;
      create = args.create;
    })
    pure (project_answer (project_out w.reading.uuid_text ref))

  unfoldable pub handle_memory_remember : MemoryRemember → Tx Answer
  handle_memory_remember args = do
    project_id ← lift (parse_uuid w.reading args.project_id)
    memory_type ← lift (parse_type w.reading args.type)
    supersedes ← lift (parse_uuids w.reading args.supersedes)
    result ← remember w.env w.new_id project_id (record {
      memory_type = memory_type;
      content = args.content;
      tags = args.tags;
      importance = args.importance;
      expires_at = none;
      supersedes = supersedes;
      source = args.source;
      author_client = args.client;
      author_kind = if args.human_confirmed then AuthorKind.human_confirmed else agent;
      client_request_id = args.client_request_id;
      request_id = none;
      embedding_model = model_of w.embedder;
    })
    pure (remember_answer (remember_out w.reading.uuid_text result))

  unfoldable pub handle_memory_revise : MemoryRevise → Tx Answer
  handle_memory_revise args = do
    project_id ← lift (parse_uuid w.reading args.project_id)
    memory_id ← lift (parse_uuid w.reading args.memory_id)
    result ← revise w.env project_id memory_id (record {
      expected_revision = args.expected_revision;
      content = args.content;
      tags = args.tags;
      change_reason = args.change_reason;
      source = none;
      author_client = args.client;
      author_kind = agent;
      client_request_id = args.client_request_id;
      request_id = none;
      embedding_model = model_of w.embedder;
    })
    pure (revise_answer (revise_out w.reading.uuid_text result))

  unfoldable pub handle_memory_search : MemorySearch → Tx Answer
  handle_memory_search args = do
    project_id ← lift (parse_uuid w.reading args.project_id)
    types ← lift (parse_types w.reading args.types)
    result ←
        search_with w w.embedder project_id
          (record {
            query = args.query;
            types = types;
            tags = args.tags;
            limit = some (pos args.limit);
          })
          args.limit (truthy args.query)
    pure (search_answer (search_out w.reading.uuid_text result))

  unfoldable pub handle_memory_context : Text → Option Text → ℕ → Tx Answer
  handle_memory_context project_text query token_budget = do
    project_id ← lift (parse_uuid w.reading project_text)
    built ←
        build_context
          (record {
            py = w.env.py;
            uuid_text = w.reading.uuid_text;
            embedder = w.embedder;
            counter = heuristic;
          })
          w.engines project_id query token_budget
    pure (context_answer (context_out w.reading.uuid_text built))

  unfoldable pub handle_memory_forget : Text → Text → Text → Tx Answer
  handle_memory_forget project_text memory_text client = do
    project_id ← lift (parse_uuid w.reading project_text)
    memory_id ← lift (parse_uuid w.reading memory_text)
    outcome ← forget project_id memory_id client none
    pure (forget_answer (forget_out w.reading.uuid_text memory_id outcome))

  unfoldable pub handle_memory_history : Text → Text → Tx Answer
  handle_memory_history project_text memory_text = do
    project_id ← lift (parse_uuid w.reading project_text)
    memory_id ← lift (parse_uuid w.reading memory_text)
    full ← history project_id memory_id
    pure (history_answer (history_out w.reading.uuid_text full))

  unfoldable pub handle_list_projects : Tx Answer
  handle_list_projects = do projects ← list_all w.slug_before 100; pure (projects_answer projects)

  unfoldable pub handle_read_memory_history : Text → Tx Answer
  handle_read_memory_history memory_text = do
    memory_id ← lift (parse_uuid w.reading memory_text)
    owner ← owning_project memory_id
    full ← history owner memory_id
    pure (history_answer (history_out w.reading.uuid_text full))

  unfoldable pub handle_read_memory : Text → Tx Answer
  handle_read_memory memory_text = do
    memory_id ← lift (parse_uuid w.reading memory_text)
    owner ← owning_project memory_id
    found ← get_memory owner memory_id
    view ← or_no_resource found
    pure (memory_answer (memory_out w.reading.uuid_text view))

  unfoldable pub handle : Call → Tx Answer
  handle (project_use args) = handle_project_use args
  handle (memory_remember args) = handle_memory_remember args
  handle (memory_revise args) = handle_memory_revise args
  handle (memory_search args) = handle_memory_search args
  handle (memory_context project_id query token_budget) =
      handle_memory_context project_id query token_budget
  handle (memory_forget project_id memory_id client) =
      handle_memory_forget project_id memory_id client
  handle (memory_history project_id memory_id) = handle_memory_history project_id memory_id
  handle list_projects = handle_list_projects
  handle (read_memory_history memory_id) = handle_read_memory_history memory_id
  handle (read_memory memory_id) = handle_read_memory memory_id

-- what the client is sent: an answer, the error of the handler, or the refusal of its fields
pub data Reply : Type 0 where
  answered : Answer → Reply
  refused : Reported → Reply
  malformed : Reply

-- the tools, but not the resources, stand under `domain_errors`
abbrev pub reported : Call → Error → Reported
reported list_projects e = propagated (exception_of e)
reported (read_memory_history memory_id) e = propagated (exception_of e)
reported (read_memory memory_id) e = propagated (exception_of e)
reported _ e = domain_errors (exception_of e)

abbrev pub reply_of : Call → Result (Answer × Db) → Reply
reply_of call (ok (a, db)) = answered a
reply_of call (err e) = refused (reported call e)

-- the reply to a call, from a database whose clock is that of the call
unfoldable pub reply : World → Call → Db → Reply
reply w call db = if fields_fit call then reply_of call (handle w call db) else malformed

-- the database after a call
unfoldable pub serve_call : World → Call → Db → Db
serve_call w call db = if fields_fit call then session_scope (handle w call) db else db

-- a call with the world and the clock that it meets
pub record Visit : Type 1 where
  pub world : World
  pub now : ℕ
  pub call : Call

unfoldable pub serve_calls : List Visit → Db → Db
serve_calls [] db = db
serve_calls (v ∷ visits) db =
    serve_calls visits (serve_call v.world v.call (record db { now = v.now }))
