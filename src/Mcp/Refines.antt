-- ===== src/Mcp/Refines.antt =====
-- src/memhub/mcp/server.py: the relations between databases that the calls keep.
use mcp_shared_memory_hub.Prelude.{
  ℕ, ◌≡◌, refl, sym, subst, inl, inr, Option, none, some, List, [], ◌∷◌, Text, Bool-cases,
}
use mcp_shared_memory_hub.Domain.Errors.{ok, resource_not_found}
use mcp_shared_memory_hub.Store.Tables.{Db}
use mcp_shared_memory_hub.Store.Tx.{Tx}
use mcp_shared_memory_hub.Store.Guarantee.{
  Guarantees, Guarantees-pure, Guarantees-raise, Guarantees-lift, Guarantees-bind,
  Guarantees-weaken, Guarantees-session_scope, guarantee_rules,
}
use mcp_shared_memory_hub.Store.Projects.{list_all}
use mcp_shared_memory_hub.Store.Reports.{
  attestations, revisions, superseded_by, supersedes, audit_trail,
}
use mcp_shared_memory_hub.Services.Memories.{get_memory}
use mcp_shared_memory_hub.Services.Search.{SearchRequest}
use mcp_shared_memory_hub.Services.Search.Sound.{search_sound}
use mcp_shared_memory_hub.Services.Hybrid.{Embedder}
use mcp_shared_memory_hub.Services.Hybrid.Sound.{hybrid_search_sound}
use mcp_shared_memory_hub.Services.Brief.{BriefEnv, build_context}
use mcp_shared_memory_hub.Services.Brief.Sound.{build_context_sound}
use mcp_shared_memory_hub.Services.History.{history}
use mcp_shared_memory_hub.Services.Steps.{IsStoreStep, get-keeps, or_missing-keeps}
use mcp_shared_memory_hub.Services.Requests.Keeps.{remember-keeps, revise-keeps, forget-keeps}
use mcp_shared_memory_hub.Services.Projects.Keeps.{use_project-SameTruth}
use mcp_shared_memory_hub.Mcp.Calls.{
  World, Call, project_use, memory_remember, memory_revise, memory_search, memory_context,
  memory_forget, memory_history, list_projects, read_memory_history, read_memory, ProjectUse,
  MemoryRemember, MemoryRevise, MemorySearch,
}
use mcp_shared_memory_hub.Mcp.Server.{
  Visit, search_with, owning_project, or_no_resource, handle_project_use, handle_memory_remember,
  handle_memory_revise, handle_memory_search, handle_memory_context, handle_memory_forget,
  handle_memory_history, handle_list_projects, handle_read_memory_history, handle_read_memory,
  handle, fields_fit, serve_call, serve_calls,
}

module _ {R : Db → Db → Type 0} (keeps : IsStoreStep R) where
  -- what only reads
  reads-keeps :
      {A : Type 0} (m : Tx A)
      → ((s : Db) (a : A) (t : Db) → m s ≡ ok (a, t) → t ≡ s)
      → Guarantees R m
  reads-keeps m reads = record {
    at = λ s a t h. subst (R s) (sym (reads s a t h)) (keeps.step.stay s);
  }

  history-keeps : (project_id memory_id : ℕ) → Guarantees R (history project_id memory_id)
  unfolding history revisions superseded_by supersedes attestations audit_trail
  history-keeps project_id memory_id =
      search (guarantee_rules, keeps.step, get-keeps keeps, or_missing-keeps keeps) depth 16

  or_no_resource-keeps : {A : Type 0} (o : Option A) → Guarantees R (or_no_resource o)
  or_no_resource-keeps none = Guarantees-raise resource_not_found
  or_no_resource-keeps (some a) = Guarantees-pure keeps.step a

  owning_project-keeps : (memory_id : ℕ) → Guarantees R (owning_project memory_id)
  unfolding owning_project
  owning_project-keeps memory_id = search (guarantee_rules, keeps.step, or_no_resource-keeps)

  search_with-keeps :
      (w : World) (embedder : Option Embedder) (project_id : ℕ) (request : SearchRequest)
      (limit : ℕ) (query : Option Text)
      → Guarantees R (search_with w embedder project_id request limit query)
  unfolding search_with
  search_with-keeps w none project_id request limit query = reads-keeps _ λ s a t h.
      let (_, _, _, _, same, _, _) =
        search_sound w.env.py w.engines.text project_id request s t a h in
      same
  search_with-keeps w (some embedder) project_id request limit none = reads-keeps _ λ s a t h.
      let (_, _, _, _, same, _, _) =
        search_sound w.env.py w.engines.text project_id request s t a h in
      same
  search_with-keeps w (some embedder) project_id request limit (some query) =
      reads-keeps _ λ s a t h.
        (hybrid_search_sound w.engines embedder project_id
          (record { query = query; types = request.types; tags = request.tags; limit = limit }) s t
          a h).0

  build_context-keeps :
      (w : World) (env : BriefEnv) (project_id : ℕ) (query : Option Text) (token_budget : ℕ)
      → Guarantees R (build_context env w.engines project_id query token_budget)
  build_context-keeps w env project_id query token_budget = reads-keeps _ λ s a t h.
      let (_, _, same, _, _, _) =
        build_context_sound env w.engines project_id query token_budget s t a h in
      same

  get_memory-keeps : (project_id memory_id : ℕ) → Guarantees R (get_memory project_id memory_id)
  unfolding get_memory
  get_memory-keeps project_id memory_id = search (guarantee_rules, keeps.step, get-keeps keeps)

  module _ (w : World) (rely : (i : ℕ) (s : Db) → R s (w.env.others i s)) where
    handle_memory_remember-keeps :
        (args : MemoryRemember) → Guarantees R (handle_memory_remember w args)
    unfolding handle_memory_remember
    handle_memory_remember-keeps args =
        search (guarantee_rules, keeps.step, remember-keeps keeps w.env rely) depth 12

    handle_memory_revise-keeps : (args : MemoryRevise) → Guarantees R (handle_memory_revise w args)
    unfolding handle_memory_revise
    handle_memory_revise-keeps args =
        search (guarantee_rules, keeps.step, revise-keeps keeps w.env rely) depth 12

    handle_memory_forget-keeps :
        (project_text memory_text client : Text)
        → Guarantees R (handle_memory_forget w project_text memory_text client)
    unfolding handle_memory_forget
    handle_memory_forget-keeps project_text memory_text client =
        search (guarantee_rules, keeps.step, forget-keeps keeps) depth 12

    handle_project_use-keeps : (args : ProjectUse) → Guarantees R (handle_project_use w args)
    unfolding handle_project_use
    handle_project_use-keeps args =
        Guarantees-bind keeps.step _ _ (Guarantees-lift keeps.step _) λ project_id.
          Guarantees-bind keeps.step _ _
            (Guarantees-weaken _ keeps.same (use_project-SameTruth w.env.py w.new_id _))
            λ ref. Guarantees-pure keeps.step _

    handle_memory_search-keeps : (args : MemorySearch) → Guarantees R (handle_memory_search w args)
    unfolding handle_memory_search
    handle_memory_search-keeps args =
        search (guarantee_rules, keeps.step, search_with-keeps) depth 12

    handle_memory_context-keeps :
        (project_text : Text) (query : Option Text) (token_budget : ℕ)
        → Guarantees R (handle_memory_context w project_text query token_budget)
    unfolding handle_memory_context
    handle_memory_context-keeps project_text query token_budget =
        search (guarantee_rules, keeps.step, build_context-keeps) depth 12

    handle_memory_history-keeps :
        (project_text memory_text : Text)
        → Guarantees R (handle_memory_history w project_text memory_text)
    unfolding handle_memory_history
    handle_memory_history-keeps project_text memory_text =
        search (guarantee_rules, keeps.step, history-keeps) depth 12

    handle_list_projects-keeps : Guarantees R (handle_list_projects w)
    unfolding handle_list_projects list_all
    handle_list_projects-keeps = search (guarantee_rules, keeps.step) depth 8

    handle_read_memory_history-keeps :
        (memory_text : Text) → Guarantees R (handle_read_memory_history w memory_text)
    unfolding handle_read_memory_history
    handle_read_memory_history-keeps memory_text =
        search (guarantee_rules, keeps.step, owning_project-keeps, history-keeps) depth 12

    handle_read_memory-keeps :
        (memory_text : Text) → Guarantees R (handle_read_memory w memory_text)
    unfolding handle_read_memory
    handle_read_memory-keeps memory_text =
        search
          (
            guarantee_rules, keeps.step, owning_project-keeps, get_memory-keeps,
            or_no_resource-keeps,
          )
          depth 14

    handle-keeps : (call : Call) → Guarantees R (handle w call)
    unfolding handle
    handle-keeps (project_use args) = handle_project_use-keeps args
    handle-keeps (memory_remember args) = handle_memory_remember-keeps args
    handle-keeps (memory_revise args) = handle_memory_revise-keeps args
    handle-keeps (memory_search args) = handle_memory_search-keeps args
    handle-keeps (memory_context project_id query token_budget) =
        handle_memory_context-keeps project_id query token_budget
    handle-keeps (memory_forget project_id memory_id client) =
        handle_memory_forget-keeps project_id memory_id client
    handle-keeps (memory_history project_id memory_id) =
        handle_memory_history-keeps project_id memory_id
    handle-keeps list_projects = handle_list_projects-keeps
    handle-keeps (read_memory_history memory_id) = handle_read_memory_history-keeps memory_id
    handle-keeps (read_memory memory_id) = handle_read_memory-keeps memory_id

    serve_call-keeps : (call : Call) (s : Db) → R s (serve_call w call s)
    unfolding serve_call
    serve_call-keeps call s = elim (Bool-cases (fields_fit call)) [
      | inl e ↦ rw e (Guarantees-session_scope keeps.step _ (handle-keeps call) s)
      | inr e ↦ rw e (keeps.step.stay s)
    ]

  -- Each process relies on the others to keep the relation while it waits.
  abbrev pub Trusts : List Visit → Type 0
  Trusts [] = Unit
  Trusts (v ∷ visits) = ((i : ℕ) (s : Db) → R s (v.world.env.others i s)) × Trusts visits

  pub serve_calls-keeps :
      (visits : List Visit) (s : Db) → Trusts visits → R s (serve_calls visits s)
  unfolding serve_calls
  serve_calls-keeps [] s rely = keeps.step.stay s
  serve_calls-keeps (v ∷ visits) s rely =
      let ticked : Db = record s { now = v.now } in
      let t : Db = serve_call v.world v.call ticked in
      keeps.step.trans s t _
        (keeps.step.trans s ticked t
          (keeps.same s ticked
            (record { memories = refl; memory_revisions = refl; memory_dedup_keys = refl }))
          (serve_call-keeps v.world rely.0 v.call ticked))
        (serve_calls-keeps visits t rely.1)
