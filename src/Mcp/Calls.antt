-- ===== src/Mcp/Calls.antt =====
-- The tools and resources of src/memhub/mcp/server.py with their arguments, and their answers.
use mcp_shared_memory_hub.Prelude.{ℕ, Bool, Option, List, Text}
use mcp_shared_memory_hub.Domain.Validation.{ℤ}
use mcp_shared_memory_hub.Store.Tables.{Project}
use mcp_shared_memory_hub.Services.Memories.{Env}
use mcp_shared_memory_hub.Services.Hybrid.{Engines, Embedder}
use mcp_shared_memory_hub.Mcp.Arguments.{Reading}
use mcp_shared_memory_hub.Mcp.Schemas.{
  ProjectOut, MemoryOut, RememberOut, ReviseOut, SearchOut, ContextOut, ForgetOut, HistoryOut,
}

-- the arguments of the tools, as the client sends them
pub record ProjectUse : Type 0 where
  pub slug : Option Text
  pub project_id : Option Text
  pub git_remote : Option Text
  pub workspace_path : Option Text
  pub display_name : Option Text
  pub create : Bool

pub record MemoryRemember : Type 0 where
  pub project_id : Text
  pub type : Text
  pub content : Text
  pub tags : List Text
  pub importance : Option ℤ
  pub supersedes : List Text
  pub source : Option Text
  pub client : Text
  pub human_confirmed : Bool
  pub client_request_id : Option Text

pub record MemoryRevise : Type 0 where
  pub project_id : Text
  pub memory_id : Text
  pub expected_revision : ℕ
  pub content : Text
  pub tags : List Text
  pub change_reason : Option Text
  pub client : Text
  pub client_request_id : Option Text

pub record MemorySearch : Type 0 where
  pub project_id : Text
  pub query : Option Text
  pub types : List Text
  pub tags : List Text
  pub limit : ℕ

pub data Call : Type 0 where
  project_use : ProjectUse → Call
  memory_remember : MemoryRemember → Call
  memory_revise : MemoryRevise → Call
  memory_search : MemorySearch → Call
  memory_context : (project_id : Text) → (query : Option Text) → (token_budget : ℕ) → Call
  memory_forget : (project_id memory_id : Text) → (client : Text) → Call
  memory_history : (project_id memory_id : Text) → Call
  list_projects : Call
  read_memory_history : (memory_id : Text) → Call
  read_memory : (memory_id : Text) → Call

pub data Answer : Type 0 where
  project_answer : ProjectOut → Answer
  remember_answer : RememberOut → Answer
  revise_answer : ReviseOut → Answer
  search_answer : SearchOut → Answer
  context_answer : ContextOut → Answer
  forget_answer : ForgetOut → Answer
  history_answer : HistoryOut → Answer
  memory_answer : MemoryOut → Answer
  projects_answer : List Project → Answer

-- What a call finds outside itself: the environment of its process, the id that gen_random_uuid()
-- would return, and the two engines of search with the embedder that the server was built with.
pub record World : Type 1 where
  pub reading : Reading
  pub env : Env
  pub new_id : ℕ
  pub engines : Engines
  pub embedder : Option Embedder
  pub slug_before : Text → Text → Bool
