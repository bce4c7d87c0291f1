-- ===== src/Services/Requests.antt =====
-- mcp/server.py runs each write tool as one transaction of `session_scope`. A request arrives with the
-- clock of the database and whatever its process brings; a history is a list of requests, from any
-- clients and on any projects, in the order in which their transactions commit.
pub mod Keeps
use mcp_shared_memory_hub.Prelude.{ℕ, Option, List, [], ◌∷◌, Text}
use mcp_shared_memory_hub.Store.Tables.{Db}
use mcp_shared_memory_hub.Store.Tx.{session_scope}
use mcp_shared_memory_hub.Store.Retirement
use mcp_shared_memory_hub.Services.Memories.{Env, RememberRequest, ReviseRequest}
use mcp_shared_memory_hub.Services.Remember.{remember}
use mcp_shared_memory_hub.Services.Revise.{revise}
use mcp_shared_memory_hub.Services.Forget.{forget}

-- memory_remember, memory_revise and memory_forget
pub data Request : Type 0 where
  remembering : (new_id : ℕ) → RememberRequest → Request
  revising : (memory_id : ℕ) → ReviseRequest → Request
  forgetting : (memory_id : ℕ) → (client : Text) → (request_id : Option Text) → Request

pub record Arrival : Type 0 where
  pub env : Env
  pub now : ℕ
  pub project_id : ℕ
  pub request : Request

unfoldable pub serve_request : Env → ℕ → Request → Db → Db
serve_request env project_id (remembering new_id request) =
    session_scope (remember env new_id project_id request)
serve_request env project_id (revising memory_id request) =
    session_scope (revise env project_id memory_id request)
serve_request env project_id (forgetting memory_id client request_id) =
    session_scope (forget project_id memory_id client request_id)

unfoldable pub serve : Arrival → Db → Db
serve a db = serve_request a.env a.project_id a.request (record db { now = a.now })

unfoldable pub serve_all : List Arrival → Db → Db
serve_all [] db = db
serve_all (a ∷ arrivals) db = serve_all arrivals (serve a db)
