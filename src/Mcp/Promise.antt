-- ===== src/Mcp/Promise.antt =====
-- src/memhub/mcp/server.py: what the clients see of the services' promises.
use mcp_shared_memory_hub.Prelude.{ℕ, ◌≡◌, ◌≢◌, true, List, All}
use mcp_shared_memory_hub.Store.Tables.{Db}
use mcp_shared_memory_hub.Store.Invariant.{IsWellFormed}
use mcp_shared_memory_hub.Store.Permanence.{IsPermanent}
use mcp_shared_memory_hub.Services.WellFormed.{well_formed_step}
use mcp_shared_memory_hub.Services.Permanent.{permanent_step}
use mcp_shared_memory_hub.Services.Retrieval.{IsRetired, retired_out, kept-IsRetired}
use mcp_shared_memory_hub.Mcp.Refines.{Trusts, serve_calls-keeps}
use mcp_shared_memory_hub.Mcp.Calls.{World, Call, Answer}
use mcp_shared_memory_hub.Mcp.Server.{Visit, serve_calls, answered, reply}
use mcp_shared_memory_hub.Mcp.Shown.{shown, retrieves, handled-shown, answered-inv}

-- Whatever calls the clients make, of whichever tools and resources and with whichever arguments, a
-- well-formed store stays well formed and keeps its past: no memory or revision is lost or changes
-- its content, and what is retired stays as it is. The other processes are trusted to do the same
-- while a call waits for them.
pub calls_lasting :
    (visits : List Visit) (db : Db)
    → Trusts well_formed_step visits
    → Trusts permanent_step visits
    → IsWellFormed db
    → IsWellFormed (serve_calls visits db) × IsPermanent db (serve_calls visits db)
calls_lasting visits db well permanent wf = (
  serve_calls-keeps well_formed_step visits db well wf,
  serve_calls-keeps permanent_step visits db permanent,
)

-- Once a memory is retired (superseded or forgotten) in a well-formed store, no memory_search and no
-- memory_context that any client calls after any calls of any clients is answered with a memory of its
-- id, whichever the project, the query, the embedder, the index and the scores are. The ids have
-- different texts, and the other processes are trusted to keep the store well formed and its past.
pub retired_never_shown :
    (visits : List Visit) (db : Db) (w : World) (call : Call) (m now : ℕ) (a : Answer)
    → Trusts well_formed_step visits
    → Trusts permanent_step visits
    → IsWellFormed db
    → IsRetired m db
    → ((n : ℕ) → w.reading.uuid_text n ≡ w.reading.uuid_text m → n ≡ m)
    → retrieves call ≡ true
    → reply w call (record (serve_calls visits db) { now = now }) ≡ answered a
    → All (λ i. i ≢ w.reading.uuid_text m) (shown a)
retired_never_shown visits db w call m now a well permanent wf retired distinct r h =
    let t : Db = record (serve_calls visits db) { now = now } in
    let (lasting, past) = calls_lasting visits db well permanent wf in
    let (u, handled) = answered-inv w call t a h in
    let gone : IsRetired m t = kept-IsRetired m db (serve_calls visits db) past lasting retired in
    handled-shown w m t call a u distinct (λ project_id. retired_out m project_id t gone) r handled
