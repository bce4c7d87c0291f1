-- ===== src/Lib.antt =====
-- A model of memhub, a shared memory for coding agents behind an MCP server, and its verification.
--
-- memhub keeps the memories of a project (decisions, constraints, facts and tasks) in PostgreSQL. Its
-- server (src/memhub/mcp) runs every write tool as one transaction of the services, the services
-- (src/memhub/services) validate and compose the statements of the repositories
-- (src/memhub/persistence/repositories, src/memhub/persistence/sql), and several servers may do so at
-- once. The modules follow these layers:
--
--   Prelude      what the modules share: Boolean tests, lists as tables, texts as code points.
--   Domain       src/memhub/domain: enumerations, errors, policy, validation, normalisation; GitRemote
--                is normalize_git_remote.
--   Store        src/memhub/persistence: Tables is models.py, a record for each row and a list for
--                each table; Tx is the transaction monad (engine.py, savepoints); Memories, Dedup,
--                Search, Attestation, Retirement, Outbox, Lineage, Reports, Coverage, Projects and
--                Audit are the repositories, with the statements of sql/ written as functions of the
--                database and retrieval/filters.py; Found says what `get` finds.
--                Guarantee holds the rules by which a relation between the database before and after
--                is proved of a whole transaction. Invariant, Permanence, Race and Register say what the
--                writes keep.
--   Services     src/memhub/services: Idempotency, Memories, Remember, Revise, Forget and History are
--                the operations; Steps is the interface between store and services, and Requests is a
--                history of requests, each one a committed or rolled-back transaction. Retrieval,
--                Forgotten, Replay, Retry, Revise.Merged, Acceptance and Expiry say what a client can
--                rely on. Projects is projects.py, Search is search with its widening of
--                src/memhub/retrieval/lexical.py, Hybrid is retrieval.py and Brief is context.py.
--   Context      src/memhub/context: Tokens is tokens.py, Similarity and Builder are builder.py, over an
--                arithmetic of scores that is a parameter (Floats), and Render is render.py; Fill,
--                Budget, Diversity, Choice, Settled and Reasons say what a selection keeps and leaves out.
--   Retrieval    src/memhub/retrieval: Fusion is fusion.py, with Exact on what it keeps, and Semantic
--                is semantic.py.
--   Embeddings   src/memhub/embeddings/worker.py: Worker is a batch and the drain of the outbox;
--                Stored, Deferred and Outcome say what a batch does, Commit that none raises.
--   Mcp          src/memhub/mcp: Calls and Server are server.py, a call for each tool and
--                resource and its handler, Arguments the reading of ids and types, Schemas
--                schemas.py and Mapping mapping.py with the codes of
--                src/memhub/persistence/sqlstate.py. Refines shows that a call is a request of the
--                services or none; Shown, Promise and Merge say what the clients can
--                rely on.
--   Tests        a small store, and concrete runs.
--
-- Conventions. A UUID is its 128-bit number, a timestamp a number of microseconds, and `now` what
-- now() reads, the start of the running transaction. A text is its list of code points. No query
-- depends on the order of rows, so an INSERT puts its row at the head. An error of a transaction
-- carries no state, since session_scope rolls back. A statement that violates a constraint of the
-- schema raises integrity_error. The INSERT of a revision refuses U+0000 in a text (database_error).
-- A session holds the rows that it has read: where that shows in an answer (revise), the model says so.
--
-- Parameters. The text search of PostgreSQL and its scores (Store.Search.TextSearch), the distances of
-- pgvector and how far the scan of its index gets (Retrieval.Semantic.VectorSearch), the embedding of a
-- query and the error that the vector query may raise (Services.Hybrid), Unicode case folding, NFKC and
-- SHA-256 (Domain.Unicode.Platform), json.dumps (Dumps), the reading and printing of a UUID and
-- str.upper (Mcp.Arguments.Reading), the collation of slugs, the id that gen_random_uuid() returns, the
-- clock of a process, and what other transactions commit while a request waits for the lock of its
-- idempotency key (Env.others). For the worker: the encoder, the jobs that other transactions have
-- locked, and the clock of each batch. For the context builder and fusion: the arithmetic of the
-- scores. The float computations with exact quotients (the estimate of a text, the usable part of a
-- budget, the share of a quota, a coverage) are written as quotients of naturals.
--
-- Bounds. The loop of `claim` runs on the attempts that are left, MAX_CLAIM_ATTEMPTS = 3 as in the
-- code, which raises when they are used up. The walk of `lineage` runs on fuel for the depth cap of 64
-- that the code has. The loop of `_fill` runs on fuel for the candidates that remain, one of which each
-- turn takes away.
--
-- Not modelled: the text of errors, of guidance and notes, of log lines and metrics, rounding in a
-- result, the free-form detail of audit events, the overflow of 32-bit revision numbers, deadlocks
-- of PostgreSQL and timeouts of other statements than the vector query, the refusal of U+0000 by other
-- statements than the INSERT of a revision (names, aliases, request ids, searches), the interleaving of the
-- statements of two transactions (a history is the order of their commits; Race covers the row that
-- two of them update), the SQL expressions of the scores (ranking.py), the encoders, the transport
-- with its schemas of arguments, the JSON text of a resource, the evaluation, the configuration,
-- the migrations and the command line.
pub mod Prelude
pub mod Domain
pub mod Store
pub mod Services
pub mod Context
pub mod Embeddings
pub mod Mcp
pub mod Retrieval
pub mod Tests
