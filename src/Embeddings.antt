-- ===== src/Embeddings.antt =====
-- src/memhub/embeddings/worker.py: the worker that drains the outbox.
pub mod Worker
pub mod Stored
pub mod Deferred
pub mod Outcome
pub mod Commit
