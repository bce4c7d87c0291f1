-- ===== src/Tests/Embeddings.antt =====
-- A worker on a store with one pending job, whose embedder is down.
use mcp_shared_memory_hub.Prelude.{false, none, [], ◌∷◌}
use mcp_shared_memory_hub.Store.Tables.{JobState, EmbeddingJob, Db}
use mcp_shared_memory_hub.Embeddings.Worker.{
  vectors, embedding_error, EmbeddingWorker, BatchOutcome, give_up,
}
use mcp_shared_memory_hub.Tests.Data.{small_db, claude}

abbrev the_job : EmbeddingJob
the_job = record {
  id = 1;
  memory_id = 7;
  revision_no = 1;
  project_id = 1;
  model = claude;
  state = JobState.pending;
  attempts = 4;
  next_attempt_at = 5;
  last_error = none;
}

abbrev queued_db : Db
queued_db = record small_db { embedding_jobs = the_job ∷ [] }

abbrev broken : EmbeddingWorker
broken = record {
  model_name = claude;
  dimension = 384;
  embed = λ contents. embedding_error [];
  batch_size = 16;
  locked = λ id. false;
}

-- a worker whose embedder takes each text for its vector
abbrev copying : EmbeddingWorker
copying = record {
  model_name = claude;
  dimension = 384;
  embed = λ contents. vectors contents;
  batch_size = 16;
  locked = λ id. false;
}

abbrev one_dead : BatchOutcome
one_dead = record { claimed = 1; embedded = 0; failed = 1; dead = 1 }

abbrev dead_db : Db
dead_db = record queued_db { embedding_jobs = give_up 5 [] the_job ∷ [] }
