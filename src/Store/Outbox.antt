-- ===== src/Store/Outbox.antt =====
-- src/memhub/persistence/repositories/truth.py: the embedding outbox.
use mcp_shared_memory_hub.Prelude.{
  ℕ, ◌+◌, Bool, ◌&&◌, none, ◌∷◌, ◌==◌, Text, text_eq, any, if◌then◌else◌,
}
use mcp_shared_memory_hub.Domain.Errors.{err, integrity_error}
use mcp_shared_memory_hub.Store.Tables.{JobState, EmbeddingJob, Db}
use mcp_shared_memory_hub.Store.Tx.{Tx, done}

-- the outbox row, and its UNIQUE (memory_id, revision_no, model)
abbrev pub job_matches : ℕ → ℕ → Text → EmbeddingJob → Bool
job_matches memory_id revision_no model j =
    j.memory_id == memory_id && j.revision_no == revision_no && text_eq j.model model

abbrev pub has_revision : ℕ → ℕ → Db → Bool
has_revision memory_id revision_no db =
    any (λ r. r.memory_id == memory_id && r.revision_no == revision_no) db.memory_revisions

-- the row that the INSERT adds
abbrev pub new_job : ℕ → ℕ → ℕ → Text → Db → EmbeddingJob
new_job project_id memory_id revision_no model db = record {
  id = db.next_job_id;
  memory_id = memory_id;
  revision_no = revision_no;
  project_id = project_id;
  model = model;
  state = JobState.pending;
  attempts = 0;
  next_attempt_at = db.now;
  last_error = none;
}

unfoldable pub enqueue_embedding : ℕ → ℕ → ℕ → Text → Tx (Unit {0})
enqueue_embedding project_id memory_id revision_no model db =
    if any (job_matches memory_id revision_no model) db.embedding_jobs
    then done tt (record db { next_job_id = db.next_job_id + 1 })
    else if has_revision memory_id revision_no db
    then done tt (record db {
      embedding_jobs = new_job project_id memory_id revision_no model db ∷ db.embedding_jobs;
      next_job_id = db.next_job_id + 1;
    })
    else err integrity_error
