-- ===== src/Embeddings/Commit.antt =====
-- src/memhub/embeddings/worker.py: why no batch of a drain raises.
use mcp_shared_memory_hub.Prelude.{◌≡◌, Bool, true, ◌&&◌, List, ◌∷◌, ◌==◌, Text, length, any, All}
use mcp_shared_memory_hub.Domain.Errors.{Result, ok}
use mcp_shared_memory_hub.Store.Tables.{EmbeddingJob, MemoryRevision, Db}
use mcp_shared_memory_hub.Embeddings.Worker.{
  Embedded, vectors, embedding_error, raised, EmbeddingWorker, Row,
}

-- the contract of EmbeddingPort.embed: one vector for each text, or its own error
abbrev pub Answers : List Text → Embedded → Type 0
Answers texts (vectors vs) = length vs ≡ length texts
Answers texts (embedding_error reason) = Unit
Answers texts (raised e) = ⊥

-- the worker stands on a port that keeps its contract and makes vectors of the column's dimension
pub record IsSupplied (worker : EmbeddingWorker) : Type 0 where
  pub dimension : worker.dimension ≡ 384
  pub answers : (texts : List Text) → Answers texts (worker.embed texts)

abbrev is_revision : EmbeddingJob → MemoryRevision → Bool
is_revision j r = r.memory_id == j.memory_id && r.revision_no == j.revision_no

abbrev AreKnown : List MemoryRevision → List Row → Type 0
AreKnown revisions rows = All (λ row. any (is_revision row.job) revisions ≡ true) rows

-- a step that commits and leaves the revisions as they are
abbrev Commits : {A : Type 0} → (s : Db) → Result (A × Db) → Type 0
Commits {A} s answer =
    (a : A) × (t : Db) × (answer ≡ ok (a, t)) × (t.memory_revisions ≡ s.memory_revisions)

abbrev inserted : EmbeddingWorker → Row → Text → Db → Db
inserted worker row v s = record s {
  memory_embeddings =
      record {
        memory_id = row.job.memory_id;
        revision_no = row.job.revision_no;
        model = worker.model_name;
        project_id = row.job.project_id;
        dim = worker.dimension;
        embedding = v;
      }
      ∷ s.memory_embeddings;
}
