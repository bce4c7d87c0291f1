-- ===== src/Embeddings/Outcome.antt =====
-- src/memhub/embeddings/worker.py: what a batch that commits has done.
use mcp_shared_memory_hub.Prelude.{◌≡◌, ◌⊎◌, List, leb, ◌+◌, length, select_where}
use mcp_shared_memory_hub.Store.Tables.{Db}
use mcp_shared_memory_hub.Embeddings.Worker.{EmbeddingWorker, BatchOutcome, Row}
use mcp_shared_memory_hub.Embeddings.Stored.{HaveVectors, AreDone}
use mcp_shared_memory_hub.Embeddings.Deferred.{AreDeferred}

-- all rows were embedded
abbrev pub AllEmbedded : EmbeddingWorker → List Row → BatchOutcome → Db → Type 0
AllEmbedded worker rows outcome t =
    (outcome.embedded ≡ length rows)
    × (outcome.failed ≡ 0)
    × (outcome.dead ≡ 0)
    × HaveVectors worker rows t
    × AreDone rows t

-- all rows were deferred
abbrev pub AllDeferred : List Row → BatchOutcome → Db → Db → Type 0
AllDeferred rows outcome s t =
    (outcome.embedded ≡ 0)
    × (outcome.failed ≡ length rows)
    × (outcome.dead ≡ length (select_where (λ row. leb 5 (row.job.attempts + 1)) rows))
    × (t.memory_embeddings ≡ s.memory_embeddings)
    × AreDeferred s.now rows t

module _ (worker : EmbeddingWorker) (s : Db) where
  abbrev Handled : List Row → BatchOutcome × Db → Type 0
  Handled rows (outcome, t) =
      (outcome.claimed ≡ length rows)
      × (AllEmbedded worker rows outcome t ⊎ AllDeferred rows outcome s t)
