-- ===== src/Embeddings/Worker.antt =====
-- src/memhub/embeddings/worker.py. The embedder is a parameter, and so are the jobs that other
-- workers have locked and the clock of each batch.
use mcp_shared_memory_hub.Prelude.{
  sort_by, ℕ, suc, ◌+◌, ◌-◌, ◌*◌, ◌^◌, Bool, true, false, not, ◌&&◌, some, List, [], ◌∷◌, ◌++◌, map,
  leb, ltb, ◌==◌, Text, text_eq, length, take, any, is_empty, select_where, update_where,
  if◌then◌else◌,
}
use mcp_shared_memory_hub.Domain.Errors.{Error, Result, ok, err, internal, integrity_error}
use mcp_shared_memory_hub.Store.Tables.{JobState, EmbeddingJob, MemoryEmbedding, MemoryRevision, Db}
use mcp_shared_memory_hub.Store.Outbox.{has_revision}
use mcp_shared_memory_hub.Store.Tx.{Tx, done, pure, raise, gets, modify, ◌>>=◌, ◌>>◌}

abbrev pub max_attempts : ℕ
max_attempts = 5

-- timedelta(seconds=2)
abbrev pub base_backoff : ℕ
base_backoff = 2000000

-- EMBEDDING_DIM of persistence/models.py
abbrev pub embedding_dim : ℕ
embedding_dim = 384

-- what EmbeddingPort.embed returns, each vector as its text; or the reason of its EmbeddingError; or
-- any other exception
pub data Embedded : Type 0 where
  vectors : List Text → Embedded
  embedding_error : Text → Embedded
  raised : Error → Embedded

pub record EmbeddingWorker : Type 0 where
  pub model_name : Text
  pub dimension : ℕ
  pub embed : List Text → Embedded
  pub batch_size : ℕ
  -- the jobs whose rows other transactions hold
  pub locked : ℕ → Bool

pub record BatchOutcome : Type 0 where
  pub claimed : ℕ
  pub embedded : ℕ
  pub failed : ℕ
  pub dead : ℕ

-- a row of CLAIM_JOBS: the job and the content of its revision
pub record Row : Type 0 where
  pub job : EmbeddingJob
  pub content : Text

abbrev pub is_pending : JobState → Bool
is_pending JobState.pending = true
is_pending JobState.done = false
is_pending JobState.dead = false

abbrev pub is_due : EmbeddingWorker → ℕ → EmbeddingJob → Bool
is_due worker now j =
    is_pending j.state
    && text_eq j.model worker.model_name
    && leb j.next_attempt_at now
    && not (worker.locked j.id)

abbrev pub with_content : EmbeddingJob → List MemoryRevision → List Row
with_content j revisions =
    map (λ (r : MemoryRevision). record { job = j; content = r.content })
      (select_where (λ r. r.memory_id == j.memory_id && r.revision_no == j.revision_no) revisions)

abbrev pub join_content : List EmbeddingJob → List MemoryRevision → List Row
join_content [] revisions = []
join_content (j ∷ jobs) revisions = with_content j revisions ++ join_content jobs revisions

-- ORDER BY j.next_attempt_at
abbrev pub due_before : Row → Row → Bool
due_before a b = ltb a.job.next_attempt_at b.job.next_attempt_at

-- CLAIM_JOBS
unfoldable pub claim_jobs : EmbeddingWorker → Tx (List Row)
claim_jobs worker = gets λ db. take worker.batch_size (
    sort_by due_before
      (join_content (select_where (is_due worker db.now) db.embedding_jobs) db.memory_revisions))

abbrev pub same_vector : EmbeddingJob → Text → MemoryEmbedding → Bool
same_vector j model v =
    v.memory_id == j.memory_id && v.revision_no == j.revision_no && text_eq v.model model

-- INSERT INTO memory_embeddings ... ON CONFLICT DO NOTHING
unfoldable pub insert_vector : EmbeddingWorker → Row → Text → Tx (Unit {0})
insert_vector worker row vector db =
    if not (worker.dimension == embedding_dim)
    then err integrity_error
    else if any (same_vector row.job worker.model_name) db.memory_embeddings
    then done tt db
    else if has_revision row.job.memory_id row.job.revision_no db
    then done tt (record db {
      memory_embeddings =
          record {
            memory_id = row.job.memory_id;
            revision_no = row.job.revision_no;
            model = worker.model_name;
            project_id = row.job.project_id;
            dim = worker.dimension;
            embedding = vector;
          }
          ∷ db.memory_embeddings;
    })
    else err integrity_error

-- for row, vector in zip(rows, vectors, strict=True), which raises where the lengths differ
unfoldable pub store_vectors : EmbeddingWorker → List Row → List Text → Tx (Unit {0})
store_vectors worker [] [] = pure tt
store_vectors worker [] (v ∷ vs) = raise internal
store_vectors worker (row ∷ rows) [] = raise internal
store_vectors worker (row ∷ rows) (v ∷ vs) =
    let rest = store_vectors worker rows vs in do insert_vector worker row v; rest

abbrev pub mark_done : EmbeddingJob → EmbeddingJob
mark_done j = record j { state = JobState.done }

-- UPDATE embedding_jobs SET state = 'DONE' WHERE id = ANY(:ids)
unfoldable pub mark_all_done : List Row → Tx (Unit {0})
mark_all_done rows = modify λ db. record db {
  embedding_jobs =
      update_where (λ j. any (λ row. row.job.id == j.id) rows) mark_done db.embedding_jobs;
}

-- reason[:2000]
abbrev pub give_up : ℕ → Text → EmbeddingJob → EmbeddingJob
give_up attempts reason j = record j {
  state = JobState.dead;
  attempts = attempts;
  last_error = some (take 2000 reason);
}

abbrev pub back_off : ℕ → Text → ℕ → EmbeddingJob → EmbeddingJob
back_off attempts reason now j = record j {
  attempts = attempts;
  last_error = some (take 2000 reason);
  next_attempt_at = now + base_backoff * 2 ^ (attempts - 1);
}

-- one turn of the loop of `_defer`: whether the job is dead now
unfoldable pub defer_one : Text → Row → Tx Bool
defer_one reason row db =
    let attempts = row.job.attempts + 1 in
    let gives_up = leb max_attempts attempts in
    let change : EmbeddingJob → EmbeddingJob =
      if gives_up then give_up attempts reason else back_off attempts reason db.now in
    done gives_up (record db {
      embedding_jobs = update_where (λ j. j.id == row.job.id) change db.embedding_jobs;
    })

abbrev pub count_dead : Bool → ℕ → ℕ
count_dead true n = suc n
count_dead false n = n

-- the loop of `_defer`: how many jobs it gave up
unfoldable pub defer_each : Text → List Row → Tx ℕ
defer_each reason [] = pure 0
defer_each reason (row ∷ rows) =
    let rest = defer_each reason rows in
    do gave_up ← defer_one reason row; given_up ← rest; pure (count_dead gave_up given_up)

unfoldable pub defer : List Row → Text → Tx BatchOutcome
defer rows reason = do
  given_up ← defer_each reason rows
  pure (record { claimed = length rows; embedded = 0; failed = length rows; dead = given_up })

unfoldable pub process : EmbeddingWorker → List Row → Embedded → Tx BatchOutcome
process worker rows (embedding_error reason) = defer rows reason
process worker rows (raised e) = raise e
process worker rows (vectors vs) = do
  store_vectors worker rows vs
  mark_all_done rows
  pure (record { claimed = length rows; embedded = length rows; failed = 0; dead = 0 })

abbrev pub no_work : BatchOutcome
no_work = record { claimed = 0; embedded = 0; failed = 0; dead = 0 }

unfoldable pub run_claimed : EmbeddingWorker → List Row → Tx BatchOutcome
run_claimed worker rows =
    if is_empty rows
    then pure no_work
    else process worker rows (worker.embed (map (λ row. row.content) rows))

-- the body of `run_once`, one transaction
unfoldable pub run_once : EmbeddingWorker → Tx BatchOutcome
run_once worker = do rows ← claim_jobs worker; run_claimed worker rows

abbrev pub add_outcome : BatchOutcome → BatchOutcome → BatchOutcome
add_outcome a b = record {
  claimed = a.claimed + b.claimed;
  embedded = a.embedded + b.embedded;
  failed = a.failed + b.failed;
  dead = a.dead + b.dead;
}

abbrev pub idle : BatchOutcome → Bool
idle outcome = outcome.claimed == 0

-- The loop of `drain`: every batch is a transaction of its own at its own time, and what it committed
-- stays when a later one raises.
unfoldable pub drain_loop : EmbeddingWorker → List ℕ → BatchOutcome → Db → Result BatchOutcome × Db
drain_loop worker [] totals db = (ok totals, db)
drain_loop worker (now ∷ times) totals db = elim (run_once worker (record db { now = now })) [
  | err e ↦ (err e, db)
  | ok (outcome, db') ↦
      let more = drain_loop worker times (add_outcome totals outcome) db' in
      if idle outcome then (ok totals, db') else more
]

-- `times` are the clocks of the batches, at most max_batches of them
unfoldable pub drain : EmbeddingWorker → List ℕ → Db → Result BatchOutcome × Db
drain worker times db = drain_loop worker times no_work db
