-- ===== src/Embeddings/Stored.antt =====
-- src/memhub/embeddings/worker.py: the branch of a batch whose texts were embedded.
use mcp_shared_memory_hub.Prelude.{
  ◌≡◌, refl, subst, ◌⊎◌, inl, inr, true, false, Bool, List, [], ◌∷◌, arith, ◌==◌, ==_refl, Text,
  text_eq_refl, any, update_where, All, Bool-cases,
}
use mcp_shared_memory_hub.Domain.Errors.{Error, ok, internal}
use mcp_shared_memory_hub.Store.Tables.{JobState, EmbeddingJob, MemoryEmbedding, Db}
use mcp_shared_memory_hub.Store.Tx.{raise, ◌>>=◌}
use mcp_shared_memory_hub.Store.Guarantee.{pure-inv, bind-inv}
use mcp_shared_memory_hub.Embeddings.Worker.{
  EmbeddingWorker, Row, same_vector, insert_vector, store_vectors, mark_done, mark_all_done,
}

-- is the job one of those that the batch claimed?
abbrev pub is_claimed : List Row → EmbeddingJob → Bool
is_claimed rows j = any (λ row. row.job.id == j.id) rows

-- each row has its vector
abbrev pub HaveVectors : EmbeddingWorker → List Row → Db → Type 0
HaveVectors worker rows db =
    All (λ row. any (same_vector row.job worker.model_name) db.memory_embeddings ≡ true) rows

-- each claimed job is done
abbrev pub AreDone : List Row → Db → Type 0
AreDone rows db =
    All (λ j. (is_claimed rows j ≡ false) ⊎ (j.state ≡ JobState.done)) db.embedding_jobs

pub raised-none : {A : Type 0} (e : Error) (s t : Db) (a : A) → raise e s ≡ ok (a, t) → ⊥
unfolding raise
raised-none e s t a h = absurd (ground arith)

module _ (worker : EmbeddingWorker) where
  insert_vector-keeps :
      (row : Row) (v : Text) (s t : Db) (p : MemoryEmbedding → Bool)
      → insert_vector worker row v s ≡ ok (tt, t)
      → any p s.memory_embeddings ≡ true
      → any p t.memory_embeddings ≡ true
  unfolding insert_vector
  insert_vector-keeps row v s t p h there = ground (arith, there)

  insert_vector-stores :
      (row : Row) (v : Text) (s t : Db)
      → insert_vector worker row v s ≡ ok (tt, t)
      → any (same_vector row.job worker.model_name) t.memory_embeddings ≡ true
  unfolding insert_vector
  insert_vector-stores row v s t h = ground (
    arith,
    ==_refl row.job.memory_id,
    ==_refl row.job.revision_no,
    text_eq_refl worker.model_name,
  )

  store_vectors-keeps :
      (rows : List Row) (vs : List Text) (s t : Db) (p : MemoryEmbedding → Bool)
      → store_vectors worker rows vs s ≡ ok (tt, t)
      → any p s.memory_embeddings ≡ true
      → any p t.memory_embeddings ≡ true
  unfolding store_vectors
  store_vectors-keeps [] [] s t p h there =
      subst (λ x. any p x.memory_embeddings ≡ true) (pure-inv h).1 there
  store_vectors-keeps [] (v ∷ vs) s t p h there = absurd (raised-none internal s t tt h)
  store_vectors-keeps (row ∷ rows) [] s t p h there = absurd (raised-none internal s t tt h)
  store_vectors-keeps (row ∷ rows) (v ∷ vs) s t p h there =
      let (_, u, h1, k1) = bind-inv (insert_vector worker row v) _ s h in
      store_vectors-keeps rows vs u t p k1 (insert_vector-keeps row v s u p h1 there)

  pub store_vectors-HaveVectors :
      (rows : List Row) (vs : List Text) (s t : Db)
      → store_vectors worker rows vs s ≡ ok (tt, t)
      → HaveVectors worker rows t
  unfolding store_vectors
  store_vectors-HaveVectors [] vs s t h = tt
  store_vectors-HaveVectors (row ∷ rows) [] s t h = absurd (raised-none internal s t tt h)
  store_vectors-HaveVectors (row ∷ rows) (v ∷ vs) s t h =
      let (_, u, h1, k1) = bind-inv (insert_vector worker row v) _ s h in
      (
        store_vectors-keeps rows vs u t (same_vector row.job worker.model_name) k1
            (insert_vector-stores row v s u h1),
        store_vectors-HaveVectors rows vs u t k1,
      )

update-done :
    (rows : List Row) (jobs : List EmbeddingJob)
    → All
        (λ j. (is_claimed rows j ≡ false) ⊎ (j.state ≡ JobState.done))
        (update_where (is_claimed rows) mark_done jobs)
update-done rows [] = tt
update-done rows (j ∷ jobs) = elim (Bool-cases (is_claimed rows j)) [
  | inl e ↦ rw e (inr refl, update-done rows jobs)
  | inr e ↦ rw e (inl e, update-done rows jobs)
]

pub mark_all_done-AreDone :
    (worker : EmbeddingWorker) (rows : List Row) (s t : Db)
    → HaveVectors worker rows s
    → mark_all_done rows s ≡ ok (tt, t)
    → HaveVectors worker rows t × AreDone rows t
unfolding mark_all_done ◌>>=◌
mark_all_done-AreDone worker rows s t have h =
    subst (λ x. HaveVectors worker rows x × AreDone rows x) (same h)
      (have, update-done rows s.embedding_jobs)
  where
    same :
        mark_all_done rows s ≡ ok (tt, t)
        → record s { embedding_jobs = update_where (is_claimed rows) mark_done s.embedding_jobs }
          ≡ t
    same h = ground arith
