-- ===== src/Embeddings/Deferred.antt =====
-- src/memhub/embeddings/worker.py: `_defer`, the branch of a batch whose embedder failed.
use mcp_shared_memory_hub.Prelude.{
  ℕ, suc, ◌+◌, ◌-◌, ◌*◌, ◌^◌, ◌≡◌, refl, sym, ap, ◌∙◌, subst, ◌⊎◌, inl, inr, Bool, true, false,
  ◌&&◌, List, [], ◌∷◌, arith, leb, ◌==◌, ==_refl, ==_iff, Text, length, any, select_where,
  update_where, All, Bool-cases, if◌then◌else◌,
}
use mcp_shared_memory_hub.Domain.Errors.{ok}
use mcp_shared_memory_hub.Store.Tables.{JobState, EmbeddingJob, Db}
use mcp_shared_memory_hub.Store.Guarantee.{pure-inv, bind-inv}
use mcp_shared_memory_hub.Embeddings.Worker.{
  base_backoff, Row, count_dead, give_up, back_off, defer_one, defer_each,
}
use mcp_shared_memory_hub.Embeddings.Stored.{is_claimed}

abbrev pub is_dead : JobState → Bool
is_dead JobState.pending = false
is_dead JobState.done = false
is_dead JobState.dead = true

-- One more attempt is counted than the claimed row had. The fifth attempt is the last one; before it,
-- the next one is 2, 4, 8 and 16 seconds after `now`.
abbrev pub is_deferred : ℕ → Row → EmbeddingJob → Bool
is_deferred now row j =
    row.job.id == j.id
    && j.attempts == row.job.attempts + 1
    && (if leb 5 j.attempts
        then is_dead j.state
        else j.next_attempt_at == now + base_backoff * 2 ^ row.job.attempts)

-- each claimed job is deferred from a claimed row
abbrev pub AreDeferred : ℕ → List Row → Db → Type 0
AreDeferred now rows db =
    All (λ j. (is_claimed rows j ≡ false) ⊎ (any (λ row. is_deferred now row j) rows ≡ true))
      db.embedding_jobs

-- the change of one turn of `_defer`
abbrev change : Text → Row → ℕ → EmbeddingJob → EmbeddingJob
change reason row now =
    if leb 5 (row.job.attempts + 1)
    then give_up (row.job.attempts + 1) reason
    else back_off (row.job.attempts + 1) reason now

abbrev changed : Text → Row → Db → Db
changed reason row s = record s {
  embedding_jobs =
      update_where (λ j. j.id == row.job.id) (change reason row s.now) s.embedding_jobs;
}

defer_one-inv :
    (reason : Text) (row : Row) (s t : Db) (gave_up : Bool)
    → defer_one reason row s ≡ ok (gave_up, t)
    → (changed reason row s ≡ t) × (leb 5 (row.job.attempts + 1) ≡ gave_up)
unfolding defer_one
defer_one-inv reason row s t gave_up h = (ground arith, ground arith)

change-is_deferred :
    (reason : Text) (row : Row) (now : ℕ) (j : EmbeddingJob)
    → (j.id == row.job.id) ≡ true
    → is_deferred now row (change reason row now j) ≡ true
change-is_deferred reason row now j e = elim (Bool-cases (leb 5 (row.job.attempts + 1))) [
  | inl given_up ↦ rw (given_up, same_id, ==_refl (row.job.attempts + 1), given_up) refl
  | inr kept ↦
      rw (kept, same_id, ==_refl (row.job.attempts + 1), kept)
        (subst
          (λ n. (now + base_backoff * 2 ^ n == now + base_backoff * 2 ^ row.job.attempts) ≡ true)
          (sym (before row.job.attempts)) (==_refl (now + base_backoff * 2 ^ row.job.attempts)))
]
  where
    before : (n : ℕ) → n + 1 - 1 ≡ n
    before n = omega arith

    same_id : (row.job.id == j.id) ≡ true
    same_id = ground (arith, ==_iff j.id row.job.id, ==_iff row.job.id j.id)

-- what a turn leaves of a job that had `Q`
abbrev Turned : (EmbeddingJob → Type 0) → ℕ → Row → EmbeddingJob → Type 0
Turned Q now row j = (is_deferred now row j ≡ true) ⊎ (((row.job.id == j.id) ≡ false) × Q j)

update-Turned :
    (Q : EmbeddingJob → Type 0) (reason : Text) (row : Row) (now : ℕ) (jobs : List EmbeddingJob)
    → All Q jobs
    → All (Turned Q now row) (update_where (λ j. j.id == row.job.id) (change reason row now) jobs)
update-Turned Q reason row now [] h = tt
update-Turned Q reason row now (j ∷ jobs) h = elim (Bool-cases (j.id == row.job.id)) [
  | inl e ↦
      rw e (inl (change-is_deferred reason row now j e), update-Turned Q reason row now jobs h.1)
  | inr e ↦ rw e (
    inr (ground (arith, ==_iff j.id row.job.id, ==_iff row.job.id j.id), h.0),
    update-Turned Q reason row now jobs h.1,
  )
]

-- what the loop leaves
abbrev Left : (EmbeddingJob → Type 0) → ℕ → List Row → EmbeddingJob → Type 0
Left Q now rows j =
    (any (λ row. is_deferred now row j) rows ≡ true) ⊎ ((is_claimed rows j ≡ false) × Q j)

module _ (Q : EmbeddingJob → Type 0) (now : ℕ) (row : Row) (rows : List Row) where
  carry_over : (j : EmbeddingJob) → Left (Turned Q now row) now rows j → Left Q now (row ∷ rows) j
  carry_over j (inl h) = inl (ground arith)
  carry_over j (inr (e, inl h)) = inl (ground arith)
  carry_over j (inr (e, inr (e', q))) = inr (ground arith, q)

  carry_each :
      (jobs : List EmbeddingJob)
      → All (Left (Turned Q now row) now rows) jobs
      → All (Left Q now (row ∷ rows)) jobs
  carry_each [] h = tt
  carry_each (j ∷ jobs) h = (carry_over j h.0, carry_each jobs h.1)

untouched :
    (Q : EmbeddingJob → Type 0) (now : ℕ) (jobs : List EmbeddingJob)
    → All Q jobs
    → All (Left Q now []) jobs
untouched Q now [] h = tt
untouched Q now (j ∷ jobs) h = (inr (refl, h.0), untouched Q now jobs h.1)

defer_each-Left :
    (Q : EmbeddingJob → Type 0) (reason : Text) (rows : List Row) (s t : Db) (n : ℕ)
    → defer_each reason rows s ≡ ok (n, t)
    → All Q s.embedding_jobs
    → All (Left Q s.now rows) t.embedding_jobs
      × (t.memory_embeddings ≡ s.memory_embeddings)
      × (n ≡ length (select_where (λ row. leb 5 (row.job.attempts + 1)) rows))
unfolding defer_each
defer_each-Left Q reason [] s t n h all =
    let (number, here) = pure-inv h in
    (
      subst (λ x. All (Left Q s.now []) x.embedding_jobs) here
          (untouched Q s.now s.embedding_jobs all),
      ap (λ x. x.memory_embeddings) (sym here),
      sym number,
    )
defer_each-Left Q reason (row ∷ rows) s t n h all =
    let (gave_up, u, h1, k1) = bind-inv (defer_one reason row) _ s h in
    let (m, v, h2, k2) = bind-inv (defer_each reason rows) _ u k1 in
    let (at, dead) = defer_one-inv reason row s u gave_up h1 in
    let (left, same, count) =
      defer_each-Left (Turned Q s.now row) reason rows (changed reason row s) v m
        (subst (λ x. defer_each reason rows x ≡ ok (m, v)) (sym at) h2)
        (update-Turned Q reason row s.now s.embedding_jobs all) in
    let (number, here) = pure-inv k2 in
    (
      subst (λ x. All (Left Q s.now (row ∷ rows)) x.embedding_jobs) here
          (carry_each Q s.now row rows v.embedding_jobs left),
      subst (λ x. x.memory_embeddings ≡ s.memory_embeddings) here same,
      sym number ∙ counted gave_up m dead count,
    )
  where
    counted :
        (gave_up : Bool) (m : ℕ)
        → leb 5 (row.job.attempts + 1) ≡ gave_up
        → m ≡ length (select_where (λ row. leb 5 (row.job.attempts + 1)) rows)
        → count_dead gave_up m
          ≡ length (select_where (λ row. leb 5 (row.job.attempts + 1)) (row ∷ rows))
    counted true m e count = rw e (ap suc count)
    counted false m e count = rw e count

pub defer_each-AreDeferred :
    (reason : Text) (rows : List Row) (s t : Db) (n : ℕ)
    → defer_each reason rows s ≡ ok (n, t)
    → AreDeferred s.now rows t
      × (t.memory_embeddings ≡ s.memory_embeddings)
      × (n ≡ length (select_where (λ row. leb 5 (row.job.attempts + 1)) rows))
defer_each-AreDeferred reason rows s t n h =
    let (left, same, count) =
      defer_each-Left (λ j. Unit {0}) reason rows s t n h (anything s.embedding_jobs) in
    (deferred t.embedding_jobs left, same, count)
  where
    anything : (jobs : List EmbeddingJob) → All (λ j. Unit {0}) jobs
    anything [] = tt
    anything (j ∷ jobs) = (tt, anything jobs)

    turn_round :
        (j : EmbeddingJob)
        → Left (λ j. Unit {0}) s.now rows j
        → (is_claimed rows j ≡ false) ⊎ (any (λ row. is_deferred s.now row j) rows ≡ true)
    turn_round j (inl h) = inr h
    turn_round j (inr (e, _)) = inl e

    deferred :
        (jobs : List EmbeddingJob)
        → All (Left (λ j. Unit {0}) s.now rows) jobs
        → All
            (λ j. (is_claimed rows j ≡ false) ⊎ (any (λ row. is_deferred s.now row j) rows ≡ true))
            jobs
    deferred [] h = tt
    deferred (j ∷ jobs) h = (turn_round j h.0, deferred jobs h.1)
