-- ===== src/Services/History/Record.antt =====
-- What `history` answers in a well-formed store.
use mcp_shared_memory_hub.Prelude.{
  ℕ, zero, suc, ◌≡◌, refl, sym, ap, ◌∙◌, subst, true, some, List, [], ◌∷◌, ◌++◌, map, arith, ◌==◌,
  ==_iff, at-head, sort_by, any,
}
use mathlib.Core.List.{reverse, reverse-cons, map-append, map-map}
use mcp_shared_memory_hub.Domain.Errors.{ok}
use mcp_shared_memory_hub.Domain.Models.{MemoryHistory}
use mcp_shared_memory_hub.Store.Tables.{Memory, MemoryRevision, MemoryDedupKey, Db}
use mcp_shared_memory_hub.Store.Tx.{done, ◌>>=◌}
use mcp_shared_memory_hub.Store.Memories.{get, has_memory}
use mcp_shared_memory_hub.Store.Invariant.{
  rows_of, log_of, keys_of, IsHistory, IsLog, IsSound, IsWellFormed,
}
use mcp_shared_memory_hub.Store.Reports.{
  revision_view, older, attestations_of, revisions_of, winner_of, losers_of, trail_of, attestations,
  revisions, superseded_by, supersedes, audit_trail,
}
use mcp_shared_memory_hub.Services.Memories.{to_view}
use mcp_shared_memory_hub.Services.History.{history, default_audit_limit}
use mcp_shared_memory_hub.Store.Found.{get_retired}
use mcp_shared_memory_hub.Services.History.Complete.{sort-log}
use mcp_shared_memory_hub.Services.Retrieval.{any_at}

-- the tables hold the memory, in the project, behind its newest revision
pub record IsKept (project_id m : ℕ) (db : Db) (r : Memory) (v : MemoryRevision)
    (log : List MemoryRevision) : Type 0 where
  pub rows : rows_of m db ≡ r ∷ []
  pub log_is : log_of m db ≡ v ∷ log
  pub mine : r.project_id ≡ project_id
  pub sound : IsLog r.project_id r.current_revision_no (v ∷ log)

-- the record that the reads assemble
abbrev pub Answers :
    ℕ → ℕ → Db → Memory → MemoryRevision → List MemoryRevision → MemoryHistory → Type 0
Answers project_id m db r v log h =
    (history project_id m db ≡ ok (h, db))
    × (h.memory ≡ to_view (r, v))
    × (h.revisions ≡ map revision_view (reverse (v ∷ log)))

module _ (project_id m : ℕ) (db : Db) where
  -- `history` answers for every memory of the project, and lists its whole log, oldest first.
  pub history_kept :
      (r : Memory) (v : MemoryRevision) (log : List MemoryRevision)
      → IsKept project_id m db r v log
      → (h : MemoryHistory) × Answers project_id m db r v log h
  unfolding history revisions superseded_by supersedes attestations audit_trail ◌>>=◌
  history_kept r v log k =
      let found : get project_id m true db ≡ done (some (r, v)) db =
        get_retired project_id m db r v log k.rows k.log_is
          ((==_iff r.id m).0 (at-head (λ (x : Memory). x.id) m db.memories k.rows)) k.mine k.sound.1
          k.sound.2 in
      (
        record {
          memory = to_view (r, v);
          revisions = revisions_of m db;
          superseded_by = winner_of project_id m db;
          supersedes = losers_of project_id m db;
          attestations = attestations_of m db;
          audit = trail_of m default_audit_limit db;
        },
        (
          rw found refl,
          refl,
          ap (map revision_view) (
              ap (sort_by older) k.log_is
              ∙ sort-log r.project_id r.current_revision_no (v ∷ log) k.sound),
        ),
      )

  kept_rows :
      (rows : List Memory) (log : List MemoryRevision) (keys : List MemoryDedupKey)
      → rows_of m db ≡ rows
      → log_of m db ≡ log
      → IsSound rows log keys
      → any (λ r. r.project_id == project_id) rows ≡ true
      → (r : Memory) × (v : MemoryRevision) × (log : List MemoryRevision) × IsKept project_id m db r
          v log
  kept_rows [] log keys e e' sound mine = absurd (ground arith)
  kept_rows (r ∷ []) [] keys e e' sound mine = absurd sound.0
  kept_rows (r ∷ []) (v ∷ log) keys e e' sound mine =
      (r, v, log, record { rows = e; log_is = e'; mine = ground arith; sound = sound.0 })
  kept_rows (r ∷ r' ∷ rows) log keys e e' sound mine = absurd sound

  pub kept :
      IsWellFormed db
      → has_memory project_id m db ≡ true
      → (r : Memory) × (v : MemoryRevision) × (log : List MemoryRevision) × IsKept project_id m db r
          v log
  kept wf known =
      kept_rows (rows_of m db) (log_of m db) (keys_of m db) refl refl (wf m)
        (sym (any_at m (λ r. r.project_id == project_id) db.memories) ∙ known)

-- the numbers of the first `n` revisions
abbrev pub one_to : ℕ → List ℕ
one_to zero = []
one_to (suc n) = one_to n ++ suc n ∷ []

revision_numbers : List MemoryRevision → List ℕ
revision_numbers = map (λ v. v.revision_no)

reverse-numbers :
    (project_id n : ℕ) (log : List MemoryRevision)
    → IsHistory project_id n log
    → revision_numbers (reverse log) ++ n ∷ [] ≡ one_to n
unfolding revision_numbers
reverse-numbers project_id n [] h = rw h refl
reverse-numbers project_id n (r ∷ log) h =
    subst (λ k. revision_numbers (reverse (r ∷ log)) ++ k ∷ [] ≡ one_to k) h.0
      (ap (λ l. l ++ suc r.revision_no ∷ [])
        (ap revision_numbers (reverse-cons r log)
          ∙ map-append (λ v. v.revision_no) (reverse log) (r ∷ [])
          ∙ reverse-numbers project_id r.revision_no log h.3))

log-numbers :
    (project_id n : ℕ) (log : List MemoryRevision)
    → IsLog project_id n log
    → revision_numbers (reverse log) ≡ one_to n
unfolding revision_numbers
log-numbers project_id n [] h = absurd h
log-numbers project_id n (v ∷ log) h =
    ap revision_numbers (reverse-cons v log)
    ∙ map-append (λ v. v.revision_no) (reverse log) (v ∷ [])
    ∙ ap (λ k. revision_numbers (reverse log) ++ k ∷ []) h.0
    ∙ reverse-numbers project_id n log h.3

-- A well-formed store has the full record of every memory of the project, in any status: reading it
-- changes nothing, it shows the newest revision as the memory's current state, and it lists every
-- revision of the log, which are the numbers from 1 to the memory's revision number in order.
pub history_complete :
    (project_id m : ℕ) (db : Db)
    → IsWellFormed db
    → has_memory project_id m db ≡ true
    → (h : MemoryHistory) × (r : Memory) × (rows_of m db ≡ r ∷ [])
      × (history project_id m db ≡ ok (h, db))
      × (h.memory.revision_no ≡ r.current_revision_no)
      × (h.revisions ≡ map revision_view (reverse (log_of m db)))
      × (map (λ v. v.revision_no) h.revisions ≡ one_to r.current_revision_no)
unfolding revision_numbers
history_complete project_id m db wf known =
    let (r, v, log, k) = kept project_id m db wf known in
    let (h, (answers, shown, listed)) = history_kept project_id m db r v log k in
    (
      h,
      r,
      k.rows,
      answers,
      rw shown k.sound.0,
      listed ∙ ap (λ l. map revision_view (reverse l)) (sym k.log_is),
      ap (map (λ v. v.revision_no)) listed
          ∙ map-map (λ v. v.revision_no) revision_view (reverse (v ∷ log))
          ∙ log-numbers r.project_id r.current_revision_no (v ∷ log) k.sound,
    )
