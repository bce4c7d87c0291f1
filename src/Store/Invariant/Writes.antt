-- ===== src/Store/Invariant/Writes.antt =====
-- The writes of the repositories and the well-formedness of the store.
use mcp_shared_memory_hub.Prelude.{
  ℕ, ◌+◌, ◌≤◌, ◌≡◌, refl, sym, subst₂, inl, inr, Bool, true, false, some, List, [], ◌∷◌, map, at,
  arith, ◌==◌, ==_iff, any, first, select_where, update_where, Bool-cases, if◌then◌else◌,
}
use mcp_shared_memory_hub.Domain.Enums.{MemoryStatus, active, superseded, deleted}
use mcp_shared_memory_hub.Domain.Errors.{ok}
use mcp_shared_memory_hub.Store.Tables.{Memory, MemoryRevision, MemoryDedupKey, Db}
use mcp_shared_memory_hub.Store.Tx.{◌>>=◌}
use mcp_shared_memory_hub.Store.Memories.{
  Draft, Edit, create, insert_memory, insert_revision, memory_allowed, new_memory, first_revision,
  cas_matches, advance, retire_revision, next_revision,
}
use mcp_shared_memory_hub.Store.Invariant.{
  rows_of, log_of, keys_of, IsHistory, StatusFits, IsSound, IsWellFormed,
}

-- No row has a key that a UNIQUE constraint has let through.
pub at_unused {ℓ} :
    {A : Type ℓ} (key : A → ℕ) (m : ℕ) (xs : List A)
    → any (λ r. key r == m) xs ≡ false
    → at key m xs ≡ []
at_unused key m [] h = refl
at_unused key m (x ∷ xs) h = ground (arith, at_unused key m xs)

-- What `create` leaves behind when it does not raise.
pub create-inv :
    (new_id project_id : ℕ) (draft : Draft) (s : Db) {row : Memory × MemoryRevision} {s' : Db}
    → create new_id project_id draft s ≡ ok (row, s')
    → (row
        ≡ (new_memory new_id project_id draft s.now, first_revision new_id project_id draft s.now))
      × (s' ≡ record s {
        memories = new_memory new_id project_id draft s.now ∷ s.memories;
        memory_revisions = first_revision new_id project_id draft s.now ∷ s.memory_revisions;
      })
      × (any (λ r. r.id == new_id) s.memories ≡ false)
unfolding create insert_memory memory_allowed insert_revision ◌>>=◌
create-inv new_id project_id draft s h = ground arith

new-IsSound :
    (new_id project_id now : ℕ) (draft : Draft) (rows : List Memory) (log : List MemoryRevision)
    (keys : List MemoryDedupKey)
    → rows ≡ []
    → IsSound rows log keys
    → IsSound
        (new_memory new_id project_id draft now ∷ rows)
        (first_revision new_id project_id draft now ∷ log)
        keys
new-IsSound new_id project_id now draft [] [] [] e h = ground arith
new-IsSound new_id project_id now draft [] (r ∷ log) keys e h = absurd (ground arith)
new-IsSound new_id project_id now draft [] [] (k ∷ keys) e h = absurd (ground arith)
new-IsSound new_id project_id now draft (r ∷ rows) log keys e h = absurd (ground arith)

module _ (new_id project_id : ℕ) (draft : Draft) (s : Db) where
  abbrev pub after_create : Db
  after_create = record s {
    memories = new_memory new_id project_id draft s.now ∷ s.memories;
    memory_revisions = first_revision new_id project_id draft s.now ∷ s.memory_revisions;
  }

  pub after_create-IsWellFormed :
      any (λ r. r.id == new_id) s.memories ≡ false → IsWellFormed s → IsWellFormed after_create
  after_create-IsWellFormed unused wf m = elim (Bool-cases (new_id == m)) [
    | inl e ↦ rw e (
        new-IsSound new_id project_id s.now draft (rows_of m s) (log_of m s) (keys_of m s)
          (at_unused (λ r. r.id) m s.memories (rw (← (==_iff new_id m).0 e) unused)) (wf m))
    | inr e ↦ rw e (wf m)
  ]

-- The compare-and-set on what the tables hold of its memory.
module _ (project_id expected new_revision now : ℕ) (edit : Edit) (memory_id : ℕ) where
  abbrev pub hit_row : Memory → Bool
  hit_row = cas_matches project_id expected

  advance-StatusFits :
      (status : MemoryStatus) (r : Memory) → StatusFits status r → StatusFits status (advance now r)
  advance-StatusFits active r h = h
  advance-StatusFits superseded r h = h
  advance-StatusFits deleted r h = h

  cas_matches-inv :
      (r : Memory)
      → hit_row r ≡ true
      → (r.project_id ≡ project_id) × (r.current_revision_no ≡ expected)
  cas_matches-inv r h = ground arith

  IsHistory-kept :
      (p n : ℕ) (log : List MemoryRevision)
      → IsHistory p n log
      → n ≤ expected
      → IsHistory p n (update_where (λ r. r.revision_no == expected) retire_revision log)
  IsHistory-kept p n [] h le = h
  IsHistory-kept p n (r ∷ log) h le = ground (arith, IsHistory-kept p r.revision_no log)

  abbrev demote_log : List MemoryRevision → List MemoryRevision
  demote_log = update_where (λ r. r.revision_no == expected) retire_revision

  abbrev next_log : List MemoryRevision → List MemoryRevision
  next_log log = next_revision project_id memory_id new_revision edit now ∷ demote_log log

  -- the row and the last revision that the compare-and-set hits
  advanced-IsSound :
      (r : Memory) (v : MemoryRevision) (log : List MemoryRevision) (keys : List MemoryDedupKey)
      → hit_row r ≡ true
      → new_revision ≡ r.current_revision_no + 1
      → IsSound (r ∷ []) (v ∷ log) keys
      → IsSound
          (advance now r ∷ [])
          (next_revision project_id memory_id new_revision edit now
            ∷ retire_revision v
            ∷ demote_log log)
          keys
  advanced-IsSound r v log keys e new h =
      let (same_project, same_no) = cas_matches-inv r e in
      (
        (
          new,
          refl,
          sym same_project,
          (
            omega (arith, h.0.0),
            refl,
            h.0.2,
            IsHistory-kept r.project_id v.revision_no log (rw h.0.0 h.0.3) (omega (arith, h.0.0)),
          ),
        ),
        h.1,
        advance-StatusFits r.status r h.2,
      )

  pub advance-IsSound :
      (rows : List Memory) (log : List MemoryRevision) (keys : List MemoryDedupKey)
      → first (map (λ r. r.current_revision_no + 1) (select_where hit_row rows)) ≡ some new_revision
      → IsSound rows log keys
      → IsSound (update_where hit_row (advance now) rows) (next_log log) keys
  advance-IsSound [] log keys hit h = absurd (ground arith)
  advance-IsSound (r ∷ []) [] keys hit h = absurd (ground arith)
  advance-IsSound (r ∷ []) (v ∷ log) keys hit h = elim (Bool-cases (hit_row r)) [
    | inl e ↦
        let (same_project, same_no) = cas_matches-inv r e in
        let row : advance now r ≡ (if hit_row r then advance now r else r) = rw e refl in
        let last : (v.revision_no == expected) ≡ true = ground arith in
        let demoted : retire_revision v
            ≡ (if v.revision_no == expected then retire_revision v else v) =
          rw last refl in
        subst₂
          (λ x y.
            IsSound (x ∷ [])
              (next_revision project_id memory_id new_revision edit now ∷ y ∷ demote_log log) keys)
          row demoted (advanced-IsSound r v log keys e (ground arith) h)
    | inr e ↦ absurd (ground arith)
  ]
  advance-IsSound (r ∷ r' ∷ rows) log keys hit h = absurd h
