-- ===== src/Store/Found.antt =====
-- What `MemoryRepository.get` (src/memhub/persistence/repositories/memories.py) finds of a memory whose
-- row and log are known.
use mcp_shared_memory_hub.Prelude.{
  ℕ, ◌≡◌, refl, sym, ap, ◌∙◌, inl, inr, Bool, true, false, not, ◌&&◌, ◌||◌, some, List, [], ◌∷◌,
  ◌++◌, map, arith, ◌==◌, first, at, select_where, Bool-cases, select-append, select-at,
}
use mcp_shared_memory_hub.Domain.Enums.{is_active}
use mathlib.Core.List.{append-nil}
use mcp_shared_memory_hub.Store.Tx.{done, gets}
use mcp_shared_memory_hub.Store.Tables.{Memory, MemoryRevision, Db}
use mcp_shared_memory_hub.Store.Memories.{join, unexpired, is_retrievable, current_revisions, get}
use mcp_shared_memory_hub.Store.Invariant.{rows_of, log_of}

-- what `get` selects, with or without the retired memories
module _ (include_retired : Bool) (project_id m now : ℕ) where
  abbrev pub asked : Memory × MemoryRevision → Bool
  asked x = x.0.id == m && (not include_retired || x.1.is_current)

  abbrev pub passes : Memory × MemoryRevision → Bool
  passes x = x.0.project_id == project_id && (include_retired || is_retrievable now x)

  abbrev pub picked : List (Memory × MemoryRevision) → List (Memory × MemoryRevision)
  picked xs = select_where asked (select_where passes xs)

  picked-append :
      (xs ys : List (Memory × MemoryRevision)) → picked (xs ++ ys) ≡ picked xs ++ picked ys
  picked-append xs ys =
      ap (select_where asked) (select-append passes xs ys)
      ∙ select-append asked (select_where passes xs) (select_where passes ys)

  -- a memory with another id, or of another project
  pub picked-away :
      (r : Memory) (log : List MemoryRevision)
      → (r.project_id == project_id && r.id == m) ≡ false
      → picked (map (λ v. (r, v)) log) ≡ []
  picked-away r [] h = refl
  picked-away r (v ∷ log) h = ground (arith, picked-away r log h)

  abbrev mine : Memory → List MemoryRevision → List MemoryRevision
  mine r revisions =
      select_where (λ v. v.memory_id == r.id && v.project_id == r.project_id) revisions

  picked-join :
      (rows : List Memory) (revisions : List MemoryRevision)
      → picked (join rows revisions) ≡ picked (join (at (λ r. r.id) m rows) revisions)
  picked-join [] revisions = refl
  picked-join (r ∷ rows) revisions = elim (Bool-cases (r.id == m)) [
    | inl e ↦ rw e (
        picked-append (map (λ v. (r, v)) (mine r revisions)) (join rows revisions)
        ∙ ap (λ l. picked (map (λ v. (r, v)) (mine r revisions)) ++ l) (picked-join rows revisions)
        ∙ sym (
            picked-append (map (λ v. (r, v)) (mine r revisions))
              (join (at (λ r. r.id) m rows) revisions)))
    | inr e ↦ rw e (
        picked-append (map (λ v. (r, v)) (mine r revisions)) (join rows revisions)
        ∙ rw (picked-away r (mine r revisions) (ground arith)) (picked-join rows revisions))
  ]

-- the log of a memory behind its current revision is of its own project
module _ (project_id m now : ℕ) (r : Memory) (v : MemoryRevision) (log : List MemoryRevision) where
  first_current :
      (r.project_id == project_id && r.id == m) ≡ true
      → v.is_current ≡ true
      → (v.project_id == r.project_id) ≡ true
      → first (
          picked true project_id m now
            (map (λ w. (r, w)) (select_where (λ w. w.project_id == r.project_id) (v ∷ log))))
        ≡ some (r, v)
  first_current mine_ current own = ground arith

  first_live :
      (r.project_id == project_id && r.id == m) ≡ true
      → (is_active r.status && unexpired now r.expires_at) ≡ true
      → v.is_current ≡ true
      → (v.project_id == r.project_id) ≡ true
      → first (
          picked false project_id m now
            (map (λ w. (r, w)) (select_where (λ w. w.project_id == r.project_id) (v ∷ log))))
        ≡ some (r, v)
  first_live mine_ live current own = ground arith

module _ (include_retired : Bool) (project_id m : ℕ) (db : Db) where
  pub picked_rows :
      (rows : List Memory)
      → rows_of m db ≡ rows
      → get project_id m include_retired db
        ≡ done
            (first (picked include_retired project_id m db.now (join rows db.memory_revisions)))
            db
  unfolding get current_revisions gets
  picked_rows rows e =
      rw (picked-join include_retired project_id m db.now db.memories db.memory_revisions, e) refl

  -- the one row of a memory, with its log
  pub picked_one :
      (r : Memory) (log : List MemoryRevision)
      → rows_of m db ≡ r ∷ []
      → log_of m db ≡ log
      → r.id ≡ m
      → get project_id m include_retired db
        ≡ done
            (first (
              picked include_retired project_id m db.now
                (map (λ w. (r, w)) (select_where (λ w. w.project_id == r.project_id) log))))
            db
  picked_one r log rows log_is id =
      let theirs : List MemoryRevision =
        select_where (λ w. w.memory_id == r.id && w.project_id == r.project_id)
          db.memory_revisions in
      let its_log : theirs ≡ select_where (λ w. w.project_id == r.project_id) log =
        select-at (λ w. w.memory_id) r.id (λ w. w.project_id == r.project_id) db.memory_revisions
        ∙ ap (select_where (λ w. w.project_id == r.project_id))
            (ap (λ k. at (λ w. w.memory_id) k db.memory_revisions) id ∙ log_is) in
      picked_rows (r ∷ []) rows
      ∙ ap (λ o. done o db)
          (ap (λ l. first (picked include_retired project_id m db.now l))
              (append-nil (map (λ w. (r, w)) theirs))
            ∙ ap (λ l. first (picked include_retired project_id m db.now (map (λ w. (r, w)) l)))
                its_log)

module _ (project_id m : ℕ) (db : Db) where
  -- In a well-formed store the memory is found if it is the project's, in any status.
  pub get_retired :
      (r : Memory) (v : MemoryRevision) (log : List MemoryRevision)
      → rows_of m db ≡ r ∷ []
      → log_of m db ≡ v ∷ log
      → r.id ≡ m
      → r.project_id ≡ project_id
      → v.is_current ≡ true
      → v.project_id ≡ r.project_id
      → get project_id m true db ≡ done (some (r, v)) db
  get_retired r v log rows log_is id own current same =
      picked_one true project_id m db r (v ∷ log) rows log_is id
      ∙ ap (λ o. done o db)
          (first_current project_id m db.now r v log (ground arith) current (ground arith))

  -- Without the retired ones it is found if it is active and has not expired.
  pub get_live :
      (r : Memory) (v : MemoryRevision) (log : List MemoryRevision)
      → rows_of m db ≡ r ∷ []
      → log_of m db ≡ v ∷ log
      → r.id ≡ m
      → r.project_id ≡ project_id
      → (is_active r.status && unexpired db.now r.expires_at) ≡ true
      → v.is_current ≡ true
      → v.project_id ≡ r.project_id
      → get project_id m false db ≡ done (some (r, v)) db
  get_live r v log rows log_is id own live current same =
      picked_one false project_id m db r (v ∷ log) rows log_is id
      ∙ ap (λ o. done o db)
          (first_live project_id m db.now r v log (ground arith) live current (ground arith))
