-- ===== src/Services/Revise/Found.antt =====
-- What `get` of src/memhub/persistence/repositories/memories.py finds in a well-formed store.
use mcp_shared_memory_hub.Prelude.{
  ℕ, ◌≡◌, refl, sym, ap, ◌∙◌, inl, inr, true, false, ◌&&◌, Option, none, some, List, [], ◌∷◌, map,
  arith, ◌==◌, ==_iff, at-head, first, select_where, Bool-cases,
}
use mcp_shared_memory_hub.Domain.Enums.{is_active}
use mcp_shared_memory_hub.Domain.Errors.{ok}
use mcp_shared_memory_hub.Store.Tables.{Memory, MemoryRevision, MemoryDedupKey, Db}
use mcp_shared_memory_hub.Store.Tx.{done}
use mcp_shared_memory_hub.Store.Guarantee.{gets-inv}
use mcp_shared_memory_hub.Store.Memories.{get, unexpired}
use mcp_shared_memory_hub.Store.Invariant.{rows_of, log_of, keys_of, IsLog, IsSound, IsWellFormed}
use mcp_shared_memory_hub.Store.Found.{picked, picked_rows, picked_one, picked-away, get_live}

-- the memory has one row, of the project, active and not expired, and a log behind its newest revision
pub record IsFound (project_id m now : ℕ) (db : Db) (r : Memory) (v : MemoryRevision)
    (log : List MemoryRevision) : Type 0 where
  pub rows : rows_of m db ≡ r ∷ []
  pub log_is : log_of m db ≡ v ∷ log
  pub mine : r.project_id ≡ project_id
  pub live : (is_active r.status && unexpired now r.expires_at) ≡ true
  pub sound : IsLog r.project_id r.current_revision_no (v ∷ log)

module _ (project_id m : ℕ) (db : Db) where
  -- a row that is not live passes no filter
  none_picked :
      (r : Memory) (log : List MemoryRevision)
      → (is_active r.status && unexpired db.now r.expires_at) ≡ false
      → picked false project_id m db.now (map (λ w. (r, w)) log) ≡ []
  none_picked r [] h = refl
  none_picked r (v ∷ log) h = ground (arith, none_picked r log h)

  nothing :
      {row : Memory × MemoryRevision} (o : Option (Memory × MemoryRevision))
      → o ≡ none
      → done o db ≡ done (some row) db
      → ⊥
  nothing o e h = absurd (ground arith)

  same_row : (x y : Memory × MemoryRevision) → done (some x) db ≡ done (some y) db → x ≡ y
  same_row x y h = ground arith

  row-IsFound :
      (rows : List Memory) (log : List MemoryRevision) (keys : List MemoryDedupKey)
      (row : Memory × MemoryRevision)
      → rows_of m db ≡ rows
      → log_of m db ≡ log
      → IsSound rows log keys
      → get project_id m false db ≡ done (some row) db
      → (r : Memory) × (v : MemoryRevision) × (log : List MemoryRevision) × IsFound project_id m
          db.now db r v log
        × (row ≡ (r, v))
  row-IsFound [] log keys row e e' sound h =
      absurd (nothing (first []) refl (sym (picked_rows false project_id m db [] e) ∙ h))
  row-IsFound (r ∷ []) [] keys row e e' sound h = absurd sound.0
  row-IsFound (r ∷ []) (v ∷ log) keys row e e' sound h =
      let id : r.id ≡ m = (==_iff r.id m).0 (at-head (λ (x : Memory). x.id) m db.memories e) in
      let got = sym (picked_one false project_id m db r (v ∷ log) e e' id) ∙ h in
      elim (Bool-cases (r.project_id == project_id)) [
        | inr away ↦ absurd (
            nothing _
              (ap first (
                picked-away false project_id m db.now r
                  (select_where (λ w. w.project_id == r.project_id) (v ∷ log)) (ground arith)))
              got)
        | inl own ↦ elim (Bool-cases (is_active r.status && unexpired db.now r.expires_at)) [
          | inr dead ↦ absurd (
              nothing _
                (ap first
                  (none_picked r (select_where (λ w. w.project_id == r.project_id) (v ∷ log)) dead))
                got)
          | inl live ↦
              let mine : r.project_id ≡ project_id = (==_iff r.project_id project_id).0 own in
              let here = get_live project_id m db r v log e e' id mine live sound.0.1 sound.0.2 in
              (
                r,
                v,
                log,
                record { rows = e; log_is = e'; mine = mine; live = live; sound = sound.0 },
                same_row row (r, v) (sym h ∙ here),
              )
        ]
      ]
  row-IsFound (r ∷ r' ∷ rows) log keys row e e' sound h = absurd sound

  -- What `get` finds in a well-formed store is found.
  pub get-IsFound :
      {row : Memory × MemoryRevision} {t : Db}
      → IsWellFormed db
      → get project_id m false db ≡ ok (some row, t)
      → (db ≡ t)
        × ((r : Memory) × (v : MemoryRevision) × (log : List MemoryRevision) × IsFound project_id m
              db.now db r v log
            × (row ≡ (r, v)))
  unfolding get
  get-IsFound {row} {t} wf h =
      let same : db ≡ t = (gets-inv _ h).1 in
      (
        same,
        row-IsFound (rows_of m db) (log_of m db) (keys_of m db) row refl refl (wf m)
            (h ∙ ap (λ u. done (some row) u) (sym same)),
      )
