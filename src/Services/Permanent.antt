-- ===== src/Services/Permanent.antt =====
-- The requests of src/memhub/services and the past: fixed columns, retirements and the revision log.
use mcp_shared_memory_hub.Prelude.{
  ℕ, ◌≡◌, refl, ap, inl, inr, true, false, List, [], ◌∷◌, All, arith, ◌==◌, ==_iff, any, Bool-cases,
}
use mcp_shared_memory_hub.Store.Tables.{Memory, Db}
use mcp_shared_memory_hub.Store.Guarantee.{IsStep, Guarantees}
use mcp_shared_memory_hub.Store.Memories.{
  Draft, Edit, first_revision, cas_matches, advance, retire_revision, next_revision,
}
use mcp_shared_memory_hub.Store.Retirement.{is_live, supersede_row, forget_row}
use mcp_shared_memory_hub.Store.Invariant.{rows_of, log_of}
use mcp_shared_memory_hub.Store.Invariant.Writes.{at_unused, after_create}
use mcp_shared_memory_hub.Store.Invariant.Cas.{
  compare_and_set-Guarantees, after_cas, rows_of-after_cas, demoted-at,
}
use mcp_shared_memory_hub.Store.Invariant.Retire.{
  IsRetirement, after_retire, rows_of-after_retire, supersede-Guarantees, forget-Guarantees,
  supersede_row-IsRetirement, forget_row-IsRetirement,
}
use mcp_shared_memory_hub.Store.Permanence.{
  Evolves, RowsEvolve-refl, RowsEvolve-update, contents-demote, IsPermanent, IsPermanent-refl,
  IsPermanent-trans,
}
use mcp_shared_memory_hub.Services.Remember.{speculate}
use mcp_shared_memory_hub.Services.Steps.{SameTruth, IsStoreStep}
use mcp_shared_memory_hub.Services.Requests.{Arrival, serve_all}
use mcp_shared_memory_hub.Services.Requests.Keeps.{Rely, serve_all-keeps}
use mcp_shared_memory_hub.Services.Speculation.{speculate-Guarantees}

permanent-IsStep : IsStep IsPermanent
permanent-IsStep = record { stay = IsPermanent-refl; trans = IsPermanent-trans }

same-permanent : (s t : Db) → SameTruth s t → IsPermanent s t
same-permanent s t e m =
    rw (e.memories, e.memory_revisions) (RowsEvolve-refl (rows_of m s), ([], refl))

create-permanent :
    (new_id project_id : ℕ) (draft : Draft) (s : Db)
    → any (λ r. r.id == new_id) s.memories ≡ false
    → IsPermanent s (after_create new_id project_id draft s)
create-permanent new_id project_id draft s unused m = elim (Bool-cases (new_id == m)) [
  | inl e ↦
      let none_yet : rows_of m s ≡ [] =
        at_unused (λ r. r.id) m s.memories (rw (← (==_iff new_id m).0 e) unused) in
      rw (e, none_yet)
        (tt, (retire_revision (first_revision new_id project_id draft s.now) ∷ [], refl))
  | inr e ↦ rw e (RowsEvolve-refl (rows_of m s), ([], refl))
]

speculate-permanent :
    (new_id project_id : ℕ) (draft : Draft)
    → Guarantees IsPermanent (speculate new_id project_id draft)
speculate-permanent =
    speculate-Guarantees permanent-IsStep create-permanent
      λ new_id project_id hash_version content_hash draft s.
        IsPermanent-refl (after_create new_id project_id draft s)

advance-Evolves :
    (project_id expected now : ℕ) (r : Memory)
    → cas_matches project_id expected r ≡ true
    → Evolves r (advance now r)
advance-Evolves project_id expected now r h = record {
  id = refl;
  project_id = refl;
  type = refl;
  importance = refl;
  expires_at = refl;
  created_at = refl;
  grows = omega arith;
  final = inl (ground arith);
}

supersede-Evolves :
    (project_id winner_id now : ℕ) (r : Memory)
    → is_live project_id r ≡ true
    → Evolves r (supersede_row winner_id now r)
supersede-Evolves project_id winner_id now r h = record {
  id = refl;
  project_id = refl;
  type = refl;
  importance = refl;
  expires_at = refl;
  created_at = refl;
  grows = omega arith;
  final = inl (ground arith);
}

forget-Evolves :
    (project_id now : ℕ) (r : Memory) → is_live project_id r ≡ true → Evolves r (forget_row now r)
forget-Evolves project_id now r h = record {
  id = refl;
  project_id = refl;
  type = refl;
  importance = refl;
  expires_at = refl;
  created_at = refl;
  grows = omega arith;
  final = inl (ground arith);
}

cas-permanent :
    (project_id memory_id expected : ℕ) (edit : Edit) (n : ℕ) (s : Db)
    → IsPermanent s (after_cas project_id memory_id expected edit n s)
cas-permanent project_id memory_id expected edit n s m = elim (Bool-cases (m == memory_id)) [
  | inl e ↦
      let here : (memory_id == m) ≡ true = ground arith in
      rw
        (
          rows_of-after_cas project_id memory_id expected edit n s m,
          here,
          demoted-at project_id memory_id expected edit s m,
          e,
        )
        (
          RowsEvolve-update (cas_matches project_id expected) (advance s.now) (rows_of m s)
              (advance-Evolves project_id expected s.now),
          (
            retire_revision (next_revision project_id memory_id n edit s.now) ∷ [],
            ap (λ l. retire_revision (next_revision project_id memory_id n edit s.now) ∷ l)
                (contents-demote (λ r. r.revision_no == expected) (log_of m s)),
          ),
        )
  | inr e ↦
      let away : (memory_id == m) ≡ false = ground arith in
      rw
        (
          rows_of-after_cas project_id memory_id expected edit n s m,
          away,
          demoted-at project_id memory_id expected edit s m,
          e,
        )
        (RowsEvolve-refl (rows_of m s), ([], refl))
]

retire-permanent :
    (project_id memory_id : ℕ) (f : Memory → Memory) (retires : IsRetirement f)
    → ((r : Memory) → is_live project_id r ≡ true → Evolves r (f r))
    → (s : Db) → IsPermanent s (after_retire project_id memory_id f retires s)
retire-permanent project_id memory_id f retires evolves s m = elim (Bool-cases (m == memory_id)) [
  | inl e ↦
      rw (rows_of-after_retire project_id memory_id f retires s m, e)
        (RowsEvolve-update (is_live project_id) f (rows_of m s) evolves, ([], refl))
  | inr e ↦
      rw (rows_of-after_retire project_id memory_id f retires s m, e)
        (RowsEvolve-refl (rows_of m s), ([], refl))
]

pub permanent_step : IsStoreStep IsPermanent
permanent_step = record {
  step = permanent-IsStep;
  same = same-permanent;
  speculates = speculate-permanent;
  compares = λ project_id memory_id expected edit.
      compare_and_set-Guarantees permanent-IsStep project_id memory_id expected edit
        (λ n s won. cas-permanent project_id memory_id expected edit n s);
  supersedes = λ project_id memory_id winner_id.
      supersede-Guarantees permanent-IsStep project_id memory_id winner_id λ s hit.
        retire-permanent project_id memory_id _ (supersede_row-IsRetirement winner_id s.now)
          (supersede-Evolves project_id winner_id s.now) s;
  forgets = λ project_id memory_id. forget-Guarantees permanent-IsStep project_id memory_id λ s hit.
      retire-permanent project_id memory_id _ (forget_row-IsRetirement s.now)
        (forget-Evolves project_id s.now) s;
}

-- Whatever requests arrive, beside processes that do the same: no memory is lost or changes its
-- project, type, importance, expiry or creation time; its revision number never falls; once it is
-- retired its row never changes again; and its revision log only ever grows, with the content of
-- every revision kept.
pub serve_all-IsPermanent :
    (arrivals : List Arrival) (db : Db)
    → All (Rely permanent_step) arrivals
    → IsPermanent db (serve_all arrivals db)
serve_all-IsPermanent = serve_all-keeps permanent_step
