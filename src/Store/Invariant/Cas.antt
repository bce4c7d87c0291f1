-- ===== src/Store/Invariant/Cas.antt =====
-- The compare-and-set and the well-formedness of the store.
use mcp_shared_memory_hub.Prelude.{
  ℕ, ◌+◌, ◌≡◌, refl, sym, subst, inl, inr, Bool, true, false, ◌&&◌, Option, none, some, List, [],
  ◌∷◌, map, at, arith, ◌==◌, ==_iff, first, select_where, update_where, at-update, select-at,
  Bool-cases, Option-cases, if◌then◌else◌,
}
use mcp_shared_memory_hub.Domain.Errors.{ok}
use mcp_shared_memory_hub.Store.Tables.{Memory, Db}
use mcp_shared_memory_hub.Store.Tx.{◌>>=◌}
use mcp_shared_memory_hub.Store.Memories.{
  Edit, insert_revision, cas_revise, demote, append_revision, compare_and_set, cas_matches, advance,
  retire_revision, next_revision,
}
use mcp_shared_memory_hub.Store.Guarantee.{IsStep, Guarantees}
use mcp_shared_memory_hub.Store.Invariant.{rows_of, log_of, keys_of, IsWellFormed}
use mcp_shared_memory_hub.Store.Invariant.Writes.{advance-IsSound}

pub update_none {ℓ} :
    {A : Type ℓ} (p : A → Bool) (f : A → A) (g : A → ℕ) (xs : List A)
    → first (map g (select_where p xs)) ≡ none
    → update_where p f xs ≡ xs
update_none p f g [] h = refl
update_none p f g (x ∷ xs) h = ground (arith, update_none p f g xs)

module _ (project_id memory_id expected : ℕ) (edit : Edit) where
  abbrev pub hit : Memory → Bool
  hit r = r.id == memory_id && cas_matches project_id expected r

  abbrev pub won : Db → Option ℕ
  won s = first (map (λ r. r.current_revision_no + 1) (select_where hit s.memories))

  abbrev pub after_cas : ℕ → Db → Db
  after_cas n s = record s {
    memories = update_where hit (advance s.now) s.memories;
    memory_revisions =
        next_revision project_id memory_id n edit s.now
        ∷ update_where (λ r. r.memory_id == memory_id && r.revision_no == expected) retire_revision
            s.memory_revisions;
  }

  -- What `compare_and_set` leaves behind when it does not raise.
  pub compare_and_set-inv :
      (s : Db) (o : Option ℕ) (s' : Db)
      → compare_and_set project_id memory_id expected edit s ≡ ok (o, s')
      → (o ≡ won s) × (s' ≡ elim o [ none ↦ s | some n ↦ after_cas n s ])
  unfolding compare_and_set cas_revise append_revision demote insert_revision ◌>>=◌
  compare_and_set-inv s o s' h = elim (Option-cases (won s)) [
    | inl lost ↦
        ground
          (arith, update_none hit (advance s.now) (λ r. r.current_revision_no + 1) s.memories lost)
    | inr (n, e) ↦ ground arith
  ]

  pub rows_of-after_cas :
      (n : ℕ) (s : Db) (m : ℕ)
      → rows_of m (after_cas n s) ≡ (
          if m == memory_id
          then update_where (cas_matches project_id expected) (advance s.now) (rows_of m s)
          else rows_of m s)
  rows_of-after_cas n s m =
      at-update (λ r. r.id) memory_id m (cas_matches project_id expected) (advance s.now) s.memories
        (λ r. refl)

  pub demoted-at :
      (s : Db) (m : ℕ)
      → at
          (λ r. r.memory_id)
          m
          (update_where
            (λ r. r.memory_id == memory_id && r.revision_no == expected)
            retire_revision
            s.memory_revisions)
        ≡ (if m == memory_id
            then update_where (λ r. r.revision_no == expected) retire_revision (log_of m s)
            else log_of m s)
  demoted-at s m =
      at-update (λ r. r.memory_id) memory_id m (λ r. r.revision_no == expected) retire_revision
        s.memory_revisions (λ r. refl)

  won_row :
      (s : Db) {n : ℕ}
      → won s ≡ some n
      → first (
          map
            (λ r. r.current_revision_no + 1)
            (select_where (cas_matches project_id expected) (rows_of memory_id s)))
        ≡ some n
  won_row s h =
      rw (← select-at (λ r. r.id) memory_id (cas_matches project_id expected) s.memories) h

  pub after_cas-IsWellFormed :
      (n : ℕ) (s : Db) → won s ≡ some n → IsWellFormed s → IsWellFormed (after_cas n s)
  after_cas-IsWellFormed n s hit_one wf m = elim (Bool-cases (m == memory_id)) [
    | inl e ↦
        let here : (memory_id == m) ≡ true = ground arith in
        let Hit : ℕ → Type 0 = λ k.
          first (
            map (λ r. r.current_revision_no + 1)
              (select_where (cas_matches project_id expected) (rows_of k s)))
          ≡ some n in
        let same : memory_id ≡ m = (==_iff memory_id m).0 here in
        rw (rows_of-after_cas n s m, here, demoted-at s m, e)
          (advance-IsSound project_id expected n s.now edit memory_id (rows_of m s) (log_of m s)
            (keys_of m s) (subst Hit same (won_row s hit_one)) (wf m))
    | inr e ↦
        let away : (memory_id == m) ≡ false = ground arith in
        rw (rows_of-after_cas n s m, away, demoted-at s m, e) (wf m)
  ]

-- A relation that holds of doing nothing and of a compare-and-set that is won holds of any.
pub compare_and_set-Guarantees :
    {R : Db → Db → Type 0} (step : IsStep R) (project_id memory_id expected : ℕ) (edit : Edit)
    → ((n : ℕ) (s : Db)
        → won project_id memory_id expected edit s ≡ some n
        → R s (after_cas project_id memory_id expected edit n s))
    → Guarantees R (compare_and_set project_id memory_id expected edit)
compare_and_set-Guarantees {R} step project_id memory_id expected edit wins = record {
  at = λ s o s' h. go s o s' (compare_and_set-inv project_id memory_id expected edit s o s' h);
}
  where
    go :
        (s : Db) (o : Option ℕ) (s' : Db)
        → (o ≡ won project_id memory_id expected edit s)
          × (s' ≡ elim o [ none ↦ s | some n ↦ after_cas project_id memory_id expected edit n s ])
        → R s s'
    go s none s' (_, e) = subst (R s) (sym e) (step.stay s)
    go s (some n) s' (hit, e) = subst (R s) (sym e) (wins n s (sym hit))
