-- ===== src/Store/Invariant/Retire.antt =====
-- Supersession and deletion, the well-formedness of the store and the dedup keys.
use mcp_shared_memory_hub.Prelude.{
  ℕ, ◌≡◌, refl, sym, subst, subst₂, inl, inr, Bool, true, false, ◌&&◌, List, [], ◌∷◌, at, All,
  arith, ◌==◌, any, update_where, delete_where, at-update, at-delete, Bool-cases, if◌then◌else◌,
}
use mcp_shared_memory_hub.Domain.Enums.{active, is_active-eq}
use mcp_shared_memory_hub.Domain.Errors.{ok}
use mcp_shared_memory_hub.Store.Tables.{Memory, MemoryRevision, MemoryDedupKey, Db}
use mcp_shared_memory_hub.Store.Tx.{◌>>=◌}
use mcp_shared_memory_hub.Store.Dedup.{release_dedup_keys}
use mcp_shared_memory_hub.Store.Retirement.{
  is_live, supersede_row, forget_row, cas_supersede, cas_forget, release_if, supersede, forget,
}
use mcp_shared_memory_hub.Store.Guarantee.{IsStep, Guarantees}
use mcp_shared_memory_hub.Store.Invariant.{
  rows_of, log_of, keys_of, IsLog, StatusFits, OwnsKey, IsSound, IsWellFormed,
}

update_unhit {ℓ} :
    {A : Type ℓ} (p : A → Bool) (f : A → A) (xs : List A)
    → any p xs ≡ false
    → update_where p f xs ≡ xs
update_unhit p f [] h = refl
update_unhit p f (x ∷ xs) h = ground (arith, update_unhit p f xs)

any-at :
    (k : ℕ) (q : Memory → Bool) (xs : List Memory)
    → any (λ r. r.id == k && q r) xs ≡ any q (at (λ r. r.id) k xs)
any-at k q [] = refl
any-at k q (x ∷ xs) = ground (arith, any-at k q xs)

release-All :
    (r : Memory) (project_id : ℕ) (keys : List MemoryDedupKey)
    → r.project_id ≡ project_id
    → All (OwnsKey r) keys
    → delete_where (λ k. k.project_id == project_id) keys ≡ []
release-All r project_id [] e h = refl
release-All r project_id (k ∷ keys) e h = ground (arith, release-All r project_id keys e h.1)

-- a row's new columns when it retires
pub record IsRetirement (f : Memory → Memory) : Type 0 where
  pub same_id : (r : Memory) → (f r).id ≡ r.id
  pub same_project : (r : Memory) → (f r).project_id ≡ r.project_id
  pub same_revision : (r : Memory) → (f r).current_revision_no ≡ r.current_revision_no
  pub fits : (r : Memory) → StatusFits active r → StatusFits (f r).status (f r)

pub supersede_row-IsRetirement : (winner_id now : ℕ) → IsRetirement (supersede_row winner_id now)
supersede_row-IsRetirement winner_id now = record {
  same_id = λ r. refl;
  same_project = λ r. refl;
  same_revision = λ r. refl;
  fits = λ r h. ((winner_id, refl), (now, refl), h.2);
}

pub forget_row-IsRetirement : (now : ℕ) → IsRetirement (forget_row now)
forget_row-IsRetirement now = record {
  same_id = λ r. refl;
  same_project = λ r. refl;
  same_revision = λ r. refl;
  fits = λ r h. (h.1, (now, refl));
}

module _ (project_id memory_id : ℕ) (f : Memory → Memory) (retires : IsRetirement f) where
  abbrev pub live : Memory → Bool
  live r = r.id == memory_id && is_live project_id r

  abbrev pub after_retire : Db → Db
  after_retire s = record s {
    memories = update_where live f s.memories;
    memory_dedup_keys =
        delete_where (λ k. k.memory_id == memory_id && k.project_id == project_id)
          s.memory_dedup_keys;
  }

  retired-IsSound :
      (r : Memory) (log : List MemoryRevision) (keys : List MemoryDedupKey)
      → is_live project_id r ≡ true
      → IsSound (r ∷ []) log keys
      → IsSound (f r ∷ []) log (delete_where (λ k. k.project_id == project_id) keys)
  retired-IsSound r log keys is_hit h =
      let same : r.project_id ≡ project_id = ground arith in
      let was : r.status ≡ active = is_active-eq r.status (ground arith) in
      (
        subst₂ (λ p n. IsLog p n log) (sym (retires.same_project r)) (sym (retires.same_revision r))
            h.0,
        rw (release-All r project_id keys same h.1) tt,
        retires.fits r (subst (λ st. StatusFits st r) was h.2),
      )

  retire-IsSound :
      (rows : List Memory) (log : List MemoryRevision) (keys : List MemoryDedupKey)
      → any (is_live project_id) rows ≡ true
      → IsSound rows log keys
      → IsSound
          (update_where (is_live project_id) f rows)
          log
          (delete_where (λ k. k.project_id == project_id) keys)
  retire-IsSound [] log keys hit h = absurd (ground arith)
  retire-IsSound (r ∷ []) log keys hit h =
      let now_live : is_live project_id r ≡ true = ground arith in
      let row : f r ≡ (if is_live project_id r then f r else r) = rw now_live refl in
      subst (λ x. IsSound (x ∷ []) log (delete_where (λ k. k.project_id == project_id) keys)) row
        (retired-IsSound r log keys now_live h)
  retire-IsSound (r ∷ r' ∷ rows) log keys hit h = absurd h

  pub rows_of-after_retire :
      (s : Db) (m : ℕ)
      → rows_of m (after_retire s) ≡ (
          if m == memory_id then update_where (is_live project_id) f (rows_of m s) else rows_of m s)
  rows_of-after_retire s m =
      at-update (λ r. r.id) memory_id m (is_live project_id) f s.memories retires.same_id

  pub after_retire-IsWellFormed :
      (s : Db) → any live s.memories ≡ true → IsWellFormed s → IsWellFormed (after_retire s)
  after_retire-IsWellFormed s hit wf m = elim (Bool-cases (m == memory_id)) [
    | inl e ↦
        let same : memory_id ≡ m = ground arith in
        rw
          (
            rows_of-after_retire s m,
            at-delete (λ k. k.memory_id) memory_id m (λ k. k.project_id == project_id)
                s.memory_dedup_keys,
            e,
          )
          (retire-IsSound (rows_of m s) (log_of m s) (keys_of m s)
            (subst (λ k. any (is_live project_id) (rows_of k s) ≡ true) same
              (rw (← any-at memory_id (is_live project_id) s.memories) hit))
            (wf m))
    | inr e ↦
        rw
          (
            rows_of-after_retire s m,
            at-delete (λ k. k.memory_id) memory_id m (λ k. k.project_id == project_id)
                s.memory_dedup_keys,
            e,
          )
          (wf m)
  ]

-- What `supersede` and `forget` leave behind when they do not raise.
pub supersede-inv :
    (project_id memory_id winner_id : ℕ) (s : Db) (b : Bool) (s' : Db)
    → supersede project_id memory_id winner_id s ≡ ok (b, s')
    → (b ≡ any (λ r. r.id == memory_id && is_live project_id r) s.memories)
      × (s' ≡ (
          if b
          then after_retire project_id memory_id
              (supersede_row winner_id s.now)
              (supersede_row-IsRetirement winner_id s.now)
              s
          else s))
unfolding supersede cas_supersede release_if release_dedup_keys ◌>>=◌
supersede-inv project_id memory_id winner_id s b s' h = ground arith

pub forget-inv :
    (project_id memory_id : ℕ) (s : Db) (b : Bool) (s' : Db)
    → forget project_id memory_id s ≡ ok (b, s')
    → (b ≡ any (λ r. r.id == memory_id && is_live project_id r) s.memories)
      × (s' ≡ (
          if b
          then after_retire project_id memory_id
              (forget_row s.now)
              (forget_row-IsRetirement s.now)
              s
          else s))
unfolding forget cas_forget release_if release_dedup_keys ◌>>=◌
forget-inv project_id memory_id s b s' h = ground (
  arith,
  update_unhit (λ r. r.id == memory_id && is_live project_id r) (forget_row s.now) s.memories,
)

module _ {R : Db → Db → Type 0} (step : IsStep R) (project_id memory_id : ℕ) where
  -- A relation that holds of doing nothing and of a retirement holds of `supersede` and `forget`.
  pub supersede-Guarantees :
      (winner_id : ℕ)
      → ((s : Db)
          → any (λ r. r.id == memory_id && is_live project_id r) s.memories ≡ true
          → R s (
              after_retire project_id memory_id
                (supersede_row winner_id s.now)
                (supersede_row-IsRetirement winner_id s.now)
                s))
      → Guarantees R (supersede project_id memory_id winner_id)
  supersede-Guarantees winner_id retires = record {
    at = λ s b s' h. go s b s' (supersede-inv project_id memory_id winner_id s b s' h);
  }
    where
      go :
          (s : Db) (b : Bool) (s' : Db)
          → (b ≡ any (λ r. r.id == memory_id && is_live project_id r) s.memories)
            × (s' ≡ (
                if b
                then after_retire project_id memory_id
                    (supersede_row winner_id s.now)
                    (supersede_row-IsRetirement winner_id s.now)
                    s
                else s))
          → R s s'
      go s false s' (_, e) = subst (R s) (sym e) (step.stay s)
      go s true s' (hit, e) = subst (R s) (sym e) (retires s (sym hit))

  pub forget-Guarantees :
      ((s : Db)
        → any (λ r. r.id == memory_id && is_live project_id r) s.memories ≡ true
        → R s (
            after_retire project_id memory_id (forget_row s.now) (forget_row-IsRetirement s.now) s))
      → Guarantees R (forget project_id memory_id)
  forget-Guarantees retires = record {
    at = λ s b s' h. go s b s' (forget-inv project_id memory_id s b s' h);
  }
    where
      go :
          (s : Db) (b : Bool) (s' : Db)
          → (b ≡ any (λ r. r.id == memory_id && is_live project_id r) s.memories)
            × (s' ≡ (
                if b
                then after_retire project_id memory_id
                    (forget_row s.now)
                    (forget_row-IsRetirement s.now)
                    s
                else s))
          → R s s'
      go s false s' (_, e) = subst (R s) (sym e) (step.stay s)
      go s true s' (hit, e) = subst (R s) (sym e) (retires s (sym hit))
