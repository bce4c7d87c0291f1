-- ===== src/Services/Speculation.antt =====
-- What the speculative insert of `remember` leaves behind, on each of its branches.
use mcp_shared_memory_hub.Prelude.{
  ℕ, ◌≡◌, ap, subst, subst₂, sym, false, Option, ◌∷◌, Text, arith, any, inl, inr, Bool-cases, ◌==◌,
  if◌then◌else◌,
}
use mcp_shared_memory_hub.Domain.Errors.{ok}
use mcp_shared_memory_hub.Store.Tables.{Memory, MemoryRevision, MemoryDedupKey, Db}
use mcp_shared_memory_hub.Store.Tx.{pure, ◌>>=◌}
use mcp_shared_memory_hub.Store.Guarantee.{
  IsStep, Guarantees, Guarantees-bind_of, Guarantees-savepoint, bind-inv,
}
use mcp_shared_memory_hub.Store.Memories.{Draft, create}
use mcp_shared_memory_hub.Store.Dedup.{key_matches, claim_dedup_key}
use mcp_shared_memory_hub.Store.Invariant.Writes.{create-inv, after_create}
use mcp_shared_memory_hub.Services.Remember.{keep_if_owned, speculate}

abbrev pub key_row : ℕ → ℕ → Text → ℕ → MemoryDedupKey
key_row project_id hash_version content_hash memory_id = record {
  project_id = project_id;
  hash_version = hash_version;
  content_hash = content_hash;
  memory_id = memory_id;
}

claim_dedup_key-inv :
    (project_id : ℕ) (content_hash : Text) (hash_version memory_id : ℕ) (s : Db) (o : Option ℕ)
    (t : Db)
    → claim_dedup_key project_id content_hash hash_version memory_id s ≡ ok (o, t)
    → t ≡ (
        if any (key_matches project_id hash_version content_hash) s.memory_dedup_keys
        then s
        else record s {
          memory_dedup_keys =
              key_row project_id hash_version content_hash memory_id ∷ s.memory_dedup_keys;
        })
unfolding claim_dedup_key
claim_dedup_key-inv project_id content_hash hash_version memory_id s o t h = ground arith

pure-inv : {A : Type 0} (a : A) {b : A} (s : Db) {t : Db} → pure a s ≡ ok (b, t) → s ≡ t
unfolding pure
pure-inv a s h = ground arith

module _ {R : Db → Db → Type 0} (step : IsStep R) where
  module _
      (create_step : (new_id project_id : ℕ) (draft : Draft) (s : Db)
        → any (λ r. r.id == new_id) s.memories ≡ false
        → R s (after_create new_id project_id draft s))
      (key_step : (new_id project_id hash_version : ℕ) (content_hash : Text) (draft : Draft)
          (s : Db)
        → R
            (after_create new_id project_id draft s)
            (record (after_create new_id project_id draft s) {
              memory_dedup_keys =
                  key_row project_id hash_version content_hash new_id ∷ s.memory_dedup_keys;
            })) where
    create-keeps :
        (new_id project_id : ℕ) (draft : Draft) → Guarantees R (create new_id project_id draft)
    create-keeps new_id project_id draft = record {
      at = λ s row s' h.
          let (_, e, unused) = create-inv new_id project_id draft s h in
          subst (R s) (sym e) (create_step new_id project_id draft s unused);
    }

    claim-keeps :
        (new_id project_id hash_version : ℕ) (content_hash : Text) (draft : Draft) {A : Type 0}
        (g : Option ℕ → A) (s : Db) (a : A) (t : Db)
        → (claim_dedup_key project_id content_hash hash_version new_id >>= λ owner. pure (g owner))
            (after_create new_id project_id draft s)
          ≡ ok (a, t)
        → R (after_create new_id project_id draft s) t
    claim-keeps new_id project_id hash_version content_hash draft g s a t h =
        let u0 : Db = after_create new_id project_id draft s in
        let (owner, u, claimed, rest) =
          bind-inv (claim_dedup_key project_id content_hash hash_version new_id) (λ o. pure (g o)) _
            h in
        let kept =
          claim_dedup_key-inv project_id content_hash hash_version new_id
            (after_create new_id project_id draft s) owner u claimed in
        subst (R u0) (pure-inv (g owner) u rest)
          (elim (Bool-cases
            (any (key_matches project_id hash_version content_hash) s.memory_dedup_keys)) [
              | inl taken ↦ subst (R u0) (sym (rw taken at kept)) (step.stay u0)
              | inr free ↦
                  subst (R u0) (sym (rw free at kept))
                    (key_step new_id project_id hash_version content_hash draft s)
            ])

    -- A relation that the insert keeps, and the claim of a dedup key on top of it, is kept by the
    -- speculation.
    pub speculate-Guarantees :
        (new_id project_id : ℕ) (draft : Draft) → Guarantees R (speculate new_id project_id draft)
    unfolding speculate
    speculate-Guarantees new_id project_id draft = Guarantees-savepoint step _ (
        Guarantees-bind_of step _ _ (create-keeps new_id project_id draft) λ s row s' h o t k.
          let (at_row, at_s, unused) = create-inv new_id project_id draft s h in
          subst (λ u. R u t) (sym at_s)
            (claim-keeps new_id project_id draft.hash_version draft.content_hash draft
              (keep_if_owned row) s o t
              (subst₂
                (λ n u.
                  (claim_dedup_key project_id draft.content_hash draft.hash_version n >>= λ owner.
                  pure (keep_if_owned row owner))
                    u
                  ≡ ok (o, t))
                (ap (λ (x : Memory × MemoryRevision). x.0.id) at_row) at_s k)))
