-- ===== src/Store/Lineage/Chain.antt =====
-- The lineage of a memory and the links of supersession.
use mcp_shared_memory_hub.Prelude.{
  ℕ, zero, suc, ◌≤◌, ◌≡◌, refl, ap, subst, ◌⊎◌, inl, inr, true, ◌&&◌, Option, none, some, List, [],
  ◌∷◌, map, arith, ◌==◌, length, any, first, select_where, Bool-cases,
}
use mcp_shared_memory_hub.Domain.Errors.{ok}
use mcp_shared_memory_hub.Store.Tables.{Memory, Db}
use mcp_shared_memory_hub.Store.Tx.{◌>>=◌}
use mcp_shared_memory_hub.Store.Memories.{has_memory}
use mcp_shared_memory_hub.Store.Lineage.{next_link, chain_from, lineage}

-- each memory of the list is superseded by the one after it
abbrev pub IsChain : ℕ → Db → List ℕ → Type 0
IsChain project_id db [] = Unit
IsChain project_id db (a ∷ []) = Unit
IsChain project_id db (a ∷ b ∷ ids) =
    (next_link project_id a db ≡ some (some b)) × IsChain project_id db (b ∷ ids)

-- Behind the list the chain is over: its last memory has no successor, or one that the project does not
-- hold. The list follows `link`, which says what comes next.
abbrev pub EndsAt : ℕ → Db → Option ℕ → List ℕ → Type 0
EndsAt project_id db link [] =
    (link ≡ none) ⊎ ((b : ℕ) × (link ≡ some b) × (next_link project_id b db ≡ none))
EndsAt project_id db link (a ∷ ids) =
    (next : Option ℕ) × (next_link project_id a db ≡ some next) × EndsAt project_id db next ids

-- the list follows a link
abbrev Follows : ℕ → Db → Option ℕ → List ℕ → Type 0
Follows project_id db link [] = Unit
Follows project_id db link (a ∷ ids) = (link ≡ some a) × IsChain project_id db (a ∷ ids)

extend :
    (project_id a : ℕ) (db : Db) (link : Option ℕ) (ids : List ℕ)
    → next_link project_id a db ≡ some link
    → Follows project_id db link ids
    → IsChain project_id db (a ∷ ids)
extend project_id a db link [] h follows = tt
extend project_id a db link (b ∷ ids) h follows =
    (subst (λ x. next_link project_id a db ≡ some x) follows.0 h, follows.1)

chain_from-Follows :
    (fuel project_id : ℕ) (db : Db) (link : Option ℕ)
    → Follows project_id db link (chain_from fuel project_id db link)
unfolding chain_from
chain_from-Follows zero project_id db link = tt
chain_from-Follows (suc fuel) project_id db none = tt
chain_from-Follows (suc fuel) project_id db (some a) =
    go (next_link project_id a db) refl (λ link. chain_from-Follows fuel project_id db link)
  where
    go :
        (o : Option (Option ℕ))
        → next_link project_id a db ≡ o
        → ((link : Option ℕ) → Follows project_id db link (chain_from fuel project_id db link))
        → Follows project_id db (some a) (chain_from (suc fuel) project_id db (some a))
    go none e again = rw (chain_from, e) tt
    go (some link) e again = rw (chain_from, e) (refl, extend project_id a db link _ e (again link))

chain_from-EndsAt :
    (fuel project_id : ℕ) (db : Db) (link : Option ℕ)
    → (length (chain_from fuel project_id db link) ≡ fuel)
      ⊎ EndsAt project_id db link (chain_from fuel project_id db link)
unfolding chain_from
chain_from-EndsAt zero project_id db link = inl refl
chain_from-EndsAt (suc fuel) project_id db none = inr (inl refl)
chain_from-EndsAt (suc fuel) project_id db (some a) =
    go (next_link project_id a db) refl (λ link. chain_from-EndsAt fuel project_id db link)
  where
    Whole : ℕ → Option ℕ → List ℕ → Type 0
    Whole n link ids = (length ids ≡ n) ⊎ EndsAt project_id db link ids

    longer :
        (link : Option ℕ) (ids : List ℕ)
        → next_link project_id a db ≡ some link
        → Whole fuel link ids
        → Whole (suc fuel) (some a) (a ∷ ids)
    longer link ids e (inl full) = inl (ap suc full)
    longer link ids e (inr ends) = inr (link, e, ends)

    go :
        (o : Option (Option ℕ))
        → next_link project_id a db ≡ o
        → ((link : Option ℕ) → Whole fuel link (chain_from fuel project_id db link))
        → Whole (suc fuel) (some a) (chain_from (suc fuel) project_id db (some a))
    go none e again = rw (chain_from, e) (inr (inr (a, refl, e)))
    go (some link) e again = rw (chain_from, e) (longer link _ e (again link))

length-chain_from :
    (fuel project_id : ℕ) (db : Db) (link : Option ℕ)
    → length (chain_from fuel project_id db link) ≤ fuel
unfolding chain_from
length-chain_from zero project_id db link = omega arith
length-chain_from (suc fuel) project_id db none = omega arith
length-chain_from (suc fuel) project_id db (some a) =
    go (next_link project_id a db) refl (λ link. length-chain_from fuel project_id db link)
  where
    go :
        (o : Option (Option ℕ))
        → next_link project_id a db ≡ o
        → ((link : Option ℕ) → length (chain_from fuel project_id db link) ≤ fuel)
        → length (chain_from (suc fuel) project_id db (some a)) ≤ suc fuel
    go none e again = rw (chain_from, e) (omega arith)
    go (some link) e again = rw (chain_from, e) (omega (arith, again link))

known-next_link :
    (project_id a : ℕ) (rows : List Memory)
    → any (λ m. m.id == a && m.project_id == project_id) rows ≡ true
    → (link : Option ℕ) × (first (
          map
            (λ m. m.superseded_by_id)
            (select_where (λ m. m.id == a && m.project_id == project_id) rows))
        ≡ some link)
known-next_link project_id a [] h = absurd (ground arith)
known-next_link project_id a (r ∷ rows) h =
    elim (Bool-cases (r.id == a && r.project_id == project_id)) [
      | inl e ↦ (r.superseded_by_id, rw e refl)
      | inr e ↦
          let (link, found) = known-next_link project_id a rows (rw e at h) in (link, rw e found)
    ]

-- The lineage of a memory of the project starts with the memory, goes from each memory to the one that
-- superseded it, and goes on until the last one has no successor that the project holds. It stops before
-- that only at 65 memories, which it never exceeds, a corrupted chain included.
pub lineage-IsChain :
    (project_id memory_id : ℕ) (s t : Db) (ids : List ℕ)
    → has_memory project_id memory_id s ≡ true
    → lineage project_id memory_id s ≡ ok (ids, t)
    → (first ids ≡ some memory_id)
      × IsChain project_id s ids
      × (length ids ≤ 65)
      × ((length ids ≡ 65) ⊎ EndsAt project_id s (some memory_id) ids)
unfolding lineage next_link chain_from ◌>>=◌
lineage-IsChain project_id memory_id s t ids known h =
    subst
      (λ (ids' : List ℕ).
        (first ids' ≡ some memory_id)
        × IsChain project_id s ids'
        × (length ids' ≤ 65)
        × ((length ids' ≡ 65) ⊎ EndsAt project_id s (some memory_id) ids'))
      (same h)
      (
        starts (known-next_link project_id memory_id s.memories known),
        whole chain (chain_from-Follows 65 project_id s (some memory_id)),
        length-chain_from 65 project_id s (some memory_id),
        chain_from-EndsAt 65 project_id s (some memory_id),
      )
  where
    chain : List ℕ
    chain = chain_from 65 project_id s (some memory_id)

    same : lineage project_id memory_id s ≡ ok (ids, t) → chain ≡ ids
    same h = ground arith

    whole : (ids' : List ℕ) → Follows project_id s (some memory_id) ids' → IsChain project_id s ids'
    whole [] f = tt
    whole (a ∷ ids') f = f.1

    starts :
        (link : Option ℕ) × (first (
              map
                (λ m. m.superseded_by_id)
                (select_where (λ m. m.id == memory_id && m.project_id == project_id) s.memories))
            ≡ some link)
        → first chain ≡ some memory_id
    starts (link, e) = rw (chain_from, next_link, e) refl
