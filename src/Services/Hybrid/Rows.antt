-- ===== src/Services/Hybrid/Rows.antt =====
-- src/memhub/services/retrieval.py: the rows of a hybrid search, and the stage-0 filter.
use mcp_shared_memory_hub.Prelude.{
  sort_by, ℕ, suc, ◌≤◌, ◌≡◌, sym, subst, inl, inr, Bool, true, false, ◌&&◌, ◌||◌, Option, none,
  some, List, [], ◌∷◌, arith, ◌==◌, ==_iff, length, first, select_where, All, All-take, All-sort_by,
  Bool-cases,
}
use mcp_shared_memory_hub.Domain.Enums.{is_active}
use mcp_shared_memory_hub.Domain.Errors.{ok, in_failed_transaction}
use mcp_shared_memory_hub.Domain.Models.{MemoryView}
use mcp_shared_memory_hub.Store.Tables.{Db}
use mcp_shared_memory_hub.Store.Tx.{raise}
use mcp_shared_memory_hub.Store.Guarantee.{pure-inv, gets-inv, bind-inv}
use mcp_shared_memory_hub.Store.Memories.{unexpired, is_retrievable, current_revisions, join, get}
use mcp_shared_memory_hub.Store.Search.{
  TextSearch, Filters, comes_before, passes_filters, matching, search_rows,
}
use mcp_shared_memory_hub.Services.Memories.{to_view}
use mcp_shared_memory_hub.Services.Hybrid.{
  Row, statement, index_rows, row_of, with_row, fetch_missing, with_view, hydrate,
}

-- An active memory of the project that has not expired.
abbrev pub IsLive : ℕ → ℕ → MemoryView → Type 0
IsLive project_id now v =
    (v.project_id ≡ project_id) × (is_active v.status ≡ true) × (unexpired now v.expires_at ≡ true)

-- what the stage-0 filter lets through is live
pub current-IsLive :
    (project_id : ℕ) (s : Db)
    → All (λ x. IsLive project_id s.now (to_view x)) (current_revisions project_id false s)
unfolding current_revisions
current-IsLive project_id s = go (join s.memories s.memory_revisions)
  where
    go :
        (xs : List Row)
        → All
            (λ x. IsLive project_id s.now (to_view x))
            (select_where
              (λ x. x.0.project_id == project_id && (false || is_retrievable s.now x))
              xs)
    go [] = tt
    go (x ∷ xs) =
        elim (Bool-cases (x.0.project_id == project_id && (false || is_retrievable s.now x))) [
          | inl e ↦ rw e (
            (ground (arith, ==_iff x.0.project_id project_id), ground arith, ground arith),
            go xs,
          )
          | inr e ↦ rw e (go xs)
        ]

-- What holds of all that the filter lets through holds of all that is handed on.
module _ (Q : MemoryView → Type 0) (project_id : ℕ) (s : Db)
    (base : All (λ x. Q (to_view x)) (current_revisions project_id false s)) where
  abbrev pub RowHolds : Row → Type 0
  RowHolds x = Q (to_view x)

  -- what `Option`s and lists of rows hold
  abbrev IfSome : Option Row → Type 0
  IfSome none = Unit
  IfSome (some x) = RowHolds x

  first-All : (xs : List Row) → All RowHolds xs → IfSome (first xs)
  first-All [] h = tt
  first-All (x ∷ xs) h = h.0

  select-All : (p : Row → Bool) (xs : List Row) → All RowHolds xs → All RowHolds (select_where p xs)
  select-All p [] h = tt
  select-All p (x ∷ xs) h = elim (Bool-cases (p x)) [
    | inl e ↦ rw e (h.0, select-All p xs h.1)
    | inr e ↦ rw e (select-All p xs h.1)
  ]

  pub get-All :
      (n : ℕ) {o : Option Row} {t : Db} → get project_id n false s ≡ ok (o, t) → IfSome o × (t ≡ s)
  unfolding get
  get-All n {o} {t} h =
      let (same, at) = gets-inv _ h in
      (
        subst IfSome same (first-All _ (select-All _ (current_revisions project_id false s) base)),
        sym at,
      )

  with_row-All :
      (o : Option Row) (by_id : List Row)
      → IfSome o
      → All RowHolds by_id
      → All RowHolds (with_row o by_id)
  with_row-All none by_id h k = k
  with_row-All (some x) by_id h k = (h, k)

  pub index-All :
      (rows by_id : List Row)
      → All RowHolds rows
      → All RowHolds by_id
      → All RowHolds (index_rows rows by_id)
  index-All [] by_id h k = k
  index-All (x ∷ rows) by_id h k = index-All rows (x ∷ by_id) h.1 (h.0, k)

  pub hydrate-All :
      (ids : List ℕ) (by_id : List Row)
      → All RowHolds by_id
      → All Q (hydrate ids by_id) × (length (hydrate ids by_id) ≤ length ids)
  unfolding hydrate
  hydrate-All [] by_id h = (tt, omega arith)
  hydrate-All (n ∷ ids) by_id h =
      let rest = hydrate-All ids by_id h in
      add (row_of n by_id) (hydrate ids by_id) (length ids)
        (first-All _ (select-All (λ x. x.0.id == n) by_id h)) rest
    where
      add :
          (o : Option Row) (views : List MemoryView) (bound : ℕ)
          → IfSome o
          → All Q views × (length views ≤ bound)
          → All Q (with_view o views) × (length (with_view o views) ≤ suc bound)
      add none views bound h k = (k.0, omega (arith, k.1))
      add (some x) views bound h k = ((h, k.0), omega (arith, k.1))

  pub fetch-All :
      (aborted : Bool) (missing : List ℕ) (by_id : List Row) {by_id' : List Row} {t : Db}
      → All RowHolds by_id
      → fetch_missing project_id aborted missing by_id s ≡ ok (by_id', t)
      → All RowHolds by_id' × (t ≡ s)
  unfolding fetch_missing statement raise
  fetch-All aborted [] by_id h e =
      let (same, at) = pure-inv e in (subst (All RowHolds) same h, sym at)
  fetch-All true (n ∷ missing) by_id h e =
      let (found, u, failed, _) = bind-inv (raise in_failed_transaction) _ s e in absurd (cc)
  fetch-All false (n ∷ missing) by_id {by_id'} {t} h e =
      let (found, u, got, rest) = bind-inv (get project_id n false) _ s e in
      let (live, same) = get-All n got in
      fetch-All false missing (with_row found by_id) (with_row-All found by_id live h) (
        subst
          (λ v. fetch_missing project_id false missing (with_row found by_id) v ≡ ok (by_id', t))
          same rest)

  pub search_rows-All :
      (engine : TextSearch) (filters : Filters) (limit : ℕ) {rows : List Row} {t : Db}
      → search_rows engine project_id filters limit s ≡ ok (rows, t)
      → All RowHolds rows × (t ≡ s)
  unfolding search_rows matching
  search_rows-All engine filters limit {rows} {t} h =
      let (same, at) = gets-inv _ h in
      (
        subst (All RowHolds) same (
            All-take RowHolds limit
              (sort_by (comes_before engine s.now filters.query)
                (matching engine project_id filters s))
              (All-sort_by RowHolds (comes_before engine s.now filters.query)
                (matching engine project_id filters s)
                (select-All (passes_filters engine filters) (current_revisions project_id false s)
                  base))),
        sym at,
      )
