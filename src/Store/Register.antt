-- ===== src/Store/Register.antt =====
-- The compare-and-set of src/memhub/persistence/repositories/memories.py, against a register with a
-- number.
use mcp_shared_memory_hub.Prelude.{
  ℕ, ◌+◌, ◌≡◌, refl, ap, ◌∙◌, subst, subst₂, inl, inr, true, false, ◌&&◌, Option, none, some, List,
  [], ◌∷◌, arith, ◌==◌, ==_iff, ==_refl, at, any, update_where, Bool-cases, All, Text,
  if◌then◌else◌,
}
use mcp_shared_memory_hub.Domain.Enums.{is_active}
use mcp_shared_memory_hub.Domain.Errors.{ok}
use mcp_shared_memory_hub.Store.Tables.{Memory, MemoryRevision, MemoryDedupKey, Db}
use mcp_shared_memory_hub.Store.Tx.{Tx, pure, modify, ◌>>=◌, ◌>>◌}
use mcp_shared_memory_hub.Store.Memories.{
  Edit, cas_matches, advance, next_revision, retire_revision, compare_and_set,
}
use mcp_shared_memory_hub.Store.Invariant.{rows_of, log_of, keys_of, IsLog, IsSound, IsWellFormed}
use mcp_shared_memory_hub.Store.Invariant.Cas.{after_cas, rows_of-after_cas, after_cas-IsWellFormed}
use mcp_shared_memory_hub.Store.Race.{
  EditFits, compare_and_set_won, compare_and_set_lost, won-none, won-some,
}

-- what the clients of one memory share
pub record Register : Type 0 where
  pub number : ℕ
  pub content : Text

-- an attempt: the clock of its transaction, the number it expects, and its edit
pub record Attempt : Type 0 where
  pub now : ℕ
  pub expected : ℕ
  pub edit : Edit

unfoldable pub swap : Attempt → Register → Option ℕ × Register
swap a x =
    if x.number == a.expected
    then (some (a.expected + 1), record { number = a.expected + 1; content = a.edit.content })
    else (none, x)

unfoldable pub swap_all : List Attempt → Register → List (Option ℕ) × Register
unfolding swap
swap_all [] x = ([], x)
swap_all (a ∷ attempts) x =
    let rest = swap_all attempts (swap a x).1 in ((swap a x).0 ∷ rest.0, rest.1)

-- the compare-and-sets, in the order in which they get the lock of the row
unfoldable pub attempt_all : ℕ → ℕ → List Attempt → Tx (List (Option ℕ))
attempt_all project_id memory_id [] = pure []
attempt_all project_id memory_id (a ∷ attempts) = do
  modify (λ db. record db { now = a.now })
  answer ← compare_and_set project_id memory_id a.expected a.edit
  answers ← attempt_all project_id memory_id attempts
  pure (answer ∷ answers)

-- the tables hold the register: an active memory of the project at its number, with its content
pub record Holds (project_id m : ℕ) (db : Db) (x : Register) : Type 0 where
  pub row : Memory
  pub revision : MemoryRevision
  pub log : List MemoryRevision
  pub rows : rows_of m db ≡ row ∷ []
  pub log_is : log_of m db ≡ revision ∷ log
  pub mine : row.project_id ≡ project_id
  pub active : is_active row.status ≡ true
  pub number : row.current_revision_no ≡ x.number
  pub content : revision.content ≡ x.content

IsLog-row :
    (r : Memory) (log : List MemoryRevision) (keys : List MemoryDedupKey) (rows : List Memory)
    → rows ≡ r ∷ []
    → IsSound rows log keys
    → IsLog r.project_id r.current_revision_no log
IsLog-row r log keys rows e sound = (subst (λ l. IsSound l log keys) e sound).0

module _ (project_id m : ℕ) (a : Attempt) (x : Register) (s : Db) (wf : IsWellFormed s)
    (h : Holds project_id m s x) (fits : EditFits a.edit) where
  abbrev Swapped : Option ℕ × Register → Type 0
  Swapped r =
      (t : Db) × (compare_and_set project_id m a.expected a.edit s ≡ ok (r.0, t))
      × IsWellFormed t
      × Holds project_id m t r.1

  hit_swaps :
      (x.number == a.expected) ≡ true
      → Swapped
          (some (a.expected + 1), record { number = a.expected + 1; content = a.edit.content })
  hit_swaps e =
      let n = a.expected in
      let at_n : h.row.current_revision_no ≡ n = h.number ∙ (==_iff x.number n).0 e in
      let matches : cas_matches project_id n h.row ≡ true =
        let mine = h.mine in let active = h.active in ground arith in
      let t : Db = after_cas project_id m n a.edit (n + 1) s in
      let log : IsLog project_id n (log_of m s) =
        subst₂ (λ p k. IsLog p k (log_of m s)) h.mine at_n
          (IsLog-row h.row (log_of m s) (keys_of m s) (rows_of m s) h.rows (wf m)) in
      (
        t,
        compare_and_set_won project_id m n s h.row h.rows matches a.edit fits log,
        after_cas-IsWellFormed project_id m n a.edit (n + 1) s
            (won-some project_id m n s h.row h.rows matches a.edit) wf,
        record {
          row = advance s.now h.row;
          revision = next_revision project_id m (n + 1) a.edit s.now;
          log =
              at (λ w. w.memory_id) m
                (update_where (λ w. w.memory_id == m && w.revision_no == n) retire_revision
                  s.memory_revisions);
          rows =
              rows_of-after_cas project_id m n a.edit (n + 1) s m
              ∙ rw (==_refl m, h.rows, matches) refl;
          log_is = rw (==_refl m) refl;
          mine = h.mine;
          active = h.active;
          number = ap (λ k. k + 1) at_n;
          content = refl;
        },
      )

  missed :
      (x.number == a.expected) ≡ false
      → any (cas_matches project_id a.expected) (rows_of m s) ≡ false
  missed e = let number = h.number in rw h.rows (ground (arith, e))

  miss_swaps : (x.number == a.expected) ≡ false → Swapped (none, x)
  miss_swaps e = (
    s,
    compare_and_set_lost project_id m a.expected a.edit s
        (won-none project_id m a.expected a.edit s (missed e)),
    wf,
    h,
  )

  cas_swaps : Swapped (swap a x)
  unfolding swap
  cas_swaps = elim (Bool-cases (x.number == a.expected)) [
    | inl e ↦ rw e (hit_swaps e)
    | inr e ↦ rw e (miss_swaps e)
  ]

at_clock :
    (project_id m now : ℕ) (s : Db) (x : Register)
    → Holds project_id m s x
    → Holds project_id m (record s { now = now }) x
at_clock project_id m now s x h = record {
  row = h.row;
  revision = h.revision;
  log = h.log;
  rows = h.rows;
  log_is = h.log_is;
  mine = h.mine;
  active = h.active;
  number = h.number;
  content = h.content;
}

-- The compare-and-sets of any number of clients on an active memory of a well-formed store, each with
-- the number that it expects, its own clock and an edit that fits the schema, implement an atomic
-- register: none raises, each one is answered as the register's compare-and-swap is, in the same order,
-- and the store that they leave is well formed and holds the register's number and content.
pub attempt_all-swap_all :
    (project_id m : ℕ) (attempts : List Attempt) (x : Register) (s : Db)
    → IsWellFormed s
    → Holds project_id m s x
    → All (λ a. EditFits a.edit) attempts
    → (t : Db) × (attempt_all project_id m attempts s ≡ ok ((swap_all attempts x).0, t))
      × IsWellFormed t
      × Holds project_id m t (swap_all attempts x).1
unfolding attempt_all swap_all ◌>>=◌
attempt_all-swap_all project_id m [] x s wf h fits = (s, refl, wf, h)
attempt_all-swap_all project_id m (a ∷ attempts) x s wf h fits =
    let here : Db = record s { now = a.now } in
    let (u, swapped, wf_u, held) =
      cas_swaps project_id m a x here wf (at_clock project_id m a.now s x h) fits.0 in
    let (t, rest, wf_t, holds) =
      attempt_all-swap_all project_id m attempts (swap a x).1 u wf_u held fits.1 in
    (t, rw (swapped, rest) refl, wf_t, holds)
