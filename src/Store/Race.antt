-- ===== src/Store/Race.antt =====
-- Clients that saw the same revision and race to replace it. PostgreSQL serialises their UPDATEs on
-- the row lock (sql/cas_revise.sql), so a race is the compare-and-sets in the order in which they get
-- the lock, each on what the one before it committed and under the clock of its own transaction.
use mcp_shared_memory_hub.Prelude.{
  ℕ, ◌+◌, ◌≤◌, ◌≡◌, refl, subst₂, ◌∙◌, Bool, true, false, ◌&&◌, Option, none, some, List, [], ◌∷◌,
  map, length, at, arith, ◌==◌, ==_refl, any, first, select_where, update_where, select-at,
  at-update,
}
use mcp_shared_memory_hub.Domain.Errors.{ok}
use mcp_shared_memory_hub.Store.Tables.{Memory, MemoryRevision, MemoryDedupKey, Db}
use mcp_shared_memory_hub.Store.Tx.{Tx, pure, modify, ◌>>=◌, ◌>>◌}
use mcp_shared_memory_hub.Store.Memories.{
  Edit, insert_revision, revision_allowed, cas_revise, demote, append_revision, compare_and_set,
  cas_matches, advance, retire_revision, storable,
}
use mcp_shared_memory_hub.Store.Invariant.{
  rows_of, log_of, keys_of, IsHistory, IsLog, IsSound, IsWellFormed,
}
use mcp_shared_memory_hub.Store.Invariant.Cas.{update_none, hit, won, after_cas, rows_of-after_cas}

-- what the columns and the CHECKs of `memory_revisions` ask of an edit
pub record EditFits (edit : Edit) : Type 0 where
  pub some_content : 1 ≤ length edit.content
  pub short_content : length edit.content ≤ 8192
  pub few_tags : length edit.tags ≤ 16
  pub fit_texts :
      storable edit.content edit.tags edit.change_reason edit.source edit.author_client ≡ true

-- each client brings its clock and its edit
unfoldable pub race : ℕ → ℕ → ℕ → List (ℕ × Edit) → Tx (List (Option ℕ))
race project_id memory_id expected [] = pure []
race project_id memory_id expected ((now, edit) ∷ clients) = do
  modify (λ db. record db { now = now })
  answer ← compare_and_set project_id memory_id expected edit
  answers ← race project_id memory_id expected clients
  pure (answer ∷ answers)

pub any_at {ℓ} :
    {A : Type ℓ} (key : A → ℕ) (m : ℕ) (q : A → Bool) (xs : List A)
    → any (λ r. key r == m && q r) xs ≡ any q (at key m xs)
any_at key m q [] = refl
any_at key m q (x ∷ xs) = ground (arith, any_at key m q xs)

-- no earlier revision has a number above the one expected, and none is current after the demotion
history_free :
    (p n expected : ℕ) (log : List MemoryRevision)
    → IsHistory p n log
    → n ≤ expected
    → (any
          (λ v. v.revision_no == expected + 1)
          (update_where (λ v. v.revision_no == expected) retire_revision log)
        ≡ false)
      × (any (λ v. v.is_current) (update_where (λ v. v.revision_no == expected) retire_revision log)
          ≡ false)
history_free p n expected [] h le = (refl, refl)
history_free p n expected (v ∷ log) h le =
    ground (arith, history_free p v.revision_no expected log h.3)

log_free :
    (p expected : ℕ) (log : List MemoryRevision)
    → IsLog p expected log
    → (any
          (λ v. v.revision_no == expected + 1)
          (update_where (λ v. v.revision_no == expected) retire_revision log)
        ≡ false)
      × (any (λ v. v.is_current) (update_where (λ v. v.revision_no == expected) retire_revision log)
          ≡ false)
log_free p expected [] h = absurd h
log_free p expected (v ∷ log) h =
    let free = history_free p expected expected log h.3 in ground arith

module _ (project_id memory_id expected : ℕ) where
  -- A compare-and-set whose row is not there any more changes nothing.
  pub compare_and_set_lost :
      (edit : Edit) (s : Db)
      → won project_id memory_id expected edit s ≡ none
      → compare_and_set project_id memory_id expected edit s ≡ ok (none, s)
  unfolding compare_and_set cas_revise append_revision ◌>>=◌
  compare_and_set_lost edit s lost = ground (
    arith,
    update_none (hit project_id memory_id expected edit) (advance s.now)
        (λ r. r.current_revision_no + 1) s.memories lost,
  )

  -- `r` is the row of the memory, at the revision expected
  module _ (s : Db) (r : Memory) (only : rows_of memory_id s ≡ r ∷ [])
      (matches : cas_matches project_id expected r ≡ true) where
    pub won-some : (edit : Edit) → won project_id memory_id expected edit s ≡ some (expected + 1)
    won-some edit =
        let at_rows =
          select-at (λ (x : Memory). x.id) memory_id (cas_matches project_id expected) s.memories in
        rw (at_rows, only, matches) (ground arith)

    member :
        any
          (λ x. x.id == memory_id && x.project_id == project_id)
          (update_where
            (λ x. x.id == memory_id && cas_matches project_id expected x)
            (advance s.now)
            s.memories)
        ≡ true
    member =
        any_at (λ x. x.id) memory_id (λ x. x.project_id == project_id) _
        ∙ rw
            (
              at-update (λ x. x.id) memory_id memory_id (cas_matches project_id expected)
                  (advance s.now) s.memories (λ x. refl),
              ==_refl memory_id,
              only,
              matches,
            )
            (ground arith)

    own_log :
        at
          (λ v. v.memory_id)
          memory_id
          (update_where
            (λ v. v.memory_id == memory_id && v.revision_no == expected)
            retire_revision
            s.memory_revisions)
        ≡ update_where (λ v. v.revision_no == expected) retire_revision (log_of memory_id s)
    own_log =
        at-update (λ v. v.memory_id) memory_id memory_id (λ v. v.revision_no == expected)
          retire_revision s.memory_revisions (λ v. refl)
        ∙ rw (==_refl memory_id) refl

    unused :
        IsLog project_id expected (log_of memory_id s)
        → (any
              (λ v. v.memory_id == memory_id && v.revision_no == expected + 1)
              (update_where
                (λ v. v.memory_id == memory_id && v.revision_no == expected)
                retire_revision
                s.memory_revisions)
            ≡ false)
          × (any
                (λ v. v.memory_id == memory_id && v.is_current)
                (update_where
                  (λ v. v.memory_id == memory_id && v.revision_no == expected)
                  retire_revision
                  s.memory_revisions)
              ≡ false)
    unused log =
        let (no_number, no_current) = log_free project_id expected (log_of memory_id s) log in
        (
          any_at (λ v. v.memory_id) memory_id (λ v. v.revision_no == expected + 1) _
              ∙ rw (own_log, no_number) refl,
          any_at (λ v. v.memory_id) memory_id (λ v. v.is_current) _ ∙ rw (own_log, no_current) refl,
        )

    pub compare_and_set_won :
        (edit : Edit)
        → EditFits edit
        → IsLog project_id expected (log_of memory_id s)
        → compare_and_set project_id memory_id expected edit s
          ≡ ok (some (expected + 1), after_cas project_id memory_id expected edit (expected + 1) s)
    unfolding compare_and_set cas_revise append_revision demote insert_revision revision_allowed
        ◌>>=◌
    compare_and_set_won edit fits log =
        let (free, none_current) = unused log in ground (arith, won-some edit, member)

  -- the row has moved on: no compare-and-set with the old number can hit it
  abbrev pub HasMoved : Db → Type 0
  HasMoved s = any (cas_matches project_id expected) (rows_of memory_id s) ≡ false

  first-select {ℓ} :
      {A : Type ℓ} (p : A → Bool) (g : A → ℕ) (xs : List A)
      → any p xs ≡ false
      → first (map g (select_where p xs)) ≡ none
  first-select p g [] h = refl
  first-select p g (x ∷ xs) h = ground (arith, first-select p g xs)

  pub won-none :
      (edit : Edit) (s : Db) → HasMoved s → won project_id memory_id expected edit s ≡ none
  won-none edit s moved =
      rw (select-at (λ (x : Memory). x.id) memory_id (cas_matches project_id expected) s.memories) (
        first-select (cas_matches project_id expected) (λ x. x.current_revision_no + 1)
          (rows_of memory_id s) moved)

  abbrev pub losers : List (ℕ × Edit) → List (Option ℕ)
  losers [] = []
  losers (client ∷ clients) = none ∷ losers clients

  race_lost :
      (clients : List (ℕ × Edit)) (s : Db)
      → HasMoved s
      → (s' : Db) × (race project_id memory_id expected clients s ≡ ok (losers clients, s'))
  unfolding race ◌>>=◌
  race_lost [] s moved = (s, refl)
  race_lost ((now, edit) ∷ clients) s moved =
      let here : Db = record s { now = now } in
      let (s', rest) = race_lost clients here moved in
      (s', rw (compare_and_set_lost edit here (won-none edit here moved), rest) refl)

  moved_on :
      (edit : Edit) (n : ℕ) (s : Db) (r : Memory)
      → rows_of memory_id s ≡ r ∷ []
      → cas_matches project_id expected r ≡ true
      → HasMoved (after_cas project_id memory_id expected edit n s)
  moved_on edit n s r only matches =
      rw
        (
          rows_of-after_cas project_id memory_id expected edit n s memory_id,
          ==_refl memory_id,
          only,
          matches,
        )
        (ground arith)

  sound-IsLog :
      (r : Memory) (log : List MemoryRevision) (keys : List MemoryDedupKey) (rows : List Memory)
      → rows ≡ r ∷ []
      → cas_matches project_id expected r ≡ true
      → IsSound rows log keys
      → IsLog project_id expected log
  sound-IsLog r log keys [] only matches sound = absurd (ground arith)
  sound-IsLog r log keys (x ∷ []) only matches sound =
      subst₂ (λ p n. IsLog p n log) (ground arith) (ground arith) sound.0
  sound-IsLog r log keys (x ∷ y ∷ rows) only matches sound = absurd sound

  -- If the memory is active at the revision that all clients expect, in a well-formed store, and the
  -- first edit fits the schema, then no client raises, the first one to get the lock is told the next
  -- revision number, and every other client is told that it lost.
  pub race_one_winner :
      (now : ℕ) (edit : Edit) (clients : List (ℕ × Edit)) (s : Db) (r : Memory)
      → IsWellFormed s
      → rows_of memory_id s ≡ r ∷ []
      → cas_matches project_id expected r ≡ true
      → EditFits edit
      → (s' : Db) × (race project_id memory_id expected ((now, edit) ∷ clients) s
          ≡ ok (some (expected + 1) ∷ losers clients, s'))
  unfolding race ◌>>=◌
  race_one_winner now edit clients s r wf only matches fits =
      let here : Db = record s { now = now } in
      let log =
        sound-IsLog r (log_of memory_id s) (keys_of memory_id s) (rows_of memory_id s) only matches
          (wf memory_id) in
      let (s', rest) =
        race_lost clients (after_cas project_id memory_id expected edit (expected + 1) here)
          (moved_on edit (expected + 1) here r only matches) in
      (s', rw (compare_and_set_won here r only matches edit fits log, rest) refl)
