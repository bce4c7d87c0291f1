-- ===== src/Store/Coverage.antt =====
-- src/memhub/persistence/repositories/truth.py: `semantic_coverage`, as an exact quotient.
use mcp_shared_memory_hub.Prelude.{
  ℕ, ◌+◌, ◌≤◌, ◌≡◌, ◌↔◌, refl, inl, inr, Bool, false, ◌&&◌, List, [], ◌∷◌, ◌++◌, map, arith, ◌==◌,
  Text, text_eq, length, is_empty, max, select_where, All, if◌then◌else◌, Bool-cases,
}
use mcp_shared_memory_hub.Domain.Enums.{is_active}
use mcp_shared_memory_hub.Domain.Errors.{ok}
use mcp_shared_memory_hub.Store.Tables.{Memory, MemoryRevision, MemoryEmbedding, Db}
use mcp_shared_memory_hub.Store.Memories.{unexpired}
use mcp_shared_memory_hub.Store.Tx.{Tx, gets}

-- a share, float(numerator) / float(denominator)
pub record Ratio : Type 0 where
  pub numerator : ℕ
  pub denominator : ℕ

-- memories m JOIN memory_revisions r ON r.memory_id = m.id AND r.revision_no = m.current_revision_no
abbrev pub newest : List Memory → List MemoryRevision → List (Memory × MemoryRevision)
newest [] revisions = []
newest (m ∷ memories) revisions =
    map (λ r. (m, r))
      (select_where (λ r. r.memory_id == m.id && r.revision_no == m.current_revision_no) revisions)
    ++ newest memories revisions

-- the ON clause of the join with memory_embeddings
abbrev pub vector_of : Text → MemoryRevision → MemoryEmbedding → Bool
vector_of model r e =
    e.memory_id == r.memory_id && e.revision_no == r.revision_no && text_eq e.model model

abbrev pub vectors : Text → Db → Memory × MemoryRevision → List MemoryEmbedding
vectors model db x = select_where (vector_of model x.1) db.memory_embeddings

-- count(*) of the rows, each joined with its vectors or with one row of NULLs, and the count of those
-- that are not NULL
abbrev pub covered : Text → Db → List (Memory × MemoryRevision) → Ratio
covered model db [] = record { numerator = 0; denominator = 0 }
covered model db (x ∷ rows) =
    let rest = covered model db rows in
    let n = length (vectors model db x) in
    record { numerator = n + rest.numerator; denominator = max 1 n + rest.denominator }

abbrev pub live_rows : ℕ → Db → List (Memory × MemoryRevision)
live_rows project_id db =
    select_where
      (λ x. x.0.project_id == project_id && is_active x.0.status && unexpired db.now x.0.expires_at)
      (newest db.memories db.memory_revisions)

abbrev pub whole_if_none : Ratio → Ratio
whole_if_none row = if row.denominator == 0 then record { numerator = 1; denominator = 1 } else row

unfoldable pub semantic_coverage : ℕ → Text → Tx Ratio
semantic_coverage project_id model =
    gets λ db. whole_if_none (covered model db (live_rows project_id db))

abbrev pub HasVector : Text → Db → Memory × MemoryRevision → Type 0
HasVector model db x = is_empty (vectors model db x) ≡ false

module _ (model : Text) (db : Db) where
  covered-le :
      (rows : List (Memory × MemoryRevision))
      → (covered model db rows).numerator ≤ (covered model db rows).denominator
  covered-le [] = omega arith
  covered-le (x ∷ rows) = omega (arith, covered-le rows)

  one_vector :
      (x : Memory × MemoryRevision) (es : List MemoryEmbedding)
      → (max 1 (length es) ≤ length es) ↔ (is_empty es ≡ false)
  one_vector x [] = (λ h. absurd (omega arith), λ h. absurd (ground arith))
  one_vector x (e ∷ es) = (λ h. refl, λ h. omega arith)

  all-covered :
      (rows : List (Memory × MemoryRevision))
      → (covered model db rows).denominator ≤ (covered model db rows).numerator
      → All (HasVector model db) rows
  all-covered [] h = tt
  all-covered (x ∷ rows) h =
      let le = covered-le rows in
      ((one_vector x (vectors model db x)).0 (omega (arith, le)), all-covered rows (omega arith))

  covered-all :
      (rows : List (Memory × MemoryRevision))
      → All (HasVector model db) rows
      → (covered model db rows).denominator ≤ (covered model db rows).numerator
  covered-all [] h = omega arith
  covered-all (x ∷ rows) h =
      omega (arith, covered-all rows h.1, (one_vector x (vectors model db x)).1 h.0)

-- The coverage of a project is a share between 0 and 1 of its live memories, and it is 1 exactly when
-- each of them has a vector of the model at its newest revision, also when there are none.
pub semantic_coverage_lem :
    (project_id : ℕ) (model : Text) (db : Db)
    → (c : Ratio) × (semantic_coverage project_id model db ≡ ok (c, db))
      × (1 ≤ c.denominator)
      × (c.numerator ≤ c.denominator)
      × ((c.numerator ≡ c.denominator) ↔ All (HasVector model db) (live_rows project_id db))
unfolding semantic_coverage gets
semantic_coverage_lem project_id model db =
    let rows = live_rows project_id db in
    let row = covered model db rows in
    let le = covered-le model db rows in
    elim (Bool-cases (row.denominator == 0)) [
      | inl e ↦ (
        record { numerator = 1; denominator = 1 },
        rw e refl,
        omega arith,
        omega arith,
        (λ h. all-covered model db rows (ground arith), λ h. refl),
      )
      | inr e ↦ (
        row,
        rw e refl,
        ground arith,
        le,
        (
          λ h. all-covered model db rows (omega arith),
          λ h. let ge = covered-all model db rows h in omega arith,
        ),
      )
    ]
