-- ===== src/Store/Permanence.antt =====
-- The past of the store: the fixed columns of a memory, a retirement, and the revision log.
use mcp_shared_memory_hub.Prelude.{
  ℕ, ◌≤◌, ◌≡◌, refl, sym, ap, subst, ◌∙◌, ◌⊎◌, inl, inr, Bool, true, List, [], ◌∷◌, ◌++◌, map,
  arith, update_where, Bool-cases,
}
use mathlib.Core.List.{append_assoc}
use mcp_shared_memory_hub.Domain.Enums.{is_active}
use mcp_shared_memory_hub.Store.Tables.{Memory, MemoryRevision, Db}
use mcp_shared_memory_hub.Store.Memories.{retire_revision}
use mcp_shared_memory_hub.Store.Invariant.{rows_of, log_of}

-- The fixed columns stay, the revision number never falls, and a retired row never changes again.
pub record Evolves (r r' : Memory) : Type 0 where
  pub id : r'.id ≡ r.id
  pub project_id : r'.project_id ≡ r.project_id
  pub type : r'.type ≡ r.type
  pub importance : r'.importance ≡ r.importance
  pub expires_at : r'.expires_at ≡ r.expires_at
  pub created_at : r'.created_at ≡ r.created_at
  pub grows : r.current_revision_no ≤ r'.current_revision_no
  pub final : (is_active r.status ≡ true) ⊎ (r' ≡ r)

Evolves-refl : (r : Memory) → Evolves r r
Evolves-refl r = record {
  id = refl;
  project_id = refl;
  type = refl;
  importance = refl;
  expires_at = refl;
  created_at = refl;
  grows = omega arith;
  final = inr refl;
}

final_trans :
    (r r' r'' : Memory)
    → (is_active r.status ≡ true) ⊎ (r' ≡ r)
    → (is_active r'.status ≡ true) ⊎ (r'' ≡ r')
    → (is_active r.status ≡ true) ⊎ (r'' ≡ r)
final_trans r r' r'' (inl a) h = inl a
final_trans r r' r'' (inr e) (inl a) = inl (subst (λ (x : Memory). is_active x.status ≡ true) e a)
final_trans r r' r'' (inr e) (inr e') = inr (e' ∙ e)

Evolves-trans : (r r' r'' : Memory) → Evolves r r' → Evolves r' r'' → Evolves r r''
Evolves-trans r r' r'' h k = record {
  id = k.id ∙ h.id;
  project_id = k.project_id ∙ h.project_id;
  type = k.type ∙ h.type;
  importance = k.importance ∙ h.importance;
  expires_at = k.expires_at ∙ h.expires_at;
  created_at = k.created_at ∙ h.created_at;
  grows = omega (arith, h.grows, k.grows);
  final = final_trans r r' r'' h.final k.final;
}

-- every row is still there, in its place, evolved; where there was none, one may have come
abbrev pub RowsEvolve : List Memory → List Memory → Type 0
RowsEvolve [] rows' = Unit
RowsEvolve (r ∷ rows) [] = ⊥
RowsEvolve (r ∷ rows) (r' ∷ rows') = Evolves r r' × RowsEvolve rows rows'

pub RowsEvolve-refl : (rows : List Memory) → RowsEvolve rows rows
RowsEvolve-refl [] = tt
RowsEvolve-refl (r ∷ rows) = (Evolves-refl r, RowsEvolve-refl rows)

RowsEvolve-trans : (xs ys zs : List Memory) → RowsEvolve xs ys → RowsEvolve ys zs → RowsEvolve xs zs
RowsEvolve-trans [] ys zs h k = tt
RowsEvolve-trans (x ∷ xs) [] zs h k = absurd h
RowsEvolve-trans (x ∷ xs) (y ∷ ys) [] h k = absurd k
RowsEvolve-trans (x ∷ xs) (y ∷ ys) (z ∷ zs) h k =
    (Evolves-trans x y z h.0 k.0, RowsEvolve-trans xs ys zs h.1 k.1)

pub RowsEvolve-update :
    (q : Memory → Bool) (f : Memory → Memory) (rows : List Memory)
    → ((r : Memory) → q r ≡ true → Evolves r (f r))
    → RowsEvolve rows (update_where q f rows)
RowsEvolve-update q f [] h = tt
RowsEvolve-update q f (r ∷ rows) h = (
  elim (Bool-cases (q r)) [ inl e ↦ rw e (h r e) | inr e ↦ rw e (Evolves-refl r) ],
  RowsEvolve-update q f rows h,
)

-- a log with the `is_current` marks taken off: the content of each revision
abbrev pub contents : List MemoryRevision → List MemoryRevision
contents = map retire_revision

pub contents-demote :
    (p : MemoryRevision → Bool) (log : List MemoryRevision)
    → contents (update_where p retire_revision log) ≡ contents log
contents-demote p [] = refl
contents-demote p (r ∷ log) = ground (arith, contents-demote p log)

-- revisions have been added, and none changed or removed
abbrev pub IsAppended : List MemoryRevision → List MemoryRevision → Type 0
IsAppended log log' = (added : List MemoryRevision) × (contents log' ≡ added ++ contents log)

IsAppended-trans :
    (xs ys zs : List MemoryRevision) → IsAppended xs ys → IsAppended ys zs → IsAppended xs zs
IsAppended-trans xs ys zs (a, e) (b, e') =
    (b ++ a, e' ∙ ap (λ l. b ++ l) e ∙ sym (append_assoc b a (contents xs)))

abbrev pub IsPermanent : Db → Db → Type 0
IsPermanent s t =
    (m : ℕ) → RowsEvolve (rows_of m s) (rows_of m t) × IsAppended (log_of m s) (log_of m t)

pub IsPermanent-refl : (s : Db) → IsPermanent s s
IsPermanent-refl s m = (RowsEvolve-refl (rows_of m s), ([], refl))

pub IsPermanent-trans : (s t u : Db) → IsPermanent s t → IsPermanent t u → IsPermanent s u
IsPermanent-trans s t u h k m = (
  RowsEvolve-trans (rows_of m s) (rows_of m t) (rows_of m u) (h m).0 (k m).0,
  IsAppended-trans (log_of m s) (log_of m t) (log_of m u) (h m).1 (k m).1,
)
