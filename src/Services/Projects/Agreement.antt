-- ===== src/Services/Projects/Agreement.antt =====
-- src/memhub/services/projects.py: the project that the hints mean, when it is resolved.
use mcp_shared_memory_hub.Prelude.{
  ℕ, ◌≡◌, refl, subst, inl, inr, Bool, true, false, Option, none, some, List, [], ◌∷◌, ◌++◌, arith,
  ◌==◌, ==_iff, Text, text_eq, any, first, select_where, All, Bool-cases,
}
use mcp_shared_memory_hub.Domain.Errors.{ok}
use mcp_shared_memory_hub.Store.Tables.{Project, AliasKind, Db}
use mcp_shared_memory_hub.Store.Tx.{◌>>=◌}
use mcp_shared_memory_hub.Store.Projects.{get_by_id, get_by_slug, alias_owner, resolve_alias}
use mcp_shared_memory_hub.Services.Projects.{
  note, known_project, by_id, known_slug, by_slug, by_alias,
}

abbrev pub slug_owner : Text → Db → Option Project
slug_owner slug db = first (select_where (λ p. text_eq p.slug slug) db.projects)

-- what each hint means, if it was given
abbrev pub IdAgrees : ℕ → Option ℕ → Type 0
IdAgrees n none = Unit
IdAgrees n (some m) = m ≡ n

abbrev pub SlugAgrees : ℕ → Db → Option Text → Type 0
SlugAgrees n db none = Unit
SlugAgrees n db (some slug) = (p : Project) × (slug_owner slug db ≡ some p) × (p.id ≡ n)

abbrev pub AliasAgrees : ℕ → Db → AliasKind → Option Text → Type 0
AliasAgrees n db kind none = Unit
AliasAgrees n db kind (some value) = alias_owner kind value db ≡ some n

-- the lookups of the hints
abbrev pub id_of : Option Project → Option ℕ
id_of none = none
id_of (some p) = some p.id

abbrev pub slug_lookup : Option Text → Db → Option ℕ
slug_lookup none db = none
slug_lookup (some slug) db = id_of (slug_owner slug db)

abbrev pub alias_lookup : AliasKind → Option Text → Db → Option ℕ
alias_lookup kind none db = none
alias_lookup kind (some value) db = alias_owner kind value db

pub first-id :
    (n : ℕ) (ps : List Project) {p : Project}
    → first (select_where (λ p. p.id == n) ps) ≡ some p
    → p.id ≡ n
first-id n [] h = absurd (ground arith)
first-id n (q ∷ ps) {p} h = ground (arith, first-id n ps {p = p}, ==_iff q.id n)

pub by_id-inv :
    (hint : Option ℕ) (s : Db) {a : Option ℕ} {t : Db}
    → by_id hint s ≡ ok (a, t)
    → (a ≡ hint) × (t ≡ s)
unfolding by_id get_by_id known_project ◌>>=◌
by_id-inv none s h = (ground arith, ground arith)
by_id-inv (some n) s {a} {t} h = go (first (select_where (λ p. p.id == n) s.projects)) refl h
  where
    go :
        (o : Option Project)
        → first (select_where (λ p. p.id == n) s.projects) ≡ o
        → known_project o s ≡ ok (a, t)
        → (a ≡ some n) × (t ≡ s)
    go none e k = absurd (ground arith)
    go (some p) e k = let same = first-id n s.projects e in (ground arith, ground arith)

pub by_slug-inv :
    (create : Bool) (slug : Option Text) (s : Db) {b : Option ℕ} {t : Db}
    → by_slug create slug s ≡ ok (b, t)
    → (b ≡ slug_lookup slug s) × (t ≡ s)
unfolding by_slug get_by_slug known_slug ◌>>=◌
by_slug-inv create none s h = (ground arith, ground arith)
by_slug-inv create (some slug) s {b} {t} h = go create (slug_owner slug s) h
  where
    go :
        (create : Bool) (o : Option Project)
        → known_slug create o s ≡ ok (b, t)
        → (b ≡ id_of o) × (t ≡ s)
    go create (some p) k = (ground arith, ground arith)
    go true none k = (ground arith, ground arith)
    go false none k = absurd (ground arith)

pub by_alias-inv :
    (kind : AliasKind) (value : Option Text) (s : Db) {c : Option ℕ} {t : Db}
    → by_alias kind value s ≡ ok (c, t)
    → (c ≡ alias_lookup kind value s) × (t ≡ s)
unfolding by_alias resolve_alias ◌>>=◌
by_alias-inv kind none s h = (ground arith, ground arith)
by_alias-inv kind (some value) s h = (ground arith, ground arith)

-- a property of every candidate is one of every hint that was found
abbrev pub AllFound : (ℕ → Type 0) → Option ℕ → Type 0
AllFound P none = Unit
AllFound P (some n) = P n

module _ (P : ℕ → Type 0) where
  All-any : (n : ℕ) (ns : List ℕ) → any (λ m. m == n) ns ≡ true → All P ns → P n
  All-any n [] e h = absurd (ground arith)
  All-any n (m ∷ ns) e h = elim (Bool-cases (m == n)) [
    | inl same ↦ subst P ((==_iff m n).0 same) h.0
    | inr other ↦ All-any n ns (ground arith) h.1
  ]

  All-append_inv : (ns : List ℕ) (n : ℕ) → All P (ns ++ n ∷ []) → All P ns × P n
  All-append_inv [] n h = (tt, h.0)
  All-append_inv (m ∷ ns) n h = let (rest, last) = All-append_inv ns n h.1 in ((h.0, rest), last)

  note-All : (found : Option ℕ) (ns : List ℕ) → All P (note found ns) → AllFound P found × All P ns
  note-All none ns h = (tt, h)
  note-All (some n) ns h = elim (Bool-cases (any (λ m. m == n) ns)) [
    | inl e ↦ let all : All P ns = rw e at h in (All-any n ns e all, all)
    | inr e ↦ let (rest, last) = All-append_inv ns n (rw e at h) in (last, rest)
  ]

  pub notes-All :
      (a b c d : Option ℕ)
      → All P (note d (note c (note b (note a []))))
      → AllFound P a × AllFound P b × AllFound P c × AllFound P d
  notes-All a b c d h =
      let (fd, h3) = note-All d _ h in
      let (fc, h2) = note-All c _ h3 in
      let (fb, h1) = note-All b _ h2 in let (fa, _) = note-All a [] h1 in (fa, fb, fc, fd)
