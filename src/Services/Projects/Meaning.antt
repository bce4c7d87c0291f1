-- ===== src/Services/Projects/Meaning.antt =====
-- src/memhub/services/projects.py: the answer of `use_project` and the meaning of its hints.
use mcp_shared_memory_hub.Prelude.{
  ℕ, ◌≡◌, refl, sym, subst, ◌∙◌, inl, inr, Bool, true, false, not, ◌&&◌, Option, none, some, List,
  [], ◌∷◌, arith, Text, is_some, All, Bool-cases,
}
use mcp_shared_memory_hub.Domain.Errors.{Error, ok, err, validation_failed, ambiguous_project}
use mcp_shared_memory_hub.Domain.Unicode.{Platform}
use mcp_shared_memory_hub.Domain.Normalize.{normalize_workspace_path}
use mcp_shared_memory_hub.Domain.GitRemote.{normalize_git_remote}
use mcp_shared_memory_hub.Store.Tables.{git_remote, workspace_path, Db}
use mcp_shared_memory_hub.Store.Tx.{raise, lift}
use mcp_shared_memory_hub.Store.Guarantee.{lift-inv, bind-inv}
use mcp_shared_memory_hub.Services.Projects.{
  ProjectRef, Hints, truthy, normalized, checked_slug, note, by_id, by_slug, by_alias,
  create_or_exists, create_named, decide, resolve, use_project, any_hint,
}
use mcp_shared_memory_hub.Services.Projects.Agreement.{
  AllFound, slug_lookup, alias_lookup, by_id-inv, by_slug-inv, by_alias-inv, notes-All,
}
use mcp_shared_memory_hub.Services.Projects.Resolution.{
  Agrees, resolved_ref-Agrees, create_ref-Agrees, conflict-inv,
}

err-ok : {A : Type 0} {a : A} (e : Error) → err e ≡ ok a → ⊥
err-ok e h = ground arith

AllFound-none : (o : Option ℕ) → AllFound (λ m. ⊥) o → o ≡ none
AllFound-none none h = refl
AllFound-none (some n) h = absurd h

module _ (new_id : ℕ) (hints : Hints) (slug remote path : Option Text) where
  create_named-Agrees :
      (create : Bool) (name : Option Text) (asked : Option Text) (s : Db) {ref : ProjectRef}
      {t : Db}
      → slug ≡ asked
      → hints.project_id ≡ none
      → alias_lookup git_remote remote s ≡ none
      → alias_lookup workspace_path path s ≡ none
      → create_named new_id create asked name remote path s ≡ ok (ref, t)
      → Agrees hints slug remote path ref.id t
  unfolding create_named create_or_exists raise
  create_named-Agrees false name asked s e no_id no_remote no_path h = absurd (ground arith)
  create_named-Agrees true name none s e no_id no_remote no_path h = absurd (ground arith)
  create_named-Agrees true name (some s') s e no_id no_remote no_path h =
      create_ref-Agrees hints slug remote path new_id s' name s e no_id no_remote no_path
        (conflict-inv _ h)

  -- what the lookups found, of the hints as they were given
  abbrev candidates : Db → List ℕ
  candidates s = note (alias_lookup workspace_path path s) (
      note (alias_lookup git_remote remote s)
        (note (slug_lookup slug s) (note hints.project_id [])))

  decide-Agrees :
      (ns : List ℕ) (s : Db) {ref : ProjectRef} {t : Db}
      → candidates s ≡ ns
      → decide new_id hints slug
          (is_some slug && not (is_some (slug_lookup slug s)))
          remote
          path
          ns
          s
        ≡ ok (ref, t)
      → Agrees hints slug remote path ref.id t
  unfolding decide raise
  decide-Agrees [] s e h =
      let (no_id, _, no_remote, no_path) =
        notes-All (λ m. ⊥) hints.project_id (slug_lookup slug s) (alias_lookup git_remote remote s)
          (alias_lookup workspace_path path s) (subst (All (λ m. ⊥)) (sym e) tt) in
      create_named-Agrees hints.create hints.display_name slug s refl
        (AllFound-none hints.project_id no_id) (AllFound-none _ no_remote) (AllFound-none _ no_path)
        h
  decide-Agrees (n ∷ []) s {ref} {t} e h =
      let one : All (λ (m : ℕ). m ≡ n) (n ∷ []) = (refl, tt) in
      let (only_id, only_slug, only_remote, only_path) =
        notes-All (λ m. m ≡ n) hints.project_id (slug_lookup slug s)
          (alias_lookup git_remote remote s) (alias_lookup workspace_path path s)
          (subst (All (λ (m : ℕ). m ≡ n)) (sym e) one) in
      elim (Bool-cases (is_some slug && not (is_some (slug_lookup slug s)))) [
        | inl unknown ↦ absurd (err-ok ambiguous_project (rw unknown at h))
        | inr known ↦
            resolved_ref-Agrees hints slug remote path n s known
              (record {
                found_id = only_id;
                found_slug = only_slug;
                found_remote = only_remote;
                found_path = only_path;
              })
              (rw known at h)
      ]
  decide-Agrees (n ∷ m ∷ ns) s e h = absurd (ground arith)

  decide_found-Agrees :
      (a b c d : Option ℕ) (u s : Db) {ref : ProjectRef} {t : Db}
      → a ≡ hints.project_id
      → b ≡ slug_lookup slug s
      → c ≡ alias_lookup git_remote remote s
      → d ≡ alias_lookup workspace_path path s
      → u ≡ s
      → decide new_id hints slug
          (is_some slug && not (is_some b))
          remote
          path
          (note d (note c (note b (note a []))))
          u
        ≡ ok (ref, t)
      → Agrees hints slug remote path ref.id t
  decide_found-Agrees a b c d u s ea eb ec ed eu h =
      decide-Agrees (candidates s) s refl (rw (ea, eb, ec, ed, eu) at h)

  resolve-Agrees :
      (s : Db) {ref : ProjectRef} {t : Db}
      → resolve new_id hints slug remote path s ≡ ok (ref, t)
      → Agrees hints slug remote path ref.id t
  unfolding resolve
  resolve-Agrees s {ref} {t} h =
      let (a, s1, h1, k1) = bind-inv (by_id hints.project_id) _ s h in
      let (b, s2, h2, k2) = bind-inv (by_slug hints.create slug) _ s1 k1 in
      let (c, s3, h3, k3) = bind-inv (by_alias git_remote remote) _ s2 k2 in
      let (d, s4, h4, k4) = bind-inv (by_alias workspace_path path) _ s3 k3 in
      let (is_a, at1) = by_id-inv hints.project_id s h1 in
      let (is_b, at2) = by_slug-inv hints.create slug s1 h2 in
      let (is_c, at3) = by_alias-inv git_remote remote s2 h3 in
      let (is_d, at4) = by_alias-inv workspace_path path s3 h4 in
      decide_found-Agrees a b c d s4 s is_a (subst (λ x. b ≡ slug_lookup slug x) at1 is_b)
        (subst (λ x. c ≡ alias_lookup git_remote remote x) (at2 ∙ at1) is_c)
        (subst (λ x. d ≡ alias_lookup workspace_path path x) (at3 ∙ at2 ∙ at1) is_d)
        (at4 ∙ at3 ∙ at2 ∙ at1) k4

-- When `use_project` answers, whether it resolved the project or created it, then in the database that
-- it leaves a given id is the project's, a given slug, validated, is the slug of the project, and a
-- given git remote or workspace path, normalized, is an alias of the project.
pub use_project-Agrees :
    (py : Platform) (new_id : ℕ) (hints : Hints) (s t : Db) (ref : ProjectRef)
    → use_project py new_id hints s ≡ ok (ref, t)
    → (slug : Option Text) × (checked_slug py (truthy hints.slug) ≡ ok slug)
      × Agrees hints slug
          (normalized (normalize_git_remote py) hints.git_remote)
          (normalized (normalize_workspace_path py) hints.workspace_path)
          ref.id
          t
unfolding use_project raise
use_project-Agrees py new_id hints s t ref h = elim (Bool-cases (any_hint hints)) [
  | inl given ↦
      let (slug, s1, checked, k) =
        bind-inv (lift (checked_slug py (truthy hints.slug))) _ s (rw given at h) in
      let (valid, same) = lift-inv (checked_slug py (truthy hints.slug)) checked in
      (
        slug,
        valid,
        resolve-Agrees new_id hints slug (normalized (normalize_git_remote py) hints.git_remote)
            (normalized (normalize_workspace_path py) hints.workspace_path) s1 k,
      )
  | inr missing ↦ absurd (err-ok validation_failed (rw missing at h))
]
