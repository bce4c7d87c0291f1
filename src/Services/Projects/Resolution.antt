-- ===== src/Services/Projects/Resolution.antt =====
-- src/memhub/services/projects.py: what the hints mean, step by step.
use mcp_shared_memory_hub.Prelude.{
  ℕ, ◌≡◌, refl, sym, subst, subst₂, ap, ◌∙◌, false, not, ◌&&◌, Option, none, some, List, ◌∷◌, arith,
  ◌==◌, Text, text_eq_refl, first, is_some, select_where,
}
use mcp_shared_memory_hub.Domain.Errors.{
  Result, ok, err, integrity_error, query_canceled, in_failed_transaction, database_error,
  resource_not_found, internal, validation_failed, project_not_found, ambiguous_project,
  project_exists, memory_not_found, idempotency_key_reused,
}
use mcp_shared_memory_hub.Store.Tables.{Project, AliasKind, git_remote, workspace_path, Db}
use mcp_shared_memory_hub.Store.Tx.{◌>>=◌}
use mcp_shared_memory_hub.Store.Guarantee.{pure-inv, bind-inv}
use mcp_shared_memory_hub.Store.Projects.{get_by_id, insert_project, create_project}
use mcp_shared_memory_hub.Services.Projects.{
  ProjectRef, Hints, truthy, ensure_aliases, create_ref, conflict_as_exists, as_ref, resolved_ref,
  or_text,
}
use mcp_shared_memory_hub.Services.Projects.Agreement.{
  IdAgrees, SlugAgrees, AliasAgrees, AllFound, slug_owner, slug_lookup, alias_lookup, id_of,
  first-id,
}
use mcp_shared_memory_hub.Services.Projects.Aliases.{ensure_aliases-agree}

-- what was asked for, its texts normalized, means the project `n`
pub record Agrees (hints : Hints) (slug remote path : Option Text) (n : ℕ) (db : Db) : Type 0 where
  pub id_agrees : IdAgrees n hints.project_id
  pub slug_agrees : SlugAgrees n db slug
  pub remote_agrees : AliasAgrees n db git_remote remote
  pub path_agrees : AliasAgrees n db workspace_path path

-- every hint that was found is the project `n`
pub record OnlyFound (n : ℕ) (hints : Hints) (slug remote path : Option Text) (db : Db)
    : Type 0 where
  pub found_id : AllFound (λ m. m ≡ n) hints.project_id
  pub found_slug : AllFound (λ m. m ≡ n) (slug_lookup slug db)
  pub found_remote : AllFound (λ m. m ≡ n) (alias_lookup git_remote remote db)
  pub found_path : AllFound (λ m. m ≡ n) (alias_lookup workspace_path path db)

IdAgrees-found : (n : ℕ) (o : Option ℕ) → AllFound (λ m. m ≡ n) o → IdAgrees n o
IdAgrees-found n none h = tt
IdAgrees-found n (some m) h = h

SlugAgrees-found :
    (n : ℕ) (slug : Option Text) (s t : Db)
    → t.projects ≡ s.projects
    → is_some slug && not (is_some (slug_lookup slug s)) ≡ false
    → AllFound (λ m. m ≡ n) (slug_lookup slug s)
    → SlugAgrees n t slug
SlugAgrees-found n none s t same known found = tt
SlugAgrees-found n (some slug) s t same known found = go (slug_owner slug s) refl known found
  where
    go :
        (o : Option Project)
        → slug_owner slug s ≡ o
        → not (is_some (id_of o)) ≡ false
        → AllFound (λ m. m ≡ n) (id_of o)
        → (p : Project) × (slug_owner slug t ≡ some p) × (p.id ≡ n)
    go none e k f = absurd (ground arith)
    go (some p) e k f = (p, rw same e, f)

pub conflict-inv : {A : Type 0} (r : Result A) {a : A} → conflict_as_exists r ≡ ok a → r ≡ ok a
conflict-inv (ok b) h = h
conflict-inv (err internal) h = absurd (ground arith)
conflict-inv (err validation_failed) h = absurd (ground arith)
conflict-inv (err project_not_found) h = absurd (ground arith)
conflict-inv (err ambiguous_project) h = absurd (ground arith)
conflict-inv (err project_exists) h = absurd (ground arith)
conflict-inv (err memory_not_found) h = absurd (ground arith)
conflict-inv (err idempotency_key_reused) h = absurd (ground arith)
conflict-inv (err integrity_error) h = absurd (ground arith)
conflict-inv (err query_canceled) h = absurd (ground arith)
conflict-inv (err in_failed_transaction) h = absurd (ground arith)
conflict-inv (err database_error) h = absurd (ground arith)
conflict-inv (err resource_not_found) h = absurd (ground arith)

module _ (hints : Hints) (slug remote path : Option Text) where
  pub resolved_ref-Agrees :
      (n : ℕ) (s : Db) {ref : ProjectRef} {t : Db}
      → is_some slug && not (is_some (slug_lookup slug s)) ≡ false
      → OnlyFound n hints slug remote path s
      → resolved_ref n remote path s ≡ ok (ref, t)
      → Agrees hints slug remote path ref.id t
  unfolding resolved_ref get_by_id as_ref ◌>>=◌
  resolved_ref-Agrees n s {ref} {t} known only h =
      go (first (select_where (λ p. p.id == n) s.projects)) refl h
    where
      finish :
          (p : Project) (u : Db)
          → p.id ≡ n
          → ensure_aliases p.id remote path s ≡ ok (tt, u)
          → Agrees hints slug remote path n u
      finish p u same_id ensured =
          let (same, remote_agrees, path_agrees) =
            ensure_aliases-agree n remote path s only.found_remote only.found_path
              (subst (λ x. ensure_aliases x remote path s ≡ ok (tt, u)) same_id ensured) in
          record {
            id_agrees = IdAgrees-found n hints.project_id only.found_id;
            slug_agrees = SlugAgrees-found n slug s u same known only.found_slug;
            remote_agrees = remote_agrees;
            path_agrees = path_agrees;
          }

      go :
          (o : Option Project)
          → first (select_where (λ p. p.id == n) s.projects) ≡ o
          → as_ref remote path o s ≡ ok (ref, t)
          → Agrees hints slug remote path ref.id t
      go none e k = absurd (ground arith)
      go (some p) e k =
          let (_, u, ensured, last) = bind-inv (ensure_aliases p.id remote path) _ s k in
          let (same_ref, same_db) = pure-inv last in
          subst₂ (Agrees hints slug remote path)
            (sym (ap (λ (r : ProjectRef). r.id) (sym same_ref) ∙ first-id n s.projects e)) same_db
            (finish p u (first-id n s.projects e) ensured)

  alias_lookup-same :
      (kind : AliasKind) (value : Option Text) (s u : Db) {o : Option ℕ}
      → u.project_aliases ≡ s.project_aliases
      → alias_lookup kind value s ≡ o
      → alias_lookup kind value u ≡ o
  alias_lookup-same kind none s u same h = h
  alias_lookup-same kind (some v) s u same h = rw same h

  create_project-inv :
      (new_id : ℕ) (s' name : Text) (s : Db) {p : Project} {t : Db}
      → create_project new_id s' name s ≡ ok (p, t)
      → (p ≡ record { id = new_id; slug = s'; display_name = name })
        × (t.projects ≡ record { id = new_id; slug = s'; display_name = name } ∷ s.projects)
        × (t.project_aliases ≡ s.project_aliases)
  unfolding create_project insert_project
  create_project-inv new_id s' name s h = ground arith

  -- the slug of a project that has just been inserted
  new-SlugAgrees :
      (n : ℕ) (s' name : Text) (ps : List Project) (t : Db)
      → slug ≡ some s'
      → t.projects ≡ record { id = n; slug = s'; display_name = name } ∷ ps
      → SlugAgrees n t slug
  new-SlugAgrees n s' name ps t has_slug inserted =
      subst (SlugAgrees n t) (sym has_slug) (
        record { id = n; slug = s'; display_name = name },
        rw (inserted, text_eq_refl s') refl,
        refl,
      )

  pub create_ref-Agrees :
      (new_id : ℕ) (s' : Text) (name : Option Text) (s : Db) {ref : ProjectRef} {t : Db}
      → slug ≡ some s'
      → hints.project_id ≡ none
      → alias_lookup git_remote remote s ≡ none
      → alias_lookup workspace_path path s ≡ none
      → create_ref new_id s' name remote path s ≡ ok (ref, t)
      → Agrees hints slug remote path ref.id t
  unfolding create_ref
  create_ref-Agrees new_id s' name s {ref} {t} has_slug no_id no_remote no_path h =
      let (p, u, made, k) = bind-inv (create_project new_id s' (or_text (truthy name) s')) _ s h in
      let (_, v, ensured, last) = bind-inv (ensure_aliases p.id remote path) _ u k in
      let (same_ref, same_db) = pure-inv last in
      let (row, projects, aliases) =
        create_project-inv new_id s' (or_text (truthy name) s') s made in
      let m : p.id ≡ new_id = ap (λ (x : Project). x.id) row in
      let r : ref.id ≡ new_id = ap (λ (x : ProjectRef). x.id) (sym same_ref) ∙ m in
      let (same, remote_agrees, path_agrees) =
        ensure_aliases-agree new_id remote path u
          (subst (AllFound (λ x. x ≡ new_id))
            (sym (alias_lookup-same git_remote remote s u aliases no_remote)) tt)
          (subst (AllFound (λ x. x ≡ new_id))
            (sym (alias_lookup-same workspace_path path s u aliases no_path)) tt)
          (subst (λ x. ensure_aliases x remote path u ≡ ok (tt, v)) m ensured) in
      subst₂ (Agrees hints slug remote path) (sym r) same_db (record {
        id_agrees = subst (IdAgrees new_id) (sym no_id) tt;
        slug_agrees =
            new-SlugAgrees new_id s' (or_text (truthy name) s') s.projects v has_slug
              (same ∙ projects);
        remote_agrees = remote_agrees;
        path_agrees = path_agrees;
      })
