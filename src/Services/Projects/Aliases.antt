-- ===== src/Services/Projects/Aliases.antt =====
-- What recording the aliases of a project leaves behind.
use mcp_shared_memory_hub.Prelude.{
  ℕ, ◌≡◌, refl, sym, subst, ap, ◌∙◌, true, false, Option, none, some, ◌∷◌, arith, Text,
  text_eq_refl,
}
use mcp_shared_memory_hub.Domain.Errors.{ok}
use mcp_shared_memory_hub.Store.Tables.{AliasKind, git_remote, workspace_path, Db}
use mcp_shared_memory_hub.Store.Tx.{◌>>=◌}
use mcp_shared_memory_hub.Store.Guarantee.{bind-inv}
use mcp_shared_memory_hub.Store.Projects.{alias_owner, same_kind, resolve_alias, add_alias}
use mcp_shared_memory_hub.Services.Projects.{add_missing, ensure_alias, ensure_aliases}
use mcp_shared_memory_hub.Services.Projects.Agreement.{AliasAgrees, AllFound, alias_lookup}

same_kind_refl : (kind : AliasKind) → same_kind kind kind ≡ true
same_kind_refl git_remote = refl
same_kind_refl workspace_path = refl

-- The alias is the project's, the projects are as they were, and so is every alias of another kind.
record Ensured (n : ℕ) (kind : AliasKind) (value : Option Text) (s t : Db) : Type 0 where
  projects : t.projects ≡ s.projects
  agrees : AliasAgrees n t kind value
  others :
      (kind' : AliasKind) (value' : Option Text)
      → same_kind kind kind' ≡ false
      → alias_lookup kind' value' t ≡ alias_lookup kind' value' s

add_alias-Ensured :
    (n : ℕ) (kind : AliasKind) (value : Text) (s : Db) {t : Db}
    → add_alias n kind value s ≡ ok (tt, t)
    → Ensured n kind (some value) s t
unfolding add_alias
add_alias-Ensured n kind value s {t} h =
    let after : t ≡ record s {
      project_aliases =
          record { project_id = n; kind = kind; value_norm = value } ∷ s.project_aliases;
    } =
      ground arith in
    record {
      projects = rw after refl;
      agrees = rw (after, same_kind_refl kind, text_eq_refl value) refl;
      others = λ kind' value' other. rw after (apart kind' value' other);
    }
  where
    apart :
        (kind' : AliasKind) (value' : Option Text)
        → same_kind kind kind' ≡ false
        → alias_lookup kind' value' (record s {
          project_aliases =
              record { project_id = n; kind = kind; value_norm = value } ∷ s.project_aliases;
        })
          ≡ alias_lookup kind' value' s
    apart kind' none other = refl
    apart kind' (some v) other = rw other refl

ensure_alias-Ensured :
    (n : ℕ) (kind : AliasKind) (value : Option Text) (s : Db) {t : Db}
    → AllFound (λ m. m ≡ n) (alias_lookup kind value s)
    → ensure_alias n kind value s ≡ ok (tt, t)
    → Ensured n kind value s t
unfolding ensure_alias resolve_alias add_missing ◌>>=◌
ensure_alias-Ensured n kind none s {t} only h =
    let same : t ≡ s = ground arith in
    record { projects = rw same refl; agrees = tt; others = λ k v e. rw same refl }
ensure_alias-Ensured n kind (some value) s {t} only h = go (alias_owner kind value s) refl only h
  where
    go :
        (o : Option ℕ)
        → alias_owner kind value s ≡ o
        → AllFound (λ m. m ≡ n) o
        → add_missing n kind value o s ≡ ok (tt, t)
        → Ensured n kind (some value) s t
    go none e found k = add_alias-Ensured n kind value s k
    go (some m) e found k =
        let same : t ≡ s = ground arith in
        record {
          projects = rw same refl;
          agrees = rw same (e ∙ ap (λ x. some x) found);
          others = λ k' v x. rw same refl;
        }

-- `_ensure_aliases` on aliases that no other project owns
pub ensure_aliases-agree :
    (n : ℕ) (remote path : Option Text) (s : Db) {t : Db}
    → AllFound (λ m. m ≡ n) (alias_lookup git_remote remote s)
    → AllFound (λ m. m ≡ n) (alias_lookup workspace_path path s)
    → ensure_aliases n remote path s ≡ ok (tt, t)
    → (t.projects ≡ s.projects)
      × AliasAgrees n t git_remote remote
      × AliasAgrees n t workspace_path path
unfolding ensure_aliases
ensure_aliases-agree n remote path s {t} only_remote only_path h =
    let (_, u, h1, h2) = bind-inv (ensure_alias n git_remote remote) _ s h in
    let first_one = ensure_alias-Ensured n git_remote remote s only_remote h1 in
    let second =
      ensure_alias-Ensured n workspace_path path u
        (subst (AllFound (λ m. m ≡ n)) (sym (first_one.others workspace_path path refl)) only_path)
        h2 in
    (second.projects ∙ first_one.projects, keep remote first_one second, second.agrees)
  where
    keep :
        {u : Db} (value : Option Text)
        → Ensured n git_remote value s u
        → Ensured n workspace_path path u t
        → AliasAgrees n t git_remote value
    keep none a b = tt
    keep (some v) a b = b.others git_remote (some v) refl ∙ a.agrees
