-- ===== src/Store/Projects.antt =====
-- src/memhub/persistence/repositories/projects.py: projects and their aliases.
use mcp_shared_memory_hub.Prelude.{
  ℕ, Bool, true, false, not, ◌&&◌, Option, List, ◌∷◌, map, ◌==◌, Text, text_eq, any, first, take,
  sort_by, select_where, if◌then◌else◌,
}
use mcp_shared_memory_hub.Domain.Errors.{err, integrity_error}
use mcp_shared_memory_hub.Domain.Validation.{slug_re, drop_final_newline}
use mcp_shared_memory_hub.Store.Tables.{
  Project, AliasKind, git_remote, workspace_path, ProjectAlias, Db,
}
use mcp_shared_memory_hub.Store.Tx.{Tx, done, gets}

unfoldable pub get_by_id : ℕ → Tx (Option Project)
get_by_id project_id = gets λ db. first (select_where (λ p. p.id == project_id) db.projects)

unfoldable pub get_by_slug : Text → Tx (Option Project)
get_by_slug slug = gets λ db. first (select_where (λ p. text_eq p.slug slug) db.projects)

abbrev pub same_kind : AliasKind → AliasKind → Bool
same_kind git_remote git_remote = true
same_kind workspace_path workspace_path = true
same_kind _ _ = false

abbrev pub alias_matches : AliasKind → Text → ProjectAlias → Bool
alias_matches kind value a = same_kind a.kind kind && text_eq a.value_norm value

abbrev pub alias_owner : AliasKind → Text → Db → Option ℕ
alias_owner kind value db =
    first (map (λ a. a.project_id) (select_where (alias_matches kind value) db.project_aliases))

unfoldable pub resolve_alias : AliasKind → Text → Tx (Option ℕ)
resolve_alias kind value = gets (alias_owner kind value)

-- PRIMARY KEY (id), UNIQUE (slug) and the CHECK on its format, whose `$` is the end of the text
unfoldable pub insert_project : Project → Tx Project
insert_project row db =
    if not (any (λ p. p.id == row.id) db.projects)
      && not (any (λ p. text_eq p.slug row.slug) db.projects)
      && slug_re row.slug
      && text_eq (drop_final_newline row.slug) row.slug
    then done row (record db { projects = row ∷ db.projects })
    else err integrity_error

-- `new_id` is what gen_random_uuid() returned
unfoldable pub create_project : ℕ → Text → Text → Tx Project
create_project new_id slug display_name =
    insert_project (record { id = new_id; slug = slug; display_name = display_name })

-- UNIQUE (kind, value_norm) and the foreign key
unfoldable pub add_alias : ℕ → AliasKind → Text → Tx (Unit {0})
add_alias project_id kind value db =
    if not (any (alias_matches kind value) db.project_aliases)
      && any (λ p. p.id == project_id) db.projects
    then done tt (record db {
      project_aliases =
          record { project_id = project_id; kind = kind; value_norm = value } ∷ db.project_aliases;
    })
    else err integrity_error

-- `before` is the order of the database on slugs
unfoldable pub list_all : (Text → Text → Bool) → ℕ → Tx (List Project)
list_all before limit = gets λ db. take limit (sort_by (λ p q. before p.slug q.slug) db.projects)
