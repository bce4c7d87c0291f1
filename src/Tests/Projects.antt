-- ===== src/Tests/Projects.antt =====
-- A project is looked up by its slug and a new git remote.
use mcp_shared_memory_hub.Prelude.{◌≡◌, refl, Option, false, none, some, [], ◌∷◌, Text, text_eq}
use mcp_shared_memory_hub.Domain.Errors.{ok}
use mcp_shared_memory_hub.Domain.Unicode.{strip, lstrip_by, rstrip_by}
use mcp_shared_memory_hub.Domain.Validation.{slug_re, validate_slug}
use mcp_shared_memory_hub.Domain.Normalize.{normalize_workspace_path}
use mcp_shared_memory_hub.Domain.GitRemote.{
  normalize_git_remote, span, drop_user, drop_scheme, scp_match, url_parts,
}
use mcp_shared_memory_hub.Store.Tables.{AliasKind, Db}
use mcp_shared_memory_hub.Store.Tx.{lift, ◌>>=◌}
use mcp_shared_memory_hub.Store.Projects.{get_by_id, get_by_slug, resolve_alias, add_alias}
use mcp_shared_memory_hub.Services.Projects.{
  ProjectRef, Hints, truthy, normalized, checked_slug, known_project, by_id, known_slug, by_slug,
  by_alias, add_missing, ensure_alias, ensure_aliases, as_ref, resolved_ref, decide, resolve,
  use_project,
}
use mcp_shared_memory_hub.Services.Projects.Resolution.{Agrees}
use mcp_shared_memory_hub.Services.Projects.Meaning.{use_project-Agrees}
use mcp_shared_memory_hub.Services.Projects.Creation.{use_project-never_creates}
use mcp_shared_memory_hub.Tests.Data.{plain, first_note, small_db}

-- git@h:a/b.git
abbrev remote : Text
remote =
    b'g' ∷ b'i' ∷ b't' ∷ b'@' ∷ b'h' ∷ b':' ∷ b'a' ∷ b'/' ∷ b'b' ∷ b'.' ∷ b'g' ∷ b'i' ∷ b't' ∷ []

-- https://h/a/b
abbrev web_remote : Text
web_remote =
    b'h' ∷ b't' ∷ b't' ∷ b'p' ∷ b's' ∷ b':' ∷ b'/' ∷ b'/' ∷ b'h' ∷ b'/' ∷ b'a' ∷ b'/' ∷ b'b' ∷ []

-- h/a/b
abbrev short_remote : Text
short_remote = b'h' ∷ b'/' ∷ b'a' ∷ b'/' ∷ b'b' ∷ []

same_remote : normalize_git_remote plain remote ≡ short_remote
unfolding normalize_git_remote strip lstrip_by rstrip_by span drop_user drop_scheme scp_match
    url_parts
same_remote = refl

same_web_remote : normalize_git_remote plain web_remote ≡ short_remote
unfolding normalize_git_remote strip lstrip_by rstrip_by span drop_user drop_scheme scp_match
    url_parts
same_web_remote = refl

abbrev two_hints : Hints
two_hints = record {
  project_id = none;
  slug = some first_note;
  git_remote = some remote;
  workspace_path = none;
  display_name = none;
  create = false;
}

abbrev found_ref : ProjectRef
found_ref = record { id = 1; slug = first_note; display_name = first_note; created = false }

abbrev aliased_db : Db
aliased_db = record small_db {
  project_aliases =
      (record { project_id = 1; kind = AliasKind.git_remote; value_norm = short_remote }) ∷ [];
}

finds : use_project plain 9 two_hints small_db ≡ ok (found_ref, aliased_db)
unfolding text_eq normalize_git_remote strip lstrip_by rstrip_by span drop_user drop_scheme
    scp_match url_parts slug_re validate_slug lift ◌>>=◌ get_by_id get_by_slug resolve_alias
    add_alias known_project by_id known_slug by_slug by_alias add_missing ensure_alias
    ensure_aliases as_ref resolved_ref decide resolve use_project
finds = refl

use_project-Agrees_example :
    (slug : Option Text) × (checked_slug plain (truthy two_hints.slug) ≡ ok slug)
    × Agrees two_hints slug
        (normalized (normalize_git_remote plain) two_hints.git_remote)
        (normalized (normalize_workspace_path plain) two_hints.workspace_path)
        found_ref.id
        aliased_db
use_project-Agrees_example =
    use_project-Agrees plain 9 two_hints small_db aliased_db found_ref finds

use_project-never_creates_example : aliased_db.projects ≡ small_db.projects
use_project-never_creates_example =
    use_project-never_creates plain 9 two_hints small_db aliased_db found_ref refl finds
