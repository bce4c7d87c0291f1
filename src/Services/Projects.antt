-- ===== src/Services/Projects.antt =====
-- src/memhub/services/projects.py: which project a client means.
pub mod Agreement
pub mod Aliases
pub mod Resolution
pub mod Meaning
pub mod Keeps
pub mod Creation
use mcp_shared_memory_hub.Prelude.{
  ℕ, Bool, true, false, not, ◌&&◌, ◌||◌, Option, none, some, List, [], ◌∷◌, ◌++◌, ◌==◌, Text, any,
  is_some, if◌then◌else◌,
}
use mcp_shared_memory_hub.Domain.Errors.{
  Result, ok, err, validation_failed, project_not_found, ambiguous_project, project_exists,
  integrity_error,
}
use mcp_shared_memory_hub.Domain.Unicode.{Platform}
use mcp_shared_memory_hub.Domain.Validation.{validate_slug}
use mcp_shared_memory_hub.Domain.Normalize.{normalize_workspace_path}
use mcp_shared_memory_hub.Domain.GitRemote.{normalize_git_remote}
use mcp_shared_memory_hub.Store.Tables.{Project, AliasKind}
use mcp_shared_memory_hub.Store.Tx.{Tx, pure, raise, lift, ◌>>=◌, ◌>>◌}
use mcp_shared_memory_hub.Store.Projects.{
  get_by_id, get_by_slug, resolve_alias, create_project, add_alias,
}

pub record ProjectRef : Type 0 where
  pub id : ℕ
  pub slug : Text
  pub display_name : Text
  pub created : Bool

-- the arguments of `use_project`
pub record Hints : Type 0 where
  pub project_id : Option ℕ
  pub slug : Option Text
  pub git_remote : Option Text
  pub workspace_path : Option Text
  pub display_name : Option Text
  pub create : Bool

-- None and the empty string are falsy.
abbrev pub truthy : Option Text → Option Text
truthy none = none
truthy (some []) = none
truthy (some (c ∷ s)) = some (c ∷ s)

-- f(value) if value else None
abbrev pub normalized : (Text → Text) → Option Text → Option Text
normalized f none = none
normalized f (some []) = none
normalized f (some (c ∷ s)) = some (f (c ∷ s))

abbrev pub checked_slug : Platform → Option Text → Result (Option Text)
checked_slug py none = ok none
checked_slug py (some slug) = elim (validate_slug py slug) [ ok s ↦ ok (some s) | err e ↦ err e ]

-- `note`: the ids that were found, each of them once, in the order of the first hint for it
abbrev pub note : Option ℕ → List ℕ → List ℕ
note none candidates = candidates
note (some n) candidates = if any (λ m. m == n) candidates then candidates else candidates ++ n ∷ []

unfoldable pub known_project : Option Project → Tx (Option ℕ)
known_project none = raise project_not_found
known_project (some p) = pure (some p.id)

unfoldable pub by_id : Option ℕ → Tx (Option ℕ)
by_id none = pure none
by_id (some project_id) = do found ← get_by_id project_id; known_project found

unfoldable pub known_slug : Bool → Option Project → Tx (Option ℕ)
known_slug create (some p) = pure (some p.id)
known_slug true none = pure none
known_slug false none = raise project_not_found

unfoldable pub by_slug : Bool → Option Text → Tx (Option ℕ)
by_slug create none = pure none
by_slug create (some slug) = do found ← get_by_slug slug; known_slug create found

unfoldable pub by_alias : AliasKind → Option Text → Tx (Option ℕ)
by_alias kind none = pure none
by_alias kind (some value) = resolve_alias kind value

unfoldable pub add_missing : ℕ → AliasKind → Text → Option ℕ → Tx (Unit {0})
add_missing project_id kind value (some owner) = pure tt
add_missing project_id kind value none = add_alias project_id kind value

unfoldable pub ensure_alias : ℕ → AliasKind → Option Text → Tx (Unit {0})
ensure_alias project_id kind none = pure tt
ensure_alias project_id kind (some value) = do
  owner ← resolve_alias kind value
  add_missing project_id kind value owner

-- `_ensure_aliases`
unfoldable pub ensure_aliases : ℕ → Option Text → Option Text → Tx (Unit {0})
ensure_aliases project_id remote path = do
  ensure_alias project_id AliasKind.git_remote remote
  ensure_alias project_id AliasKind.workspace_path path

-- except IntegrityError: raise ProjectAlreadyExistsError
abbrev pub conflict_as_exists : {A : Type 0} → Result A → Result A
conflict_as_exists (ok a) = ok a
conflict_as_exists (err integrity_error) = err project_exists
conflict_as_exists (err e) = err e

abbrev pub or_text : Option Text → Text → Text
or_text none default = default
or_text (some text) default = text

unfoldable pub create_ref : ℕ → Text → Option Text → Option Text → Option Text → Tx ProjectRef
create_ref new_id slug display_name remote path = do
  made ← create_project new_id slug (or_text (truthy display_name) slug)
  ensure_aliases made.id remote path
  pure (record { id = made.id; slug = made.slug; display_name = made.display_name; created = true })

-- the attempt to create the project
unfoldable pub create_or_exists : ℕ → Text → Option Text → Option Text → Option Text → Tx ProjectRef
create_or_exists new_id slug display_name remote path db =
    conflict_as_exists (create_ref new_id slug display_name remote path db)

unfoldable pub create_named :
    ℕ → Bool → Option Text → Option Text → Option Text → Option Text → Tx ProjectRef
create_named new_id false slug display_name remote path = raise project_not_found
create_named new_id true none display_name remote path = raise validation_failed
create_named new_id true (some slug) display_name remote path =
    create_or_exists new_id slug display_name remote path

unfoldable pub as_ref : Option Text → Option Text → Option Project → Tx ProjectRef
as_ref remote path none = raise project_not_found
as_ref remote path (some p) = do
  ensure_aliases p.id remote path
  pure (record { id = p.id; slug = p.slug; display_name = p.display_name; created = false })

unfoldable pub resolved_ref : ℕ → Option Text → Option Text → Tx ProjectRef
resolved_ref project_id remote path = do found ← get_by_id project_id; as_ref remote path found

-- what the candidates decide; `unknown_slug` is a slug that was given and not found
unfoldable pub decide :
    ℕ → Hints → Option Text → Bool → Option Text → Option Text → List ℕ → Tx ProjectRef
decide new_id hints slug unknown_slug remote path [] =
    create_named new_id hints.create slug hints.display_name remote path
decide new_id hints slug unknown_slug remote path (n ∷ []) =
    if unknown_slug then raise ambiguous_project else resolved_ref n remote path
decide new_id hints slug unknown_slug remote path (n ∷ m ∷ candidates) = raise ambiguous_project

abbrev pub any_hint : Hints → Bool
any_hint hints =
    is_some hints.project_id
    || is_some (truthy hints.slug)
    || is_some (truthy hints.git_remote)
    || is_some (truthy hints.workspace_path)

-- the lookups, and what they decide
unfoldable pub resolve : ℕ → Hints → Option Text → Option Text → Option Text → Tx ProjectRef
resolve new_id hints slug remote path = do
  a ← by_id hints.project_id
  b ← by_slug hints.create slug
  c ← by_alias AliasKind.git_remote remote
  d ← by_alias AliasKind.workspace_path path
  decide new_id hints slug (is_some slug && not (is_some b)) remote path
      (note d (note c (note b (note a []))))

unfoldable pub use_project : Platform → ℕ → Hints → Tx ProjectRef
use_project py new_id hints = if not (any_hint hints) then raise validation_failed else do
  slug ← lift (checked_slug py (truthy hints.slug))
  resolve new_id hints slug (normalized (normalize_git_remote py) hints.git_remote)
      (normalized (normalize_workspace_path py) hints.workspace_path)
