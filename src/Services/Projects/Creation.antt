-- ===== src/Services/Projects/Creation.antt =====
-- src/memhub/services/projects.py: the creation of projects.
use mcp_shared_memory_hub.Prelude.{
  ℕ, ◌≡◌, refl, sym, subst, ◌∙◌, Bool, false, Option, List, [], ◌∷◌, arith, Text,
}
use mcp_shared_memory_hub.Domain.Errors.{ok, project_not_found, ambiguous_project}
use mcp_shared_memory_hub.Domain.Unicode.{Platform}
use mcp_shared_memory_hub.Store.Tables.{AliasKind, Db}
use mcp_shared_memory_hub.Store.Guarantee.{IsStep, Guarantees, Guarantees-raise, guarantee_rules}
use mcp_shared_memory_hub.Store.Projects.{get_by_id, add_alias}
use mcp_shared_memory_hub.Services.Projects.{
  ProjectRef, Hints, create_named, resolved_ref, decide, resolve, use_project,
}
use mcp_shared_memory_hub.Services.Projects.Keeps.{
  by_id-keeps, by_slug-keeps, by_alias-keeps, as_ref-keeps,
}

abbrev SameProjects : Db → Db → Type 0
SameProjects s t = t.projects ≡ s.projects

SameProjects-step : IsStep SameProjects
SameProjects-step = record { stay = λ s. refl; trans = λ s t u h k. k ∙ h }

add_alias-keeps :
    (project_id : ℕ) (kind : AliasKind) (value : Text)
    → Guarantees SameProjects (add_alias project_id kind value)
unfolding add_alias
add_alias-keeps project_id kind value = record { at = λ s a t h. ground arith }

create_named-keeps :
    (new_id : ℕ) (slug display_name remote path : Option Text)
    → Guarantees SameProjects (create_named new_id false slug display_name remote path)
unfolding create_named
create_named-keeps new_id slug display_name remote path = Guarantees-raise project_not_found

decide-keeps :
    (new_id : ℕ) (hints : Hints) (slug : Option Text) (unknown : Bool) (remote path : Option Text)
    (ns : List ℕ)
    → hints.create ≡ false
    → Guarantees SameProjects (decide new_id hints slug unknown remote path ns)
unfolding decide resolved_ref get_by_id
decide-keeps new_id hints slug unknown remote path [] never =
    subst (λ c. Guarantees SameProjects (create_named new_id c slug hints.display_name remote path))
      (sym never) (create_named-keeps new_id slug hints.display_name remote path)
decide-keeps new_id hints slug unknown remote path (n ∷ []) never =
    search (guarantee_rules, SameProjects-step, as_ref-keeps SameProjects-step add_alias-keeps)
      depth 8
decide-keeps new_id hints slug unknown remote path (n ∷ m ∷ ns) never =
    Guarantees-raise ambiguous_project

-- Without `create`, a `use_project` that answers leaves the table of projects as it was.
pub use_project-never_creates :
    (py : Platform) (new_id : ℕ) (hints : Hints) (s t : Db) (ref : ProjectRef)
    → hints.create ≡ false
    → use_project py new_id hints s ≡ ok (ref, t)
    → t.projects ≡ s.projects
unfolding use_project resolve
use_project-never_creates py new_id hints s t ref never h = kept.at s ref t h
  where
    kept : Guarantees SameProjects (use_project py new_id hints)
    kept =
        search
          (
            guarantee_rules,
            SameProjects-step,
            by_id-keeps SameProjects-step add_alias-keeps,
            by_slug-keeps SameProjects-step add_alias-keeps,
            by_alias-keeps SameProjects-step add_alias-keeps,
            decide-keeps,
            never,
          )
          depth 14
