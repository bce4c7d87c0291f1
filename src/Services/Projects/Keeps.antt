-- ===== src/Services/Projects/Keeps.antt =====
-- What `use_project` keeps: a relation that the lookups and the writes of aliases and projects keep.
use mcp_shared_memory_hub.Prelude.{
  ℕ, refl, ◌∙◌, Bool, true, false, Option, none, some, List, [], ◌∷◌, arith, Text,
}
use mcp_shared_memory_hub.Domain.Errors.{project_not_found, ambiguous_project, validation_failed}
use mcp_shared_memory_hub.Domain.Unicode.{Platform}
use mcp_shared_memory_hub.Store.Tables.{Project, AliasKind, Db}
use mcp_shared_memory_hub.Store.Guarantee.{
  IsStep, Guarantees, Guarantees-pure, Guarantees-raise, Guarantees-gets, guarantee_rules,
}
use mcp_shared_memory_hub.Store.Projects.{
  get_by_id, get_by_slug, resolve_alias, add_alias, insert_project, create_project,
}
use mcp_shared_memory_hub.Services.Steps.{SameTruth}
use mcp_shared_memory_hub.Services.Projects.{
  Hints, known_project, by_id, known_slug, by_slug, by_alias, add_missing, ensure_alias,
  ensure_aliases, create_ref, create_or_exists, create_named, as_ref, resolved_ref, decide, resolve,
  use_project,
}
use mcp_shared_memory_hub.Services.Projects.Resolution.{conflict-inv}

module _ {R : Db → Db → Type 0} (step : IsStep R)
    (adds : (project_id : ℕ) (kind : AliasKind) (value : Text)
      → Guarantees R (add_alias project_id kind value)) where
  known_project-keeps : (o : Option Project) → Guarantees R (known_project o)
  unfolding known_project
  known_project-keeps none = Guarantees-raise project_not_found
  known_project-keeps (some p) = Guarantees-pure step _

  pub by_id-keeps : (hint : Option ℕ) → Guarantees R (by_id hint)
  unfolding by_id get_by_id
  by_id-keeps none = Guarantees-pure step none
  by_id-keeps (some n) = search (guarantee_rules, step, known_project-keeps)

  known_slug-keeps : (create : Bool) (o : Option Project) → Guarantees R (known_slug create o)
  unfolding known_slug
  known_slug-keeps create (some p) = Guarantees-pure step _
  known_slug-keeps true none = Guarantees-pure step none
  known_slug-keeps false none = Guarantees-raise project_not_found

  pub by_slug-keeps : (create : Bool) (slug : Option Text) → Guarantees R (by_slug create slug)
  unfolding by_slug get_by_slug
  by_slug-keeps create none = Guarantees-pure step none
  by_slug-keeps create (some slug) = search (guarantee_rules, step, known_slug-keeps)

  pub by_alias-keeps : (kind : AliasKind) (value : Option Text) → Guarantees R (by_alias kind value)
  unfolding by_alias resolve_alias
  by_alias-keeps kind none = Guarantees-pure step none
  by_alias-keeps kind (some value) = Guarantees-gets step _

  add_missing-keeps :
      (project_id : ℕ) (kind : AliasKind) (value : Text) (o : Option ℕ)
      → Guarantees R (add_missing project_id kind value o)
  unfolding add_missing
  add_missing-keeps project_id kind value (some owner) = Guarantees-pure step tt
  add_missing-keeps project_id kind value none = adds project_id kind value

  pub ensure_alias-keeps :
      (project_id : ℕ) (kind : AliasKind) (value : Option Text)
      → Guarantees R (ensure_alias project_id kind value)
  unfolding ensure_alias resolve_alias
  ensure_alias-keeps project_id kind none = Guarantees-pure step tt
  ensure_alias-keeps project_id kind (some value) =
      search (guarantee_rules, step, add_missing-keeps)

  pub as_ref-keeps :
      (remote path : Option Text) (o : Option Project) → Guarantees R (as_ref remote path o)
  unfolding as_ref ensure_aliases
  as_ref-keeps remote path none = Guarantees-raise project_not_found
  as_ref-keeps remote path (some p) = search (guarantee_rules, step, ensure_alias-keeps) depth 8

  module _ (inserts : (row : Project) → Guarantees R (insert_project row)) where
    create_ref-keeps :
        (new_id : ℕ) (slug : Text) (display_name remote path : Option Text)
        → Guarantees R (create_ref new_id slug display_name remote path)
    unfolding create_ref create_project ensure_aliases
    create_ref-keeps new_id slug display_name remote path =
        search (guarantee_rules, step, inserts, ensure_alias-keeps) depth 10

    create_named-keeps :
        (new_id : ℕ) (create : Bool) (slug display_name remote path : Option Text)
        → Guarantees R (create_named new_id create slug display_name remote path)
    unfolding create_named create_or_exists
    create_named-keeps new_id false slug display_name remote path =
        Guarantees-raise project_not_found
    create_named-keeps new_id true none display_name remote path =
        Guarantees-raise validation_failed
    create_named-keeps new_id true (some slug) display_name remote path = record {
      at = λ s a t h.
          (create_ref-keeps new_id slug display_name remote path).at s a t
            (conflict-inv (create_ref new_id slug display_name remote path s) h);
    }

    decide-keeps :
        (new_id : ℕ) (hints : Hints) (slug : Option Text) (unknown : Bool)
        (remote path : Option Text) (ns : List ℕ)
        → Guarantees R (decide new_id hints slug unknown remote path ns)
    unfolding decide resolved_ref get_by_id
    decide-keeps new_id hints slug unknown remote path [] =
        create_named-keeps new_id hints.create slug hints.display_name remote path
    decide-keeps new_id hints slug unknown remote path (n ∷ []) =
        search (guarantee_rules, step, as_ref-keeps) depth 8
    decide-keeps new_id hints slug unknown remote path (n ∷ m ∷ ns) =
        Guarantees-raise ambiguous_project

    pub use_project-keeps :
        (py : Platform) (new_id : ℕ) (hints : Hints) → Guarantees R (use_project py new_id hints)
    unfolding use_project resolve
    use_project-keeps py new_id hints =
        search (guarantee_rules, step, by_id-keeps, by_slug-keeps, by_alias-keeps, decide-keeps)
          depth 14

SameTruth-step : IsStep SameTruth
SameTruth-step = record {
  stay = λ s. record { memories = refl; memory_revisions = refl; memory_dedup_keys = refl };
  trans = λ s t u h k. record {
    memories = k.memories ∙ h.memories;
    memory_revisions = k.memory_revisions ∙ h.memory_revisions;
    memory_dedup_keys = k.memory_dedup_keys ∙ h.memory_dedup_keys;
  };
}

add_alias-SameTruth :
    (project_id : ℕ) (kind : AliasKind) (value : Text)
    → Guarantees SameTruth (add_alias project_id kind value)
unfolding add_alias
add_alias-SameTruth project_id kind value = record { at = λ s a t h. ground arith }

insert_project-SameTruth : (row : Project) → Guarantees SameTruth (insert_project row)
unfolding insert_project
insert_project-SameTruth row = record { at = λ s a t h. ground arith }

pub use_project-SameTruth :
    (py : Platform) (new_id : ℕ) (hints : Hints)
    → Guarantees SameTruth (use_project py new_id hints)
use_project-SameTruth =
    use_project-keeps SameTruth-step add_alias-SameTruth insert_project-SameTruth
