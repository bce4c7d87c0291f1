-- ===== src/Context/Render.antt =====
-- src/memhub/context/render.py: the brief, as lines and as one text.
pub mod Order
use mcp_shared_memory_hub.Prelude.{
  Option, none, some, List, [], ◌∷◌, ◌++◌, Text, codes, is_empty, select_where, if◌then◌else◌,
}
use mcp_shared_memory_hub.Domain.Enums.{
  MemoryType, decision, constraint, fact, task, AuthorKind, agent, human_confirmed, import_,
  type_eq,
}
use mcp_shared_memory_hub.Domain.Models.{MemoryView}
use mcp_shared_memory_hub.Context.Builder.{Candidate}

abbrev pub headings : List (MemoryType × Text)
headings =
    (constraint, codes "Constraints - these must not be violated")
    ∷ (decision, codes "Decisions - what was chosen, and what it rules out")
    ∷ (fact, codes "Facts")
    ∷ (task, codes "Currently in progress")
    ∷ []

-- separator.join(_)
unfoldable pub join_by : Text → List Text → Text
join_by separator [] = []
join_by separator (x ∷ []) = x
join_by separator (x ∷ y ∷ xs) = x ++ (separator ++ join_by separator (y ∷ xs))

abbrev pub confirmed_mark : AuthorKind → List Text
confirmed_mark human_confirmed = codes "confirmed by the user" ∷ []
confirmed_mark agent = []
confirmed_mark import_ = []

-- None and the empty text are falsy
abbrev pub source_mark : Option Text → List Text
source_mark none = []
source_mark (some []) = []
source_mark (some (c ∷ source)) = (codes "from " ++ c ∷ source) ∷ []

abbrev pub marks : MemoryView → List Text
marks memory =
    confirmed_mark memory.author_kind
    ++ (source_mark memory.source ++ (codes "recorded by " ++ memory.author_client) ∷ [])

abbrev pub content_line : MemoryView → Text
content_line memory = codes "- " ++ memory.content

abbrev pub marks_line : MemoryView → Text
marks_line memory = codes "  _" ++ (join_by (codes "; ") (marks memory) ++ codes "_")

abbrev pub nothing_recorded : Text → Text
nothing_recorded project_slug =
    codes "No memories recorded for "
    ++ (project_slug
        ++ (codes " yet."
            ++ (0x0a
                ∷ 0x0a
                ∷ codes
                    "This is not an error - the project simply has nothing stored. Record decisions and constraints as they are established.")))

abbrev pub footer : List Text
footer =
    codes "---"
    ∷ []
    ∷ codes
        "Superseded, deleted and expired memories are excluded. What is above is what the project currently holds to be true; use memory_history to see what a memory replaced or why it changed."
    ∷ []

module _ {F : Type 0} where
  abbrev pub group : MemoryType → List (Candidate F) → List (Candidate F)
  group memory_type selected = select_where (λ c. type_eq c.memory.type memory_type) selected

  abbrev pub item_lines : List (Candidate F) → List Text
  item_lines [] = []
  item_lines (c ∷ rest) = content_line c.memory ∷ marks_line c.memory ∷ item_lines rest

  abbrev pub group_lines : Text → List (Candidate F) → List Text
  group_lines heading [] = []
  group_lines heading (c ∷ rest) =
      ((codes "## " ++ heading) ∷ [] ∷ item_lines (c ∷ rest)) ++ [] ∷ []

  abbrev pub all_groups : List (MemoryType × Text) → List (Candidate F) → List Text
  all_groups [] selected = []
  all_groups ((memory_type, heading) ∷ rest) selected =
      group_lines heading (group memory_type selected) ++ all_groups rest selected

  unfoldable pub brief_lines : List (Candidate F) → Text → List Text
  brief_lines selected project_slug =
      ((codes "# Project memory: " ++ project_slug) ∷ [] ∷ all_groups headings selected) ++ footer

  unfoldable pub render_brief : List (Candidate F) → Text → Text
  unfolding brief_lines join_by
  render_brief selected project_slug =
      if is_empty selected
      then nothing_recorded project_slug
      else join_by (0x0a ∷ []) (brief_lines selected project_slug)
