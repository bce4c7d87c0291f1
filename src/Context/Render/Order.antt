-- ===== src/Context/Render/Order.antt =====
-- src/memhub/context/render.py: the lines of the brief, and the order of the selection.
use mcp_shared_memory_hub.Prelude.{
  ℕ, ◌<◌, ◌≤◌, ◌≡◌, refl, sym, ap, ◌∙◌, inl, inr, Bool, true, false, ◌&&◌, ◌||◌, List, [], ◌∷◌,
  ◌++◌, map, arith, ltb, ◌==◌, Text, codes, All, select_where, select-append, sort_by,
  insert_sorted, All-insert_sorted, Bool-cases,
}
use mathlib.Core.List.{append-nil, map-append}
use mcp_shared_memory_hub.Domain.Enums.{MemoryType, decision, constraint, fact, task, type_eq}
use mcp_shared_memory_hub.Domain.Unicode.{Platform}
use mcp_shared_memory_hub.Context.Floats.{Floats}
use mcp_shared_memory_hub.Context.Builder.{Candidate, type_order, reads_first, stable_order, select}
use mcp_shared_memory_hub.Context.Render.{
  headings, content_line, footer, group, item_lines, group_lines, all_groups, brief_lines,
}
use mcp_shared_memory_hub.Services.Search.{starts_with}

-- the lines that list a memory
abbrev pub bullets : List Text → List Text
bullets lines = select_where (starts_with (codes "- ")) lines

abbrev order_of : {F : Type 0} → Candidate F → ℕ
order_of c = type_order c.memory.type

-- no candidate reads before one to its left, by type
abbrev IsByType : {F : Type 0} → List (Candidate F) → Type 0
IsByType [] = Unit
IsByType (c ∷ cs) = All (λ d. order_of c ≤ order_of d) cs × IsByType cs

module _ (fl : Floats) (py : Platform) where
  insert-IsByType :
      (c : Candidate fl.F) (cs : List (Candidate fl.F))
      → IsByType cs
      → IsByType (insert_sorted (reads_first fl py) c cs)
  unfolding insert_sorted
  insert-IsByType c [] h = (tt, tt)
  insert-IsByType c (d ∷ cs) h = elim (Bool-cases (reads_first fl py d c)) [
    | inl e ↦ rw e (
      All-insert_sorted (λ x. order_of d ≤ order_of x) (reads_first fl py) c cs
          (before_le (order_of d) (order_of c) _ e) h.0,
      insert-IsByType c cs h.1,
    )
    | inr e ↦
        let le = not_before_le (order_of d) (order_of c) _ e in
        rw e ((le, weaker (order_of c) (order_of d) cs le h.0), h)
  ]
    where
      before_le : (m n : ℕ) (b : Bool) → (ltb m n || (m == n && b)) ≡ true → m ≤ n
      before_le m n b h = ground arith

      not_before_le : (m n : ℕ) (b : Bool) → (ltb m n || (m == n && b)) ≡ false → n ≤ m
      not_before_le m n b h = ground arith

      weaker :
          (m n : ℕ) (cs : List (Candidate fl.F))
          → m ≤ n
          → All (λ x. n ≤ order_of x) cs
          → All (λ x. m ≤ order_of x) cs
      weaker m n [] le h = tt
      weaker m n (x ∷ cs) le h = (omega (arith, h.0), weaker m n cs le h.1)

  sort-IsByType : (cs : List (Candidate fl.F)) → IsByType (sort_by (reads_first fl py) cs)
  unfolding sort_by
  sort-IsByType [] = tt
  sort-IsByType (c ∷ cs) = insert-IsByType c (sort_by (reads_first fl py) cs) (sort-IsByType cs)

apart : (t u : MemoryType) → type_order t < type_order u → type_eq u t ≡ false
apart constraint constraint h = absurd (omega arith)
apart decision constraint h = absurd (omega arith)
apart decision decision h = absurd (omega arith)
apart fact constraint h = absurd (omega arith)
apart fact decision h = absurd (omega arith)
apart fact fact h = absurd (omega arith)
apart task constraint h = absurd (omega arith)
apart task decision h = absurd (omega arith)
apart task fact h = absurd (omega arith)
apart task task h = absurd (omega arith)
apart constraint decision h = refl
apart constraint fact h = refl
apart constraint task h = refl
apart decision fact h = refl
apart decision task h = refl
apart fact task h = refl

bullets-append : (xs ys : List Text) → bullets (xs ++ ys) ≡ bullets xs ++ bullets ys
bullets-append = select-append (starts_with (codes "- "))

-- the four groups of a list that is ordered by type are the list
module _ {F : Type 0} where
  group-none :
      (t : MemoryType) (cs : List (Candidate F))
      → All (λ c. type_eq c.memory.type t ≡ false) cs
      → group t cs ≡ []
  group-none t [] h = refl
  group-none t (c ∷ cs) h = rw h.0 (group-none t cs h.1)

  abbrev listed : List (MemoryType × Text) → List (Candidate F) → List (Candidate F)
  listed [] cs = []
  listed ((t, heading) ∷ rest) cs = group t cs ++ listed rest cs

  abbrev grouped : List (Candidate F) → List (Candidate F)
  grouped cs = listed headings cs

  -- nothing of an earlier type stands to the right
  above :
      (t : MemoryType) (n : ℕ) (cs : List (Candidate F))
      → type_order t < n
      → All (λ c. n ≤ order_of c) cs
      → group t cs ≡ []
  above t n cs lt h = group-none t cs (go cs h)
    where
      other : (u : MemoryType) → type_order t < type_order u → type_eq u t ≡ false
      other u h = apart t u h

      go :
          (cs : List (Candidate F))
          → All (λ c. n ≤ order_of c) cs
          → All (λ c. type_eq c.memory.type t ≡ false) cs
      go [] h = tt
      go (c ∷ cs) h = (other c.memory.type (omega (arith, h.0)), go cs h.1)

  grouped-cons :
      (t : MemoryType) (c : Candidate F) (cs : List (Candidate F))
      → c.memory.type ≡ t
      → All (λ d. type_order t ≤ order_of d) cs
      → grouped (c ∷ cs) ≡ c ∷ grouped cs
  grouped-cons constraint c cs e h = rw e refl
  grouped-cons decision c cs e h = rw (e, above constraint 1 cs (omega arith) h) refl
  grouped-cons fact c cs e h =
      rw (e, above constraint 2 cs (omega arith) h, above decision 2 cs (omega arith) h) refl
  grouped-cons task c cs e h =
      rw
        (
          e,
          above constraint 3 cs (omega arith) h,
          above decision 3 cs (omega arith) h,
          above fact 3 cs (omega arith) h,
        )
        refl

  grouped-id : (cs : List (Candidate F)) → IsByType cs → grouped cs ≡ cs
  grouped-id [] h = refl
  grouped-id (c ∷ cs) h =
      grouped-cons c.memory.type c cs refl h.0 ∙ ap (λ l. c ∷ l) (grouped-id cs h.1)

  bullets-items :
      (cs : List (Candidate F)) → bullets (item_lines cs) ≡ map (λ c. content_line c.memory) cs
  bullets-items [] = refl
  bullets-items (c ∷ cs) = ap (λ l. content_line c.memory ∷ l) (bullets-items cs)

  bullets-group :
      (heading : Text) (cs : List (Candidate F))
      → bullets (group_lines heading cs) ≡ map (λ c. content_line c.memory) cs
  bullets-group heading [] = refl
  bullets-group heading (c ∷ cs) =
      ap (λ l. content_line c.memory ∷ l)
        (bullets-append (item_lines cs) ([] ∷ [])
          ∙ append-nil (bullets (item_lines cs))
          ∙ bullets-items cs)

  bullets-groups :
      (hs : List (MemoryType × Text)) (cs : List (Candidate F))
      → bullets (all_groups hs cs) ≡ map (λ c. content_line c.memory) (listed hs cs)
  bullets-groups [] cs = refl
  bullets-groups ((t, heading) ∷ hs) cs =
      bullets-append (group_lines heading (group t cs)) (all_groups hs cs)
      ∙ ap (λ l. l ++ bullets (all_groups hs cs)) (bullets-group heading (group t cs))
      ∙ ap (λ l. map (λ c. content_line c.memory) (group t cs) ++ l) (bullets-groups hs cs)
      ∙ sym (map-append (λ c. content_line c.memory) (group t cs) (listed hs cs))

  bullets-brief :
      (cs : List (Candidate F)) (project_slug : Text)
      → bullets (brief_lines cs project_slug) ≡ map (λ c. content_line c.memory) (grouped cs)
  unfolding brief_lines
  bullets-brief cs project_slug =
      bullets-append (all_groups headings cs) footer
      ∙ append-nil (bullets (all_groups headings cs))
      ∙ bullets-groups headings cs

-- In the brief of a selection, the lines that list a memory are one for each selected memory, in the
-- order in which the selection returns them, though the brief is written heading by heading.
pub brief_in_order :
    (fl : Floats) (py : Platform) (candidates : List (Candidate fl.F)) (budget : ℕ)
    (project_slug : Text)
    → bullets (brief_lines (select fl py candidates budget).selected project_slug)
      ≡ map (λ c. content_line c.memory) (select fl py candidates budget).selected
unfolding select stable_order
brief_in_order fl py candidates budget project_slug =
    let selected = (select fl py candidates budget).selected in
    bullets-brief selected project_slug
    ∙ ap (map (λ c. content_line c.memory)) (grouped-id selected (sort-IsByType fl py _))
