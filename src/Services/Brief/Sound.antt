-- ===== src/Services/Brief/Sound.antt =====
-- What a brief may hold.
use mcp_shared_memory_hub.Prelude.{
  ℕ, suc, ◌+◌, ◌≤◌, ◌≡◌, refl, sym, subst, ◌∙◌, Bool, true, false, not, ◌&&◌, Option, List, [], ◌∷◌,
  map, arith, leb, Text, All, if◌then◌else◌,
}
use mcp_shared_memory_hub.Domain.Errors.{Error, ok, validation_failed}
use mcp_shared_memory_hub.Domain.Models.{MemoryView}
use mcp_shared_memory_hub.Store.Tables.{Db}
use mcp_shared_memory_hub.Store.Tx.{Tx, raise}
use mcp_shared_memory_hub.Store.Guarantee.{pure-inv, gets-inv, bind-inv}
use mcp_shared_memory_hub.Store.Projects.{get_by_id}
use mcp_shared_memory_hub.Store.Memories.{current_revisions}
use mcp_shared_memory_hub.Context.Floats.{Floats}
use mcp_shared_memory_hub.Context.Tokens.{usable_budget}
use mcp_shared_memory_hub.Context.Builder.{Candidate, select}
use mcp_shared_memory_hub.Context.Fill.{total}
use mcp_shared_memory_hub.Context.Budget.{select-within_budget}
use mcp_shared_memory_hub.Context.Choice.{select-All}
use mcp_shared_memory_hub.Services.Memories.{to_view}
use mcp_shared_memory_hub.Services.Hybrid.{Engines}
use mcp_shared_memory_hub.Services.Hybrid.Rows.{IsLive, current-IsLive}
use mcp_shared_memory_hub.Services.Hybrid.Sound.{raise-inv}
use mcp_shared_memory_hub.Services.Brief.Gather.{gather-All}
use mcp_shared_memory_hub.Services.Brief.{
  min_budget, max_budget, TokenEstimator, ProjectContext, BriefEnv, gather, candidates_from,
  build_context,
}

-- the candidates are the offered memories, each at the estimated cost of its content
abbrev pub IsPriced : {F : Type 0} → TokenEstimator → (MemoryView → Type 0) → Candidate F → Type 0
IsPriced counter Q c = (c.tokens ≡ counter.estimate c.memory.content) × Q c.memory

-- what contents cost together
abbrev pub cost : TokenEstimator → List MemoryView → ℕ
cost counter [] = 0
cost counter (v ∷ views) = counter.estimate v.content + cost counter views

unless-inv :
    {A : Type 0} (b : Bool) (e : Error) (m : Tx A) (s : Db) {a : A} {t : Db}
    → (if not b then raise e else m) s ≡ ok (a, t)
    → (b ≡ true) × (m s ≡ ok (a, t))
unless-inv true e m s h = (refl, h)
unless-inv false e m s h = absurd (raise-inv e s h)

module _ (fl : Floats) (counter : TokenEstimator) (Q : MemoryView → Type 0) where
  candidates-IsPriced :
      (index : ℕ) (views : List MemoryView)
      → All Q views
      → All (IsPriced counter Q) (candidates_from fl counter index views)
  candidates-IsPriced index [] h = tt
  candidates-IsPriced index (v ∷ views) h = ((refl, h.0), candidates-IsPriced (suc index) views h.1)

  priced :
      (cs : List (Candidate fl.F))
      → All (IsPriced counter Q) cs
      → (total cs ≡ cost counter (map (λ c. c.memory) cs)) × All Q (map (λ c. c.memory) cs)
  priced [] h = (refl, tt)
  priced (c ∷ cs) h = let (e, live) = priced cs h.1 in (omega (arith, h.0.0, e), (h.0.1, live))

-- what holds of all that the stage-0 filter lets through holds of the memories of a brief
pub build_context-All :
    (env : BriefEnv) (engines : Engines) (project_id : ℕ) (query : Option Text) (token_budget : ℕ)
    (s : Db) (Q : MemoryView → Type 0)
    (base : All (λ x. Q (to_view x)) (current_revisions project_id false s)) (t : Db)
    (context : ProjectContext engines.floats.F)
    → build_context env engines project_id query token_budget s ≡ ok (context, t)
    → (min_budget ≤ token_budget)
      × (token_budget ≤ max_budget)
      × (t ≡ s)
      × All Q context.memories
      × (context.selection.tokens_used ≡ cost env.counter context.memories)
      × (context.selection.tokens_used ≤ usable_budget token_budget)
unfolding build_context get_by_id
build_context-All env engines project_id query token_budget s Q base t context h =
    let (ranged, h') =
      unless-inv (leb min_budget token_budget && leb token_budget max_budget) validation_failed _ s
        h in
    let (project, u, got, k) = bind-inv (get_by_id project_id) _ s h' in
    let at_u : s ≡ u = (gets-inv _ got).1 in
    let (offer, v, gathered, l) =
      bind-inv (gather env.py engines env.embedder project_id query) _ u k in
    let (same, holds) = gather-All Q project_id s base env.py engines env.embedder query (
      subst (λ w. gather env.py engines env.embedder project_id query w ≡ ok (offer, v)) (sym at_u)
        gathered) in
    let (built, at) = pure-inv l in
    let candidates = candidates_from engines.floats env.counter 0 offer.views in
    let (exact, bounded) = select-within_budget engines.floats env.py candidates token_budget in
    let (costs, shown) =
      priced engines.floats env.counter Q
        (select engines.floats env.py candidates token_budget).selected
        (select-All engines.floats env.py (IsPriced env.counter Q) candidates token_budget
          (candidates-IsPriced engines.floats env.counter Q 0 offer.views holds)) in
    (
      ground arith,
      ground arith,
      sym at ∙ same,
      subst (λ c. All Q c.memories) built shown,
      subst (λ c. c.selection.tokens_used ≡ cost env.counter c.memories) built (exact ∙ costs),
      subst (λ c. c.selection.tokens_used ≤ usable_budget token_budget) built bounded,
    )

-- A brief that is built, by whichever of the three ways of retrieval, for a budget from 100 to 32000
-- tokens only, leaves the database alone and holds active memories of the project that have not
-- expired; the tokens that it reports as used are the estimated cost of their contents, within the
-- usable budget.
pub build_context_sound :
    (env : BriefEnv) (engines : Engines) (project_id : ℕ) (query : Option Text) (token_budget : ℕ)
    (s t : Db) (context : ProjectContext engines.floats.F)
    → build_context env engines project_id query token_budget s ≡ ok (context, t)
    → (min_budget ≤ token_budget)
      × (token_budget ≤ max_budget)
      × (t ≡ s)
      × All (IsLive project_id s.now) context.memories
      × (context.selection.tokens_used ≡ cost env.counter context.memories)
      × (context.selection.tokens_used ≤ usable_budget token_budget)
build_context_sound env engines project_id query token_budget s t context h =
    build_context-All env engines project_id query token_budget s (IsLive project_id s.now)
      (current-IsLive project_id s) t context h
