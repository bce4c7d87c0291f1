-- ===== src/Tests/Context.antt =====
-- A small selection, over an arithmetic of thousandths.
use mcp_shared_memory_hub.Prelude.{ℕ, ◌+◌, ◌-◌, ◌*◌, ◌/◌, ◌^◌, ◌≤◌, ◌≡◌, List, [], ◌∷◌, ltb, ◌==◌}
use mcp_shared_memory_hub.Services.Memories.{to_view}
use mcp_shared_memory_hub.Context.Floats.{Floats}
use mcp_shared_memory_hub.Context.Tokens.{usable_budget}
use mcp_shared_memory_hub.Context.Builder.{Candidate, select, choose}
use mcp_shared_memory_hub.Context.Fill.{total}
use mcp_shared_memory_hub.Context.Budget.{select-within_budget}
use mcp_shared_memory_hub.Context.Diversity.{IsDiverse, choose-IsDiverse}
use mcp_shared_memory_hub.Tests.Data.{plain, first_memory, its_revision, other_note}

abbrev pub thousandths : Floats
thousandths = record {
  F = ℕ;
  of_nat = λ n. n * 1000;
  decimal = λ digits power. digits * 1000 / 10 ^ power;
  plus = λ a b. a + b;
  minus = λ a b. a - b;
  times = λ a b. a * b / 1000;
  over = λ a b. a * 1000 / b;
  lt = ltb;
  is_zero = λ a. a == 0;
  neg_infinity = 0;
}

abbrev pub two_candidates : List (Candidate ℕ)
two_candidates =
    (record { memory = to_view (first_memory, its_revision); score = 1000; tokens = 14 })
    ∷ (record {
      memory =
          to_view (record first_memory { id = 8 }, record its_revision { content = other_note });
      score = 500;
      tokens = 14;
    })
    ∷ []

select-within_budget_example :
    ((select thousandths plain two_candidates 20).tokens_used
      ≡ total (select thousandths plain two_candidates 20).selected)
    × ((select thousandths plain two_candidates 20).tokens_used ≤ usable_budget 20)
select-within_budget_example = select-within_budget thousandths plain two_candidates 20

choose-IsDiverse_example :
    IsDiverse thousandths plain [] (choose thousandths plain two_candidates 18).taken
choose-IsDiverse_example = choose-IsDiverse thousandths plain two_candidates 18
