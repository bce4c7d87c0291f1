-- ===== src/Context/Reasons.antt =====
-- src/memhub/context/builder.py: why a candidate is left out of a selection.
use mcp_shared_memory_hub.Prelude.{ℕ, ◌+◌, ◌≡◌, true, Option, none, List, ◌++◌, map, Text, All}
use mcp_shared_memory_hub.Domain.Unicode.{Platform}
use mcp_shared_memory_hub.Context.Floats.{Floats}
use mcp_shared_memory_hub.Context.Builder.{
  Candidate, Filling, content_of, add_ids, remove_at, best_of, consider, fill_loop,
}
use mcp_shared_memory_hub.Context.Settled.{is_settled}

module _ (fl : Floats) (py : Platform) (fuel : ℕ) (before : List Text) (allowance : ℕ)
    (remaining : List (Candidate fl.F)) (so_far : Filling fl.F) where
  abbrev pub scanned : Option (ℕ × Candidate fl.F)
  scanned =
      best_of fl py (before ++ map content_of so_far.taken) allowance so_far.spent 0 none remaining

  abbrev pub turned : ℕ → Candidate fl.F → Filling fl.F
  turned i best =
      fill_loop fl py fuel before allowance (remove_at i remaining)
        (consider fl py (before ++ map content_of so_far.taken) best so_far)

module _ (fl : Floats) (py : Platform) where
  abbrev AllSettled : ℕ → Filling fl.F → List (Candidate fl.F) → Type 0
  AllSettled allowance filling cs = All (λ c. is_settled allowance filling c ≡ true) cs

-- a pass that was added to what the passes before it chose
module _ {F : Type 0} (so_far pass : Filling F) (spendable : ℕ) (c : Candidate F) where
  abbrev joined : Filling F
  joined = record {
    taken = so_far.taken ++ pass.taken;
    spent = so_far.spent + pass.spent;
    rejected = add_ids pass.rejected so_far.rejected;
  }
