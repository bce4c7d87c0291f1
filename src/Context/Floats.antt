-- ===== src/Context/Floats.antt =====
-- Python's floats, as the scoring of src/memhub/context/builder.py and src/memhub/retrieval/fusion.py
-- uses them: the arithmetic is a parameter.
use mcp_shared_memory_hub.Prelude.{ℕ, Bool, not, ◌&&◌, ◌||◌, List, [], ◌∷◌, if◌then◌else◌}

pub record Floats : Type 1 where
  pub F : Type 0
  pub of_nat : ℕ → F
  -- the literal with these digits, divided by that power of ten
  pub decimal : ℕ → ℕ → F
  pub plus : F → F → F
  pub minus : F → F → F
  pub times : F → F → F
  pub over : F → F → F
  pub lt : F → F → Bool
  pub is_zero : F → Bool
  pub neg_infinity : F

module _ (fl : Floats) where
  -- max(first, *rest)
  abbrev pub max_from : fl.F → List fl.F → fl.F
  max_from best [] = best
  max_from best (x ∷ xs) = max_from (if fl.lt best x then x else best) xs

  -- max(xs, default=default)
  abbrev pub max_or : fl.F → List fl.F → fl.F
  max_or default [] = default
  max_or default (x ∷ xs) = max_from x xs

  -- (-a, m) < (-b, n) for tuples of a score and an id
  abbrev pub ranks_before : fl.F → Bool → fl.F → Bool
  ranks_before a smaller_id b = fl.lt b a || (not (fl.lt a b) && smaller_id)
