-- ===== src/Context/Tokens.antt =====
-- src/memhub/context/tokens.py. Its two float computations are written as the exact quotients that
-- they give: len / 3.2 rounded up is 5 len / 16 rounded up, and 0.9 of a budget rounded down is
-- 9 budget / 10.
use mcp_shared_memory_hub.Prelude.{ℕ, ◌+◌, ◌*◌, ◌/◌, max, Text, length}

abbrev pub per_item_overhead : ℕ
per_item_overhead = 12

-- HeuristicEstimator.estimate
unfoldable pub estimate : Text → ℕ
estimate text = (5 * length text + 15) / 16 + per_item_overhead

unfoldable pub usable_budget : ℕ → ℕ
usable_budget budget = max 1 (budget * 9 / 10)
