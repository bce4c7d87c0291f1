-- ===== src/Tests/Records.antt =====
-- The full record of the small store's memory, and the share of its project that has vectors.
use mcp_shared_memory_hub.Prelude.{◌≤◌, ◌≡◌, refl, ◌↔◌, [], ◌∷◌, map, All}
use mathlib.Core.List.{reverse}
use mcp_shared_memory_hub.Domain.Errors.{ok}
use mcp_shared_memory_hub.Domain.Models.{MemoryHistory}
use mcp_shared_memory_hub.Store.Tables.{Memory}
use mcp_shared_memory_hub.Store.Invariant.{rows_of, log_of}
use mcp_shared_memory_hub.Store.Reports.{revision_view}
use mcp_shared_memory_hub.Store.Coverage.{
  Ratio, HasVector, live_rows, semantic_coverage, semantic_coverage_lem,
}
use mcp_shared_memory_hub.Services.History.{history}
use mcp_shared_memory_hub.Services.History.Record.{one_to, history_complete}
use mcp_shared_memory_hub.Services.History.Lasting.{GoesOn, history_lasts}
use mcp_shared_memory_hub.Services.Requests.{serve_all}
use mcp_shared_memory_hub.Tests.Data.{
  claude, small_db, small_db-IsWellFormed, forgotten_db, forgotten_db-IsWellFormed, two_arrivals,
}
use mcp_shared_memory_hub.Tests.Services.{quiet_well, quiet_permanent}

history_complete_example :
    (h : MemoryHistory) × (r : Memory) × (rows_of 7 forgotten_db ≡ r ∷ [])
    × (history 1 7 forgotten_db ≡ ok (h, forgotten_db))
    × (h.memory.revision_no ≡ r.current_revision_no)
    × (h.revisions ≡ map revision_view (reverse (log_of 7 forgotten_db)))
    × (map (λ v. v.revision_no) h.revisions ≡ one_to r.current_revision_no)
history_complete_example = history_complete 1 7 forgotten_db forgotten_db-IsWellFormed refl

history_lasts_example :
    (h : MemoryHistory) × (h' : MemoryHistory) × (history 1 7 small_db ≡ ok (h, small_db))
    × (history 1 7 (serve_all two_arrivals small_db) ≡ ok (h', serve_all two_arrivals small_db))
    × GoesOn h h'
history_lasts_example =
    history_lasts two_arrivals small_db 1 7 quiet_well quiet_permanent small_db-IsWellFormed refl

semantic_coverage_lem_example :
    (c : Ratio) × (semantic_coverage 1 claude small_db ≡ ok (c, small_db))
    × (1 ≤ c.denominator)
    × (c.numerator ≤ c.denominator)
    × ((c.numerator ≡ c.denominator) ↔ All (HasVector claude small_db) (live_rows 1 small_db))
semantic_coverage_lem_example = semantic_coverage_lem 1 claude small_db
