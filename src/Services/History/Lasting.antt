-- ===== src/Services/History/Lasting.antt =====
-- What of the record of a memory later requests keep.
use mcp_shared_memory_hub.Prelude.{
  ℕ, ◌≡◌, refl, sym, ap, ◌∙◌, inl, inr, true, false, List, [], ◌∷◌, ◌++◌, map, arith, ◌==◌, any,
  All, Bool-cases,
}
use mathlib.Core.List.{reverse, reverse-cons, reverse-append, map-append}
use mcp_shared_memory_hub.Domain.Errors.{ok}
use mcp_shared_memory_hub.Domain.Models.{RevisionView, MemoryHistory}
use mcp_shared_memory_hub.Store.Tables.{Memory, MemoryRevision, Db}
use mcp_shared_memory_hub.Store.Memories.{retire_revision, has_memory}
use mcp_shared_memory_hub.Store.Invariant.{rows_of, log_of, IsWellFormed}
use mcp_shared_memory_hub.Store.Permanence.{contents, RowsEvolve, IsAppended}
use mcp_shared_memory_hub.Store.Reports.{revision_view}
use mcp_shared_memory_hub.Services.History.{history}
use mcp_shared_memory_hub.Services.Retrieval.{any_at}
use mcp_shared_memory_hub.Services.Requests.{Arrival, serve_all}
use mcp_shared_memory_hub.Services.Requests.Keeps.{Rely}
use mcp_shared_memory_hub.Services.WellFormed.{well_formed_step, serve_all-IsWellFormed}
use mcp_shared_memory_hub.Services.Permanent.{permanent_step, serve_all-IsPermanent}
use mcp_shared_memory_hub.Services.History.Record.{history_complete}

-- a revision with the mark of being current taken off
abbrev pub unmarked : RevisionView → RevisionView
unmarked v = record v { is_current = false }

past : List MemoryRevision → List RevisionView
past log = map unmarked (map revision_view (reverse log))

past-cons :
    (v : MemoryRevision) (log : List MemoryRevision)
    → past (v ∷ log) ≡ past log ++ unmarked (revision_view v) ∷ []
unfolding past
past-cons v log =
    ap (λ l. map unmarked (map revision_view l)) (reverse-cons v log)
    ∙ ap (map unmarked) (map-append revision_view (reverse log) (v ∷ []))
    ∙ map-append unmarked (map revision_view (reverse log)) (revision_view v ∷ [])

past-contents : (log : List MemoryRevision) → past log ≡ past (contents log)
unfolding past
past-contents [] = refl
past-contents (v ∷ log) =
    past-cons v log
    ∙ ap (λ l. l ++ unmarked (revision_view v) ∷ []) (past-contents log)
    ∙ sym (past-cons (retire_revision v) (contents log))

past-append : (added log : List MemoryRevision) → past (added ++ log) ≡ past log ++ past added
unfolding past
past-append added log =
    ap (λ l. map unmarked (map revision_view l)) (reverse-append added log)
    ∙ ap (map unmarked) (map-append revision_view (reverse log) (reverse added))
    ∙ map-append unmarked (map revision_view (reverse log)) (map revision_view (reverse added))

-- the record of a memory goes on from that of an earlier time
abbrev pub GoesOn : MemoryHistory → MemoryHistory → Type 0
GoesOn h h' =
    (later : List RevisionView) × (map unmarked h'.revisions ≡ map unmarked h.revisions ++ later)

grown :
    (log log' : List MemoryRevision)
    → IsAppended log log'
    → (later : List RevisionView) × (past log' ≡ past log ++ later)
grown log log' (added, e) = (
  past added,
  past-contents log'
      ∙ ap past e
      ∙ past-append added (contents log)
      ∙ ap (λ l. l ++ past added) (sym (past-contents log)),
)

has_memory-evolved :
    (project_id : ℕ) (rows rows' : List Memory)
    → any (λ r. r.project_id == project_id) rows ≡ true
    → RowsEvolve rows rows'
    → any (λ r. r.project_id == project_id) rows' ≡ true
has_memory-evolved project_id [] rows' h e = absurd (ground arith)
has_memory-evolved project_id (r ∷ rows) [] h e = absurd e
has_memory-evolved project_id (r ∷ rows) (r' ∷ rows') h e =
    elim (Bool-cases (r.project_id == project_id)) [
      | inl p ↦ rw (e.0.project_id, p) refl
      | inr p ↦ rw (e.0.project_id, p) (has_memory-evolved project_id rows rows' (rw p at h) e.1)
    ]

-- In a well-formed store, whatever requests arrive, beside processes that keep the store well formed
-- and its past: the record of a memory that the project has, superseded or deleted meanwhile or not,
-- stays readable, and lists first what it listed before, with new revisions only after it.
pub history_lasts :
    (arrivals : List Arrival) (db : Db) (project_id m : ℕ)
    → All (Rely well_formed_step) arrivals
    → All (Rely permanent_step) arrivals
    → IsWellFormed db
    → has_memory project_id m db ≡ true
    → (h : MemoryHistory) × (h' : MemoryHistory) × (history project_id m db ≡ ok (h, db))
      × (history project_id m (serve_all arrivals db) ≡ ok (h', serve_all arrivals db))
      × GoesOn h h'
unfolding past
history_lasts arrivals db project_id m rely rely' wf known =
    let t = serve_all arrivals db in
    let wf' : IsWellFormed t = serve_all-IsWellFormed arrivals db rely wf in
    let (rows, log) = serve_all-IsPermanent arrivals db rely' m in
    let known' : has_memory project_id m t ≡ true =
      any_at m (λ r. r.project_id == project_id) t.memories
      ∙ has_memory-evolved project_id (rows_of m db) (rows_of m t)
          (sym (any_at m (λ r. r.project_id == project_id) db.memories) ∙ known) rows in
    let (h, r, _, answers, _, listed, _) = history_complete project_id m db wf known in
    let (h', r', _, answers', _, listed', _) = history_complete project_id m t wf' known' in
    let (later, e) = grown (log_of m db) (log_of m t) log in
    (
      h,
      h',
      answers,
      answers',
      (later, ap (map unmarked) listed' ∙ e ∙ ap (λ l. map unmarked l ++ later) (sym listed)),
    )
