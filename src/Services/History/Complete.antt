-- ===== src/Services/History/Complete.antt =====
-- The revisions of a memory in the order of the record.
use mcp_shared_memory_hub.Prelude.{
  ℕ, ◌<◌, ◌≤◌, ◌≡◌, refl, sym, ap, ◌∙◌, List, [], ◌∷◌, ◌++◌, arith, lt→ltb, sort_by, insert_sorted,
  All, All-append,
}
use mathlib.Core.List.{reverse, reverse-cons}
use mcp_shared_memory_hub.Store.Tables.{MemoryRevision}
use mcp_shared_memory_hub.Store.Invariant.{IsHistory, IsLog}
use mcp_shared_memory_hub.Store.Reports.{older}

-- the sort of a log that is newest first
module _ (x : MemoryRevision) where
  insert-last :
      (ys : List MemoryRevision)
      → All (λ y. y.revision_no < x.revision_no) ys
      → insert_sorted older x ys ≡ ys ++ x ∷ []
  unfolding insert_sorted
  insert-last [] h = refl
  insert-last (y ∷ ys) h = ground (arith, insert-last ys h.1, lt→ltb y.revision_no x.revision_no)

All-reverse : {A : Type 0} (P : A → Type 0) (xs : List A) → All P xs → All P (reverse xs)
All-reverse P [] h = tt
All-reverse P (x ∷ xs) h =
    rw (reverse-cons x xs) (All-append P (reverse xs) (x ∷ []) (All-reverse P xs h.1) (h.0, tt))

history_below :
    (project_id n bound : ℕ) (log : List MemoryRevision)
    → IsHistory project_id n log
    → n ≤ bound
    → All (λ r. r.revision_no < bound) log
history_below project_id n bound [] h le = tt
history_below project_id n bound (r ∷ log) h le =
    (omega (arith, h.0), history_below project_id r.revision_no bound log h.3 (omega (arith, h.0)))

sort-history :
    (project_id n : ℕ) (log : List MemoryRevision)
    → IsHistory project_id n log
    → sort_by older log ≡ reverse log
unfolding sort_by
sort-history project_id n [] h = refl
sort-history project_id n (r ∷ log) h =
    ap (insert_sorted older r) (sort-history project_id r.revision_no log h.3)
    ∙ insert-last r (reverse log) (
        All-reverse (λ q. q.revision_no < r.revision_no) log
          (history_below project_id r.revision_no r.revision_no log h.3 (omega arith)))
    ∙ sym (reverse-cons r log)

pub sort-log :
    (project_id n : ℕ) (log : List MemoryRevision)
    → IsLog project_id n log
    → sort_by older log ≡ reverse log
unfolding sort_by
sort-log project_id n [] h = absurd h
sort-log project_id n (r ∷ log) h =
    ap (insert_sorted older r) (sort-history project_id n log h.3)
    ∙ insert-last r (reverse log) (
        All-reverse (λ q. q.revision_no < r.revision_no) log
          (history_below project_id n r.revision_no log h.3 (omega (arith, h.0))))
    ∙ sym (reverse-cons r log)
