-- ===== src/Context/Fill.antt =====
-- `_fill` of src/memhub/context/builder.py: what a turn of its loop keeps.
use mcp_shared_memory_hub.Prelude.{
  sort_by, ℕ, zero, suc, ◌+◌, ◌≤◌, ◌≡◌, refl, subst, inl, inr, Bool, not, ◌&&◌, Option, none, some,
  List, [], ◌∷◌, ◌++◌, map, arith, leb, Text, length, select_where, Bool-cases, if◌then◌else◌,
}
use mcp_shared_memory_hub.Domain.Unicode.{Platform}
use mcp_shared_memory_hub.Context.Floats.{Floats}
use mcp_shared_memory_hub.Context.Builder.{
  Candidate, Filling, content_of, id_of, is_among, fills_first, remove_at, beats, best_of, consider,
  fill_loop, fill,
}

-- what candidates cost
abbrev pub total : {F : Type 0} → List (Candidate F) → ℕ
total [] = 0
total (c ∷ cs) = c.tokens + total cs

pub total-append :
    {F : Type 0} (xs ys : List (Candidate F)) → total (xs ++ ys) ≡ total xs + total ys
total-append [] ys = omega arith
total-append (x ∷ xs) ys = ground (arith, total-append xs ys)

-- the cost of what is taken is what is spent, within the allowance
abbrev pub IsWithin : {F : Type 0} → ℕ → Filling F → Type 0
IsWithin allowance filling = (filling.spent ≡ total filling.taken) × (filling.spent ≤ allowance)

module _ (fl : Floats) (py : Platform) where
  -- a candidate that the scan returns fits what is left of the allowance
  abbrev Fits : ℕ → ℕ → Option (ℕ × Candidate fl.F) → Type 0
  Fits allowance spent none = Unit
  Fits allowance spent (some (i, c)) = spent + c.tokens ≤ allowance

  better-Fits :
      (b : Bool) (c : Candidate fl.F) (allowance spent place : ℕ)
      (best : Option (ℕ × Candidate fl.F))
      → Fits allowance spent best
      → Fits allowance spent
          (if leb (spent + c.tokens) allowance && b then some (place, c) else best)
  better-Fits b c allowance spent place best fits =
      elim (Bool-cases (leb (spent + c.tokens) allowance)) [
        | inl e ↦ elim (Bool-cases b) [
          | inl e' ↦ rw (e, e') (ground arith)
          | inr e' ↦ rw (e, e') fits
        ]
        | inr e ↦ rw e fits
      ]

  best_of-Fits :
      (chosen_text : List Text) (allowance spent place : ℕ) (best : Option (ℕ × Candidate fl.F))
      (remaining : List (Candidate fl.F))
      → Fits allowance spent best
      → Fits allowance spent (best_of fl py chosen_text allowance spent place best remaining)
  unfolding best_of
  best_of-Fits chosen_text allowance spent place best [] fits = fits
  best_of-Fits chosen_text allowance spent place best (c ∷ remaining) fits =
      best_of-Fits chosen_text allowance spent (suc place) _ remaining
        (better-Fits (beats fl py chosen_text c best) c allowance spent place best fits)

  consider-IsWithin :
      (chosen_text : List Text) (best : Candidate fl.F) (allowance : ℕ) (so_far : Filling fl.F)
      → so_far.spent + best.tokens ≤ allowance
      → IsWithin allowance so_far
      → IsWithin allowance (consider fl py chosen_text best so_far)
  unfolding consider
  consider-IsWithin chosen_text best allowance so_far fits within =
      ground (arith, total-append so_far.taken (best ∷ []))

  -- What every turn keeps, on a candidate that fits, is kept by the loop.
  pub fill_loop-keeps :
      (P : Filling fl.F → Type 0) (fuel : ℕ) (before : List Text) (allowance : ℕ)
      → ((so_far : Filling fl.F) (best : Candidate fl.F)
          → so_far.spent + best.tokens ≤ allowance
          → P so_far
          → P (consider fl py (before ++ map content_of so_far.taken) best so_far))
      → (remaining : List (Candidate fl.F)) (so_far : Filling fl.F) → P so_far
      → P (fill_loop fl py fuel before allowance remaining so_far)
  unfolding fill_loop
  fill_loop-keeps P zero before allowance keeps remaining so_far h = h
  fill_loop-keeps P (suc fuel) before allowance keeps remaining so_far h =
      go
        (best_of fl py (before ++ map content_of so_far.taken) allowance so_far.spent 0 none
          remaining)
        refl (λ rest filling k. fill_loop-keeps P fuel before allowance keeps rest filling k)
    where
      go :
          (o : Option (ℕ × Candidate fl.F))
          → best_of fl py
              (before ++ map content_of so_far.taken)
              allowance
              so_far.spent
              0
              none
              remaining
            ≡ o
          → ((rest : List (Candidate fl.F)) (filling : Filling fl.F)
              → P filling
              → P (fill_loop fl py fuel before allowance rest filling))
          → P (fill_loop fl py (suc fuel) before allowance remaining so_far)
      go none e again = rw (fill_loop, e) h
      go (some (i, best)) e again =
          rw (fill_loop, e)
            (again (remove_at i remaining)
              (consider fl py (before ++ map content_of so_far.taken) best so_far)
              (keeps so_far best
                (subst (Fits allowance so_far.spent) e (
                  best_of-Fits (before ++ map content_of so_far.taken) allowance so_far.spent 0 none
                    remaining tt))
                h))

  -- the same of a whole pass
  pub fill-keeps :
      (P : Filling fl.F → Type 0) (pool : List (Candidate fl.F)) (allowance : ℕ)
      (already : List (Candidate fl.F))
      → ((so_far : Filling fl.F) (best : Candidate fl.F)
          → so_far.spent + best.tokens ≤ allowance
          → P so_far
          → P (consider fl py (map content_of already ++ map content_of so_far.taken) best so_far))
      → P (record { taken = []; spent = 0; rejected = [] })
      → P (fill fl py pool allowance already)
  unfolding fill
  fill-keeps P pool allowance already keeps start =
      let remaining : List (Candidate fl.F) =
        sort_by (fills_first fl py)
          (select_where (λ c. not (is_among (id_of c) (map id_of already))) pool) in
      fill_loop-keeps P (length remaining) (map content_of already) allowance keeps remaining
        (record { taken = []; spent = 0; rejected = [] }) start

  pub fill-IsWithin :
      (pool : List (Candidate fl.F)) (allowance : ℕ) (already : List (Candidate fl.F))
      → IsWithin allowance (fill fl py pool allowance already)
  fill-IsWithin pool allowance already =
      fill-keeps (IsWithin allowance) pool allowance already
        (λ so_far best fits within.
          consider-IsWithin (map content_of already ++ map content_of so_far.taken) best allowance
            so_far fits within)
        (refl, omega arith)
