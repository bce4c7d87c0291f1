-- ===== src/Context/Choice.antt =====
-- `select` of src/memhub/context/builder.py, and what holds of all its candidates.
use mcp_shared_memory_hub.Prelude.{
  ℕ, zero, suc, ◌+◌, ◌-◌, ◌≡◌, refl, subst, inl, inr, Bool, not, ◌&&◌, Option, none, some, List, [],
  ◌∷◌, ◌++◌, map, leb, ltb, Text, length, select_where, sort_by, All, All-append, All-sort_by,
  Bool-cases, if◌then◌else◌,
}
use mcp_shared_memory_hub.Domain.Enums.{MemoryType}
use mcp_shared_memory_hub.Domain.Unicode.{Platform}
use mcp_shared_memory_hub.Context.Floats.{Floats}
use mcp_shared_memory_hub.Context.Tokens.{usable_budget}
use mcp_shared_memory_hub.Context.Builder.{
  Candidate, Filling, type_quota, allowance_of, content_of, id_of, is_among, remove_at, beats,
  best_of, is_redundant, consider, fills_first, fill_loop, fill, add_pass, quota_passes,
  redistribute, choose, stable_order, select,
}

module _ (fl : Floats) (py : Platform) (P : Candidate fl.F → Type 0) where
  abbrev IfFound : Option (ℕ × Candidate fl.F) → Type 0
  IfFound none = Unit
  IfFound (some (i, c)) = P c

  better-IfFound :
      (b : Bool) (place : ℕ) (c : Candidate fl.F) (best : Option (ℕ × Candidate fl.F))
      → P c
      → IfFound best
      → IfFound (if b then some (place, c) else best)
  better-IfFound b place c best p h = elim (Bool-cases b) [ inl e ↦ rw e p | inr e ↦ rw e h ]

  best_of-IfFound :
      (chosen_text : List Text) (allowance spent place : ℕ) (best : Option (ℕ × Candidate fl.F))
      (remaining : List (Candidate fl.F))
      → IfFound best
      → All P remaining
      → IfFound (best_of fl py chosen_text allowance spent place best remaining)
  unfolding best_of
  best_of-IfFound chosen_text allowance spent place best [] h all = h
  best_of-IfFound chosen_text allowance spent place best (c ∷ remaining) h all =
      best_of-IfFound chosen_text allowance spent (suc place) _ remaining
        (better-IfFound (leb (spent + c.tokens) allowance && beats fl py chosen_text c best) place c
          best all.0 h)
        all.1

  All-remove_at : (i : ℕ) (cs : List (Candidate fl.F)) → All P cs → All P (remove_at i cs)
  All-remove_at zero [] h = tt
  All-remove_at (suc i) [] h = tt
  All-remove_at zero (c ∷ cs) h = h.1
  All-remove_at (suc i) (c ∷ cs) h = (h.0, All-remove_at i cs h.1)

  All-select :
      (p : Candidate fl.F → Bool) (cs : List (Candidate fl.F))
      → All P cs
      → All P (select_where p cs)
  All-select p [] h = tt
  All-select p (c ∷ cs) h = elim (Bool-cases (p c)) [
    | inl e ↦ rw e (h.0, All-select p cs h.1)
    | inr e ↦ rw e (All-select p cs h.1)
  ]

  consider-All :
      (chosen_text : List Text) (best : Candidate fl.F) (so_far : Filling fl.F)
      → P best
      → All P so_far.taken
      → All P (consider fl py chosen_text best so_far).taken
  unfolding consider
  consider-All chosen_text best so_far p h =
      elim (Bool-cases (is_redundant fl py chosen_text best)) [
        | inl e ↦ rw e h
        | inr e ↦ rw e (All-append P so_far.taken (best ∷ []) h (p, tt))
      ]

  fill_loop-All :
      (fuel : ℕ) (before : List Text) (allowance : ℕ) (remaining : List (Candidate fl.F))
      (so_far : Filling fl.F)
      → All P remaining
      → All P so_far.taken
      → All P (fill_loop fl py fuel before allowance remaining so_far).taken
  unfolding fill_loop
  fill_loop-All zero before allowance remaining so_far all h = h
  fill_loop-All (suc fuel) before allowance remaining so_far all h =
      go
        (best_of fl py (before ++ map content_of so_far.taken) allowance so_far.spent 0 none
          remaining)
        refl (λ rest filling a k. fill_loop-All fuel before allowance rest filling a k)
    where
      go :
          (o : Option (ℕ × Candidate fl.F))
          → best_of fl py
              (before ++ map content_of so_far.taken)
              allowance
              so_far.spent
              0
              none
              remaining
            ≡ o
          → ((rest : List (Candidate fl.F)) (filling : Filling fl.F)
              → All P rest
              → All P filling.taken
              → All P (fill_loop fl py fuel before allowance rest filling).taken)
          → All P (fill_loop fl py (suc fuel) before allowance remaining so_far).taken
      go none e again = rw (fill_loop, e) h
      go (some (i, best)) e again =
          rw (fill_loop, e)
            (again (remove_at i remaining)
              (consider fl py (before ++ map content_of so_far.taken) best so_far)
              (All-remove_at i remaining all)
              (consider-All (before ++ map content_of so_far.taken) best so_far
                (subst IfFound e (
                  best_of-IfFound (before ++ map content_of so_far.taken) allowance so_far.spent 0
                    none remaining tt all))
                h))

  add_pass-All :
      (pool : List (Candidate fl.F)) (allowance : ℕ) (so_far : Filling fl.F)
      → All P pool
      → All P so_far.taken
      → All P (add_pass fl py pool allowance so_far).taken
  unfolding add_pass fill
  add_pass-All pool allowance so_far all h =
      let fresh : List (Candidate fl.F) =
        select_where (λ c. not (is_among (id_of c) (map id_of so_far.taken))) pool in
      let remaining = sort_by (fills_first fl py) fresh in
      All-append P so_far.taken (fill fl py pool allowance so_far.taken).taken h (
        fill_loop-All (length remaining) (map content_of so_far.taken) allowance remaining
          (record { taken = []; spent = 0; rejected = [] })
          (All-sort_by P (fills_first fl py) fresh (All-select _ pool all)) tt)

  quota_passes-All :
      (fitting : List (Candidate fl.F)) (spendable : ℕ) (quotas : List (MemoryType × ℕ))
      (so_far : Filling fl.F)
      → All P fitting
      → All P so_far.taken
      → All P (quota_passes fl py fitting spendable quotas so_far).taken
  unfolding quota_passes
  quota_passes-All fitting spendable [] so_far all h = h
  quota_passes-All fitting spendable ((memory_type, share) ∷ quotas) so_far all h =
      quota_passes-All fitting spendable quotas _ all
        (add_pass-All _ (allowance_of spendable share) so_far (All-select _ fitting all) h)

  redistribute-All :
      (fitting : List (Candidate fl.F)) (spendable : ℕ) (so_far : Filling fl.F)
      → All P fitting
      → All P so_far.taken
      → All P (redistribute fl py fitting spendable so_far).taken
  unfolding redistribute
  redistribute-All fitting spendable so_far all h = elim (Bool-cases (ltb so_far.spent spendable)) [
    | inl e ↦ rw e (add_pass-All _ (spendable - so_far.spent) so_far (All-select _ fitting all) h)
    | inr e ↦ rw e h
  ]

  pub select-All :
      (candidates : List (Candidate fl.F)) (budget : ℕ)
      → All P candidates
      → All P (select fl py candidates budget).selected
  unfolding select stable_order choose
  select-All candidates budget all =
      let fitting = All-select (λ c. leb c.tokens (usable_budget budget)) candidates all in
      All-sort_by P _ _ (
        redistribute-All (select_where (λ c. leb c.tokens (usable_budget budget)) candidates)
          (usable_budget budget)
          (quota_passes fl py (select_where (λ c. leb c.tokens (usable_budget budget)) candidates)
            (usable_budget budget) type_quota (record { taken = []; spent = 0; rejected = [] }))
          fitting
          (quota_passes-All _ (usable_budget budget) type_quota
            (record { taken = []; spent = 0; rejected = [] }) fitting tt))
