-- ===== src/Context/Budget.antt =====
-- `select` of src/memhub/context/builder.py and its budget.
use mcp_shared_memory_hub.Prelude.{
  sort_by, insert_sorted, ℕ, ◌+◌, ◌-◌, ◌≤◌, ◌≡◌, refl, sym, ap, ◌∙◌, inl, inr, Bool, not, ◌&&◌,
  List, [], ◌∷◌, map, arith, ltb, leb, select_where, Bool-cases,
}
use mcp_shared_memory_hub.Domain.Enums.{MemoryType, type_eq}
use mcp_shared_memory_hub.Domain.Unicode.{Platform}
use mcp_shared_memory_hub.Context.Floats.{Floats}
use mcp_shared_memory_hub.Context.Tokens.{usable_budget}
use mcp_shared_memory_hub.Context.Builder.{
  Candidate, Filling, type_quota, allowance_of, id_of, is_among, fill, add_pass, quota_passes,
  redistribute, choose, stable_order, select,
}
use mcp_shared_memory_hub.Context.Fill.{total, total-append, IsWithin, fill-IsWithin}

total-insert :
    {F : Type 0} (before : Candidate F → Candidate F → Bool) (x : Candidate F)
    (ys : List (Candidate F))
    → total (insert_sorted before x ys) ≡ x.tokens + total ys
unfolding insert_sorted
total-insert before x [] = refl
total-insert before x (y ∷ ys) = ground (arith, total-insert before x ys)

total-sort_by :
    {F : Type 0} (before : Candidate F → Candidate F → Bool) (xs : List (Candidate F))
    → total (sort_by before xs) ≡ total xs
unfolding sort_by
total-sort_by before [] = refl
total-sort_by before (x ∷ xs) =
    total-insert before x (sort_by before xs) ∙ ap (λ n. x.tokens + n) (total-sort_by before xs)

-- what the quotas allow together
abbrev allowances : ℕ → List (MemoryType × ℕ) → ℕ
allowances spendable [] = 0
allowances spendable ((memory_type, share) ∷ quotas) =
    allowance_of spendable share + allowances spendable quotas

allowances-le : (spendable : ℕ) → allowances spendable type_quota ≤ spendable
allowances-le spendable = omega arith

module _ (fl : Floats) (py : Platform) where
  add_pass-IsWithin :
      (pool : List (Candidate fl.F)) (allowance bound : ℕ) (so_far : Filling fl.F)
      → IsWithin bound so_far
      → IsWithin (allowance + bound) (add_pass fl py pool allowance so_far)
  unfolding add_pass
  add_pass-IsWithin pool allowance bound so_far within =
      let pass = fill fl py pool allowance so_far.taken in
      let (exact, bounded) = fill-IsWithin fl py pool allowance so_far.taken in
      (
        ap (λ n. n + pass.spent) within.0
            ∙ ap (λ n. total so_far.taken + n) exact
            ∙ sym (total-append so_far.taken pass.taken),
        omega (arith, bounded, within.1),
      )

  quota_passes-IsWithin :
      (fitting : List (Candidate fl.F)) (spendable bound : ℕ) (quotas : List (MemoryType × ℕ))
      (so_far : Filling fl.F)
      → IsWithin bound so_far
      → IsWithin
          (allowances spendable quotas + bound)
          (quota_passes fl py fitting spendable quotas so_far)
  unfolding quota_passes
  quota_passes-IsWithin fitting spendable bound [] so_far within =
      (within.0, omega (arith, within.1))
  quota_passes-IsWithin fitting spendable bound ((memory_type, share) ∷ quotas) so_far within =
      let (exact, bounded) =
        quota_passes-IsWithin fitting spendable (allowance_of spendable share + bound) quotas
          (add_pass fl py (select_where (λ c. type_eq c.memory.type memory_type) fitting)
            (allowance_of spendable share) so_far)
          (add_pass-IsWithin _ _ bound so_far within) in
      (exact, omega (arith, bounded))

  redistribute-IsWithin :
      (fitting : List (Candidate fl.F)) (spendable : ℕ) (so_far : Filling fl.F)
      → IsWithin spendable so_far
      → IsWithin spendable (redistribute fl py fitting spendable so_far)
  unfolding redistribute
  redistribute-IsWithin fitting spendable so_far within =
      elim (Bool-cases (ltb so_far.spent spendable)) [
        | inl e ↦
            let (exact, bounded) =
              add_pass-IsWithin
                (select_where
                  (λ c.
                    not (is_among (id_of c) (map id_of so_far.taken))
                    && not (is_among (id_of c) so_far.rejected))
                  fitting)
                (spendable - so_far.spent) so_far.spent so_far (within.0, omega arith) in
            rw e (exact, omega (arith, bounded, within.1))
        | inr e ↦ rw e within
      ]

  choose-IsWithin :
      (fitting : List (Candidate fl.F)) (spendable : ℕ)
      → IsWithin spendable (choose fl py fitting spendable)
  unfolding choose
  choose-IsWithin fitting spendable =
      let start : Filling fl.F = record { taken = []; spent = 0; rejected = [] } in
      let (exact, bounded) =
        quota_passes-IsWithin fitting spendable 0 type_quota start (refl, omega arith) in
      redistribute-IsWithin fitting spendable
        (quota_passes fl py fitting spendable type_quota start)
        (exact, omega (arith, bounded, allowances-le spendable))

  -- Whatever the candidates and the arithmetic of the scores, the tokens that a selection reports as
  -- used are exactly what its memories cost together, and they are at most the usable budget.
  pub select-within_budget :
      (candidates : List (Candidate fl.F)) (budget : ℕ)
      → ((select fl py candidates budget).tokens_used
          ≡ total (select fl py candidates budget).selected)
        × ((select fl py candidates budget).tokens_used ≤ usable_budget budget)
  unfolding select stable_order
  select-within_budget candidates budget =
      let (exact, bounded) =
        choose-IsWithin (select_where (λ c. leb c.tokens (usable_budget budget)) candidates)
          (usable_budget budget) in
      (exact ∙ sym (total-sort_by _ _), bounded)
