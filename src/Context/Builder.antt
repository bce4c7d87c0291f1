-- ===== src/Context/Builder.antt =====
-- src/memhub/context/builder.py: `select` and `_fill`.
use mcp_shared_memory_hub.Prelude.{
  sort_by, ℕ, zero, suc, ◌+◌, ◌-◌, ◌*◌, ◌/◌, Bool, not, ◌&&◌, ◌||◌, Option, none, some, List, [],
  ◌∷◌, ◌++◌, map, leb, ltb, ◌==◌, Text, length, any, select_where, if◌then◌else◌,
}
use mcp_shared_memory_hub.Domain.Enums.{MemoryType, decision, constraint, fact, task, type_eq}
use mcp_shared_memory_hub.Domain.Models.{MemoryView}
use mcp_shared_memory_hub.Domain.Unicode.{Platform}
use mcp_shared_memory_hub.Context.Floats.{Floats, max_or, ranks_before}
use mcp_shared_memory_hub.Context.Similarity.{similarity}
use mcp_shared_memory_hub.Context.Tokens.{usable_budget}

pub record Candidate (F : Type 0) : Type 0 where
  pub memory : MemoryView
  pub score : F
  pub tokens : ℕ

-- what `_fill` returns, and what its loop has so far
pub record Filling (F : Type 0) : Type 0 where
  pub taken : List (Candidate F)
  pub spent : ℕ
  pub rejected : List ℕ

-- the counts of `dropped`, 0 for a reason that is not in it
pub record Dropped : Type 0 where
  pub too_large_alone : ℕ
  pub too_similar : ℕ
  pub no_budget_left : ℕ

pub record Selection (F : Type 0) : Type 0 where
  pub selected : List (Candidate F)
  pub tokens_used : ℕ
  pub budget : ℕ
  pub considered : ℕ
  pub dropped : Dropped

-- TYPE_QUOTA in hundredths, by share: sorted(quotas.items(), key=lambda kv: -kv[1])
abbrev pub type_quota : List (MemoryType × ℕ)
type_quota = (decision, 40) ∷ (constraint, 25) ∷ (fact, 20) ∷ (task, 15) ∷ []

-- int(spendable * share)
abbrev pub allowance_of : ℕ → ℕ → ℕ
allowance_of spendable share = spendable * share / 100

abbrev pub id_of : {F : Type 0} → Candidate F → ℕ
id_of c = c.memory.memory_id

abbrev pub content_of : {F : Type 0} → Candidate F → Text
content_of c = c.memory.content

abbrev pub is_among : ℕ → List ℕ → Bool
is_among n ns = any (λ m. m == n) ns

-- a set of ids
abbrev pub add_id : ℕ → List ℕ → List ℕ
add_id n ns = if is_among n ns then ns else n ∷ ns

abbrev pub add_ids : List ℕ → List ℕ → List ℕ
add_ids [] ns = ns
add_ids (m ∷ ms) ns = add_id m (add_ids ms ns)

abbrev pub remove_at : {A : Type 0} → ℕ → List A → List A
remove_at n [] = []
remove_at zero (x ∷ xs) = xs
remove_at (suc n) (x ∷ xs) = x ∷ remove_at n xs

abbrev pub type_order : MemoryType → ℕ
type_order constraint = 0
type_order decision = 1
type_order fact = 2
type_order task = 3

module _ (fl : Floats) (py : Platform) where
  unfoldable pub value_density : Candidate fl.F → fl.F
  value_density c = if c.tokens == 0 then fl.decimal 0 0 else fl.over c.score (fl.of_nat c.tokens)

  -- the MMR value of a candidate beside the texts that are chosen already; MMR_LAMBDA is 0.7
  unfoldable pub mmr_value : List Text → Candidate fl.F → fl.F
  unfolding value_density similarity
  mmr_value chosen_text c =
      let density = value_density c in
      let novelty : fl.F =
        fl.minus (fl.decimal 1 0)
          (max_or fl (fl.decimal 0 0) (map (similarity fl py (content_of c)) chosen_text)) in
      fl.plus (fl.times (fl.decimal 7 1) density) (
        fl.times (fl.times (fl.minus (fl.decimal 1 0) (fl.decimal 7 1)) novelty)
          (if fl.is_zero density then fl.decimal 1 9 else density))

  -- similarity(...) >= DUPLICATE_SIMILARITY for some chosen text
  unfoldable pub is_redundant : List Text → Candidate fl.F → Bool
  unfolding similarity
  is_redundant chosen_text c =
      any (λ text. not (fl.lt (similarity fl py (content_of c) text) (fl.decimal 6 1))) chosen_text

  abbrev pub beats : List Text → Candidate fl.F → Option (ℕ × Candidate fl.F) → Bool
  beats chosen_text c none = fl.lt fl.neg_infinity (mmr_value chosen_text c)
  beats chosen_text c (some (i, best)) =
      fl.lt (mmr_value chosen_text best) (mmr_value chosen_text c)

  -- The scan for the best candidate that still fits, with its place in the list.
  unfoldable pub best_of :
      List Text
      → ℕ
      → ℕ
      → ℕ
      → Option (ℕ × Candidate fl.F)
      → List (Candidate fl.F)
      → Option (ℕ × Candidate fl.F)
  best_of chosen_text allowance spent place best [] = best
  best_of chosen_text allowance spent place best (c ∷ remaining) =
      let better = leb (spent + c.tokens) allowance && beats chosen_text c best in
      best_of chosen_text allowance spent (suc place) (if better then some (place, c) else best)
        remaining

  -- one turn of the loop with the candidate that it found
  unfoldable pub consider : List Text → Candidate fl.F → Filling fl.F → Filling fl.F
  unfolding is_redundant
  consider chosen_text best so_far =
      if is_redundant chosen_text best
      then record so_far { rejected = add_id (id_of best) so_far.rejected }
      else record so_far { taken = so_far.taken ++ best ∷ []; spent = so_far.spent + best.tokens }

  -- `while remaining:`, on fuel: a turn takes one candidate off `remaining` or ends the loop.
  unfoldable pub fill_loop : ℕ → List Text → ℕ → List (Candidate fl.F) → Filling fl.F → Filling fl.F
  unfolding best_of consider
  fill_loop zero before allowance remaining so_far = so_far
  fill_loop (suc fuel) before allowance remaining so_far =
      let chosen_text : List Text = before ++ map content_of so_far.taken in
      elim (best_of chosen_text allowance so_far.spent 0 none remaining) [
        | none ↦ so_far
        | some (i, best) ↦
            fill_loop fuel before allowance (remove_at i remaining)
              (consider chosen_text best so_far)
      ]

  abbrev pub fills_first : Candidate fl.F → Candidate fl.F → Bool
  fills_first a b = ranks_before fl (value_density a) (ltb (id_of a) (id_of b)) (value_density b)

  unfoldable pub fill : List (Candidate fl.F) → ℕ → List (Candidate fl.F) → Filling fl.F
  unfolding fill_loop
  fill pool allowance already =
      let chosen : List ℕ = map id_of already in
      let remaining : List (Candidate fl.F) =
        sort_by fills_first (select_where (λ c. not (is_among (id_of c) chosen)) pool) in
      fill_loop (length remaining) (map content_of already) allowance remaining
        (record { taken = []; spent = 0; rejected = [] })

  -- a pass of `_fill` added to what the passes before it chose
  unfoldable pub add_pass : List (Candidate fl.F) → ℕ → Filling fl.F → Filling fl.F
  unfolding fill
  add_pass pool allowance so_far =
      let pass = fill pool allowance so_far.taken in
      record {
        taken = so_far.taken ++ pass.taken;
        spent = so_far.spent + pass.spent;
        rejected = add_ids pass.rejected so_far.rejected;
      }

  unfoldable pub quota_passes :
      List (Candidate fl.F) → ℕ → List (MemoryType × ℕ) → Filling fl.F → Filling fl.F
  unfolding add_pass
  quota_passes fitting spendable [] so_far = so_far
  quota_passes fitting spendable ((memory_type, share) ∷ quotas) so_far =
      quota_passes fitting spendable quotas (
        add_pass (select_where (λ c. type_eq c.memory.type memory_type) fitting)
          (allowance_of spendable share) so_far)

  -- the redistribution of what the quotas left
  unfoldable pub redistribute : List (Candidate fl.F) → ℕ → Filling fl.F → Filling fl.F
  unfolding add_pass
  redistribute fitting spendable so_far =
      if ltb so_far.spent spendable
      then add_pass
          (select_where
            (λ c.
              not (is_among (id_of c) (map id_of so_far.taken))
              && not (is_among (id_of c) so_far.rejected))
            fitting)
          (spendable - so_far.spent) so_far
      else so_far

  unfoldable pub choose : List (Candidate fl.F) → ℕ → Filling fl.F
  unfolding quota_passes redistribute
  choose fitting spendable =
      redistribute fitting spendable (
        quota_passes fitting spendable type_quota (record { taken = []; spent = 0; rejected = [] }))

  -- the order of a brief: by type, by score, by id
  abbrev pub reads_first : Candidate fl.F → Candidate fl.F → Bool
  reads_first a b =
      let m = type_order a.memory.type in
      let n = type_order b.memory.type in
      ltb m n || (m == n && ranks_before fl a.score (ltb (id_of a) (id_of b)) b.score)

  unfoldable pub stable_order : List (Candidate fl.F) → List (Candidate fl.F)
  stable_order selected = sort_by reads_first selected

  unfoldable pub select : List (Candidate fl.F) → ℕ → Selection fl.F
  unfolding choose stable_order
  select candidates budget =
      let spendable = usable_budget budget in
      let fitting : List (Candidate fl.F) = select_where (λ c. leb c.tokens spendable) candidates in
      let chosen = choose fitting spendable in
      record {
        selected = stable_order chosen.taken;
        tokens_used = chosen.spent;
        budget = budget;
        considered = length candidates;
        dropped = record {
          too_large_alone = length candidates - length fitting;
          too_similar = length chosen.rejected;
          no_budget_left = length fitting - length chosen.taken - length chosen.rejected;
        };
      }
