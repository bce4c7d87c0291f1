-- ===== src/Context/Settled.antt =====
-- src/memhub/context/builder.py: the scan of `_fill` and one turn, for a candidate that is left out.
use mcp_shared_memory_hub.Prelude.{
  ℕ, zero, suc, ◌+◌, ◌≡◌, refl, sym, subst, ◌⊎◌, inl, inr, Bool, true, false, ◌&&◌, ◌||◌, Option,
  none, some, List, [], ◌∷◌, ◌++◌, map, arith, leb, ltb, ◌==◌, ==_refl, ==_iff, Text, length, All,
  select_where, sort_by, insert_sorted, Bool-cases, if◌then◌else◌,
}
use mcp_shared_memory_hub.Domain.Unicode.{Platform}
use mcp_shared_memory_hub.Context.Floats.{Floats}
use mcp_shared_memory_hub.Context.Builder.{
  Candidate, Filling, id_of, is_among, add_id, add_ids, remove_at, mmr_value, beats, best_of,
  consider,
}

-- it is taken, too similar to what is taken, or does not fit what is left
abbrev pub is_settled : {F : Type 0} → ℕ → Filling F → Candidate F → Bool
is_settled allowance filling c =
    is_among (id_of c) (map id_of filling.taken)
    || (is_among (id_of c) filling.rejected || ltb allowance (filling.spent + c.tokens))

-- whatever was taken before, its MMR value is above the initial `float("-inf")`
abbrev pub IsFinite : (fl : Floats) → Platform → Candidate fl.F → Type 0
IsFinite fl py c = (texts : List Text) → fl.lt fl.neg_infinity (mmr_value fl py texts c) ≡ true

-- `b` stands at place `i`
abbrev pub Picks : {A : Type 0} → ℕ → A → List A → Type 0
Picks i b [] = ⊥
Picks zero b (x ∷ xs) = x ≡ b
Picks (suc i) b (x ∷ xs) = Picks i b xs

pub All-back :
    {A : Type 0} (P : A → Type 0) (i : ℕ) (b : A) (xs : List A)
    → Picks i b xs
    → P b
    → All P (remove_at i xs)
    → All P xs
All-back P i b [] h p all = absurd h
All-back P zero b (x ∷ xs) h p all = (subst P (sym h) p, all)
All-back P (suc i) b (x ∷ xs) h p all = (all.0, All-back P i b xs h p all.1)

pub All-select :
    {A : Type 0} (P : A → Type 0) (q : A → Bool) (xs : List A)
    → All P xs
    → All P (select_where q xs)
All-select P q [] h = tt
All-select P q (x ∷ xs) h = elim (Bool-cases (q x)) [
  | inl e ↦ rw e (h.0, All-select P q xs h.1)
  | inr e ↦ rw e (All-select P q xs h.1)
]

pub All-removed :
    {A : Type 0} (P : A → Type 0) (i : ℕ) (xs : List A) → All P xs → All P (remove_at i xs)
All-removed P i [] h = tt
All-removed P zero (x ∷ xs) h = h.1
All-removed P (suc i) (x ∷ xs) h = (h.0, All-removed P i xs h.1)

pub length-removed :
    {A : Type 0} (i : ℕ) (b : A) (xs : List A)
    → Picks i b xs
    → suc (length (remove_at i xs)) ≡ length xs
length-removed i b [] h = absurd h
length-removed zero b (x ∷ xs) h = omega arith
length-removed (suc i) b (x ∷ xs) h = ground (arith, length-removed i b xs h)

pub is_among-append :
    {F : Type 0} (n : ℕ) (xs ys : List (Candidate F))
    → is_among n (map id_of (xs ++ ys)) ≡ (is_among n (map id_of xs) || is_among n (map id_of ys))
is_among-append n [] ys = refl
is_among-append n (x ∷ xs) ys = ground (arith, is_among-append n xs ys)

is_among-add_id : (n m : ℕ) (ns : List ℕ) → is_among n ns ≡ true → is_among n (add_id m ns) ≡ true
is_among-add_id n m ns h = elim (Bool-cases (is_among m ns)) [
  | inl e ↦ rw e h
  | inr e ↦ rw e (ground arith)
]

add_id_self : (m : ℕ) (ns : List ℕ) → is_among m (add_id m ns) ≡ true
add_id_self m ns = elim (Bool-cases (is_among m ns)) [
  | inl e ↦ rw e e
  | inr e ↦ rw e (ground (arith, ==_refl m))
]

-- a union of sets
pub is_among-add_ids :
    (n : ℕ) (ms ns : List ℕ)
    → (is_among n ms || is_among n ns) ≡ true
    → is_among n (add_ids ms ns) ≡ true
is_among-add_ids n [] ns h = h
is_among-add_ids n (m ∷ ms) ns h = elim (Bool-cases (m == n)) [
  | inl e ↦
      subst (λ k. is_among k (add_id m (add_ids ms ns)) ≡ true) ((==_iff m n).0 e)
        (add_id_self m (add_ids ms ns))
  | inr e ↦ is_among-add_id n m (add_ids ms ns) (is_among-add_ids n ms ns (ground arith))
]

module _ {A : Type 0} (P : A → Type 0) where
  All-uninsert :
      (before : A → A → Bool) (x : A) (ys : List A)
      → All P (insert_sorted before x ys)
      → P x × All P ys
  unfolding insert_sorted
  All-uninsert before x [] h = h
  All-uninsert before x (y ∷ ys) h = elim (Bool-cases (before y x)) [
    | inl e ↦
        let k : All P (y ∷ insert_sorted before x ys) = rw e at h in
        let (p, all) = All-uninsert before x ys k.1 in (p, (k.0, all))
    | inr e ↦ let k : All P (x ∷ y ∷ ys) = rw e at h in k
  ]

  pub All-unsort : (before : A → A → Bool) (xs : List A) → All P (sort_by before xs) → All P xs
  unfolding sort_by
  All-unsort before [] h = tt
  All-unsort before (x ∷ xs) h =
      let (p, all) = All-uninsert before x (sort_by before xs) h in (p, All-unsort before xs all)

  pub All-where :
      (q : A → Bool) (xs : List A) → All P (select_where q xs) → All (λ x. (q x ≡ false) ⊎ P x) xs
  All-where q [] h = tt
  All-where q (x ∷ xs) h = elim (Bool-cases (q x)) [
    | inl e ↦ let k : All P (x ∷ select_where q xs) = rw e at h in (inr k.0, All-where q xs k.1)
    | inr e ↦ (inl e, All-where q xs (rw e at h))
  ]

module _ (fl : Floats) (py : Platform) where
  pub consider-keeps :
      (chosen_text : List Text) (best c : Candidate fl.F) (allowance : ℕ) (so_far : Filling fl.F)
      → is_settled allowance so_far c ≡ true
      → is_settled allowance (consider fl py chosen_text best so_far) c ≡ true
  unfolding consider
  consider-keeps chosen_text best c allowance so_far h = ground (
    arith,
    is_among-append (id_of c) so_far.taken (best ∷ []),
    is_among-add_id (id_of c) (id_of best) so_far.rejected,
  )

  pub consider-settles :
      (chosen_text : List Text) (best : Candidate fl.F) (allowance : ℕ) (so_far : Filling fl.F)
      → is_settled allowance (consider fl py chosen_text best so_far) best ≡ true
  unfolding consider
  consider-settles chosen_text best allowance so_far = ground (
    arith,
    is_among-append (id_of best) so_far.taken (best ∷ []),
    add_id_self (id_of best) so_far.rejected,
    ==_refl (id_of best),
  )

  -- the scan keeps a candidate once it has one
  best_of-some :
      (chosen_text : List Text) (allowance spent place : ℕ) (x : ℕ × Candidate fl.F)
      (remaining : List (Candidate fl.F))
      → best_of fl py chosen_text allowance spent place (some x) remaining ≡ none
      → ⊥
  unfolding best_of
  best_of-some chosen_text allowance spent place x [] h = absurd (ground arith)
  best_of-some chosen_text allowance spent place x (c ∷ remaining) h =
      elim (Bool-cases (leb (spent + c.tokens) allowance && beats fl py chosen_text c (some x))) [
        | inl e ↦
            best_of-some chosen_text allowance spent (suc place) (place, c) remaining (rw e at h)
        | inr e ↦ best_of-some chosen_text allowance spent (suc place) x remaining (rw e at h)
      ]

  -- The scan that finds nothing has seen nothing that fits.
  pub best_of-none :
      (chosen_text : List Text) (allowance spent place : ℕ) (remaining : List (Candidate fl.F))
      → All (IsFinite fl py) remaining
      → best_of fl py chosen_text allowance spent place none remaining ≡ none
      → All (λ c. ltb allowance (spent + c.tokens) ≡ true) remaining
  unfolding best_of
  best_of-none chosen_text allowance spent place [] finite h = tt
  best_of-none chosen_text allowance spent place (c ∷ remaining) finite h =
      elim (Bool-cases (leb (spent + c.tokens) allowance)) [
        | inl e ↦ absurd (
            best_of-some chosen_text allowance spent (suc place) (place, c) remaining
              (rw (e, finite.0 chosen_text) at h))
        | inr e ↦ (
          ground arith,
          best_of-none chosen_text allowance spent (suc place) remaining finite.1 (rw e at h),
        )
      ]

  -- What the scan finds stands where it says.
  pub best_of-Picks :
      (chosen_text : List Text) (allowance spent place k : ℕ) (b : Candidate fl.F)
      (best : Option (ℕ × Candidate fl.F)) (remaining : List (Candidate fl.F))
      → best_of fl py chosen_text allowance spent place best remaining ≡ some (k, b)
      → (best ≡ some (k, b)) ⊎ ((j : ℕ) × (place + j ≡ k) × Picks j b remaining)
  unfolding best_of
  best_of-Picks chosen_text allowance spent place k b best [] h = inl h
  best_of-Picks chosen_text allowance spent place k b best (c ∷ remaining) h =
      go (leb (spent + c.tokens) allowance && beats fl py chosen_text c best)
        (best_of-Picks chosen_text allowance spent (suc place) k b _ remaining h)
    where
      go :
          (better : Bool)
          → ((if better then some (place, c) else best) ≡ some (k, b))
            ⊎ ((j : ℕ) × (suc place + j ≡ k) × Picks j b remaining)
          → (best ≡ some (k, b)) ⊎ ((j : ℕ) × (place + j ≡ k) × Picks j b (c ∷ remaining))
      go better (inr (j, e, picks)) = inr (suc j, omega (arith, e), picks)
      go true (inl e) = inr (0, ground arith, ground arith)
      go false (inl e) = inl e
