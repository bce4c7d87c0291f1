-- ===== src/Context/Diversity.antt =====
-- `_fill` of src/memhub/context/builder.py: its fuel, and what it rejects as redundant.
use mcp_shared_memory_hub.Prelude.{
  ℕ, zero, suc, ◌+◌, ◌≤◌, ◌<◌, ◌≡◌, refl, sym, subst, ap, inl, inr, Bool, true, false, ◌&&◌, Option,
  none, some, List, [], ◌∷◌, ◌++◌, map, arith, leb, ltb, Text, length, select_where, Bool-cases,
  if◌then◌else◌,
}
use mcp_shared_memory_hub.Domain.Enums.{MemoryType, type_eq}
use mcp_shared_memory_hub.Domain.Unicode.{Platform}
use mcp_shared_memory_hub.Context.Floats.{Floats}
use mcp_shared_memory_hub.Context.Builder.{
  Candidate, Filling, content_of, remove_at, beats, best_of, is_redundant, consider, fill_loop,
  add_pass, quota_passes, redistribute, choose, type_quota, allowance_of,
}
use mcp_shared_memory_hub.Context.Fill.{fill-keeps}

module _ (fl : Floats) (py : Platform) where
  -- the place of the best candidate is one of the list's
  abbrev PlaceBelow : ℕ → Option (ℕ × Candidate fl.F) → Type 0
  PlaceBelow n none = Unit
  PlaceBelow n (some (i, c)) = i < n

  best_of-PlaceBelow :
      (chosen_text : List Text) (allowance spent place n : ℕ) (best : Option (ℕ × Candidate fl.F))
      (remaining : List (Candidate fl.F))
      → place + length remaining ≤ n
      → PlaceBelow n best
      → PlaceBelow n (best_of fl py chosen_text allowance spent place best remaining)
  unfolding best_of
  best_of-PlaceBelow chosen_text allowance spent place n best [] room below = below
  best_of-PlaceBelow chosen_text allowance spent place n best (c ∷ remaining) room below =
      best_of-PlaceBelow chosen_text allowance spent (suc place) n _ remaining (omega (arith, room))
        (go (leb (spent + c.tokens) allowance && beats fl py chosen_text c best))
    where
      go : (b : Bool) → PlaceBelow n (if b then some (place, c) else best)
      go true = omega (arith, room)
      go false = below

  length-remove_at :
      {A : Type 0} (i : ℕ) (xs : List A) → i < length xs → suc (length (remove_at i xs)) ≡ length xs
  length-remove_at i [] h = absurd (omega (arith, h))
  length-remove_at zero (x ∷ xs) h = omega arith
  length-remove_at (suc i) (x ∷ xs) h = ground (arith, length-remove_at i xs)

  -- Fuel for as many turns as there are candidates is enough: more changes nothing.
  pub fill_loop-enough :
      (fuel big : ℕ) (before : List Text) (allowance : ℕ) (remaining : List (Candidate fl.F))
      (so_far : Filling fl.F)
      → length remaining ≤ fuel
      → fuel ≤ big
      → fill_loop fl py big before allowance remaining so_far
        ≡ fill_loop fl py fuel before allowance remaining so_far
  unfolding fill_loop best_of
  fill_loop-enough zero zero before allowance remaining so_far enough le = refl
  fill_loop-enough zero (suc big) before allowance [] so_far enough le = refl
  fill_loop-enough zero (suc big) before allowance (c ∷ cs) so_far enough le =
      absurd (omega (arith, enough))
  fill_loop-enough (suc fuel) zero before allowance remaining so_far enough le =
      absurd (omega (arith, le))
  fill_loop-enough (suc fuel) (suc big) before allowance remaining so_far enough le =
      go
        (best_of fl py (before ++ map content_of so_far.taken) allowance so_far.spent 0 none
          remaining)
        refl
        (λ rest filling k.
          fill_loop-enough fuel big before allowance rest filling k (omega (arith, le)))
    where
      chosen_text : List Text
      chosen_text = before ++ map content_of so_far.taken

      go :
          (o : Option (ℕ × Candidate fl.F))
          → best_of fl py chosen_text allowance so_far.spent 0 none remaining ≡ o
          → ((rest : List (Candidate fl.F)) (filling : Filling fl.F)
              → length rest ≤ fuel
              → fill_loop fl py big before allowance rest filling
                ≡ fill_loop fl py fuel before allowance rest filling)
          → fill_loop fl py (suc big) before allowance remaining so_far
            ≡ fill_loop fl py (suc fuel) before allowance remaining so_far
      go none e again = rw (fill_loop, e) refl
      go (some (i, best)) e again =
          let below = subst (PlaceBelow (length remaining)) e (
            best_of-PlaceBelow chosen_text allowance so_far.spent 0 (length remaining) none
              remaining (omega arith) tt) in
          let shorter = length-remove_at i remaining below in
          rw (fill_loop, e)
            (again (remove_at i remaining) (consider fl py chosen_text best so_far)
              (omega (arith, shorter, enough)))

  -- no memory says what one before it in the list, or one of the texts, says
  abbrev pub IsDiverse : List Text → List (Candidate fl.F) → Type 0
  IsDiverse before [] = Unit
  IsDiverse before (c ∷ cs) =
      (is_redundant fl py before c ≡ false) × IsDiverse (before ++ content_of c ∷ []) cs

  append_assoc : {A : Type 0} (xs ys zs : List A) → (xs ++ ys) ++ zs ≡ xs ++ (ys ++ zs)
  append_assoc [] ys zs = refl
  append_assoc (x ∷ xs) ys zs = ap (λ l. x ∷ l) (append_assoc xs ys zs)

  append_nil : {A : Type 0} (xs : List A) → xs ++ [] ≡ xs
  append_nil [] = refl
  append_nil (x ∷ xs) = ap (λ l. x ∷ l) (append_nil xs)

  map-append :
      (xs ys : List (Candidate fl.F))
      → map content_of (xs ++ ys) ≡ map content_of xs ++ map content_of ys
  map-append [] ys = refl
  map-append (x ∷ xs) ys = ap (λ l. content_of x ∷ l) (map-append xs ys)

  IsDiverse-snoc :
      (before : List Text) (xs : List (Candidate fl.F)) (c : Candidate fl.F)
      → IsDiverse before xs
      → is_redundant fl py (before ++ map content_of xs) c ≡ false
      → IsDiverse before (xs ++ c ∷ [])
  IsDiverse-snoc before [] c h fresh =
      (subst (λ t. is_redundant fl py t c ≡ false) (append_nil before) fresh, tt)
  IsDiverse-snoc before (x ∷ xs) c h fresh = (
    h.0,
    IsDiverse-snoc (before ++ content_of x ∷ []) xs c h.1 (
        subst (λ t. is_redundant fl py t c ≡ false)
          (sym (append_assoc before (content_of x ∷ []) (map content_of xs))) fresh),
  )

  consider-IsDiverse :
      (already : List (Candidate fl.F)) (best : Candidate fl.F) (so_far : Filling fl.F)
      → IsDiverse [] (already ++ so_far.taken)
      → IsDiverse [] (
          already
          ++ (consider fl py
              (map content_of already ++ map content_of so_far.taken)
              best
              so_far).taken)
  unfolding consider
  consider-IsDiverse already best so_far h =
      elim (Bool-cases
        (is_redundant fl py (map content_of already ++ map content_of so_far.taken) best)) [
          | inl e ↦ rw e h
          | inr e ↦ rw e (
              subst (IsDiverse []) (append_assoc already so_far.taken (best ∷ [])) (
                IsDiverse-snoc [] (already ++ so_far.taken) best h (
                  subst (λ t. is_redundant fl py t best ≡ false)
                    (sym (map-append already so_far.taken)) e)))
        ]

  add_pass-IsDiverse :
      (pool : List (Candidate fl.F)) (allowance : ℕ) (so_far : Filling fl.F)
      → IsDiverse [] so_far.taken
      → IsDiverse [] (add_pass fl py pool allowance so_far).taken
  unfolding add_pass
  add_pass-IsDiverse pool allowance so_far h =
      fill-keeps fl py (λ st. IsDiverse [] (so_far.taken ++ st.taken)) pool allowance so_far.taken
        (λ st best fits k. consider-IsDiverse so_far.taken best st k)
        (subst (IsDiverse []) (sym (append_nil so_far.taken)) h)

  quota_passes-IsDiverse :
      (fitting : List (Candidate fl.F)) (spendable : ℕ) (quotas : List (MemoryType × ℕ))
      (so_far : Filling fl.F)
      → IsDiverse [] so_far.taken
      → IsDiverse [] (quota_passes fl py fitting spendable quotas so_far).taken
  unfolding quota_passes
  quota_passes-IsDiverse fitting spendable [] so_far h = h
  quota_passes-IsDiverse fitting spendable ((memory_type, share) ∷ quotas) so_far h =
      quota_passes-IsDiverse fitting spendable quotas
        (add_pass fl py (select_where (λ c. type_eq c.memory.type memory_type) fitting)
          (allowance_of spendable share) so_far)
        (add_pass-IsDiverse _ _ so_far h)

  -- In the order in which they are chosen, over all quotas and the redistribution, no memory of a
  -- selection is as similar as the threshold to one that was chosen before it.
  pub choose-IsDiverse :
      (fitting : List (Candidate fl.F)) (spendable : ℕ)
      → IsDiverse [] (choose fl py fitting spendable).taken
  unfolding choose redistribute
  choose-IsDiverse fitting spendable =
      let so_far =
        quota_passes fl py fitting spendable type_quota
          (record { taken = []; spent = 0; rejected = [] }) in
      let h =
        quota_passes-IsDiverse fitting spendable type_quota
          (record { taken = []; spent = 0; rejected = [] }) tt in
      elim (Bool-cases (ltb so_far.spent spendable)) [
        | inl e ↦ rw e (add_pass-IsDiverse _ _ so_far h)
        | inr e ↦ rw e h
      ]
