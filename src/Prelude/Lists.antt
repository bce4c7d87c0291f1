-- ===== src/Prelude/Lists.antt =====
-- Lists as the program's sequences and tables: native lengths, SQL's WHERE and UPDATE, and the
-- laws that let a statement about one row be read off the whole table.
use Prim.Native.Nat.{ℕ, zero, suc}
use mathlib.Core.Path.{◌≡◌, refl}
use mathlib.Core.Bool.{Bool, true, false, ◌&&◌, ◌||◌}
use mathlib.Core.List.{List, [], ◌∷◌, ◌++◌}
use mathlib.Core.Option.{Option, none, some}
use native.Mathlib.Omega.{arith}
use mathlib.Core.Logic.{inl, inr}
use mcp_shared_memory_hub.Prelude.Tests.{if◌then◌else◌, ◌==◌, Bool-cases}

module _ {ℓ} {A : Type ℓ} where
  abbrev pub length : List A → ℕ
  length [] = 0
  length (x ∷ xs) = suc (length xs)

  abbrev pub take : ℕ → List A → List A
  take zero xs = []
  take (suc n) [] = []
  take (suc n) (x ∷ xs) = x ∷ take n xs

  -- the first row of a result, if there is one
  abbrev pub first : List A → Option A
  first [] = none
  first (x ∷ xs) = some x

  abbrev pub is_empty : List A → Bool
  is_empty [] = true
  is_empty (x ∷ xs) = false

  abbrev pub any : (A → Bool) → List A → Bool
  any p [] = false
  any p (x ∷ xs) = p x || any p xs

  -- SELECT ... WHERE p
  abbrev pub select_where : (A → Bool) → List A → List A
  select_where p [] = []
  select_where p (x ∷ xs) = if p x then x ∷ select_where p xs else select_where p xs

  -- UPDATE ... SET f WHERE p
  abbrev pub update_where : (A → Bool) → (A → A) → List A → List A
  update_where p f [] = []
  update_where p f (x ∷ xs) = (if p x then f x else x) ∷ update_where p f xs

  -- DELETE ... WHERE p
  abbrev pub delete_where : (A → Bool) → List A → List A
  delete_where p [] = []
  delete_where p (x ∷ xs) = if p x then delete_where p xs else x ∷ delete_where p xs

abbrev pub All {ℓ κ} : {A : Type ℓ} → (A → Type κ) → List A → Type κ
All P [] = Unit
All P (x ∷ xs) = P x × All P xs

-- A table seen at one value of a key column. Every statement below that names a key acts on the
-- rows at that key and leaves the rows at every other key alone.
module _ {ℓ} {A : Type ℓ} (key : A → ℕ) where
  abbrev pub at : ℕ → List A → List A
  at m = select_where (λ r. key r == m)

  pub select-at :
      (k : ℕ) (q : A → Bool) (xs : List A)
      → select_where (λ r. key r == k && q r) xs ≡ select_where q (at k xs)
  select-at k q [] = refl
  select-at k q (x ∷ xs) = ground (arith, select-at k q xs)

  pub at-update :
      (k m : ℕ) (q : A → Bool) (f : A → A) (xs : List A)
      → ((x : A) → key (f x) ≡ key x)
      → at m (update_where (λ r. key r == k && q r) f xs)
        ≡ (if m == k then update_where q f (at m xs) else at m xs)
  at-update k m q f [] h = ground arith
  at-update k m q f (x ∷ xs) h = ground (arith, at-update k m q f xs h, h x)

  pub at-delete :
      (k m : ℕ) (q : A → Bool) (xs : List A)
      → at m (delete_where (λ r. key r == k && q r) xs)
        ≡ (if m == k then delete_where q (at m xs) else at m xs)
  at-delete k m q [] = ground arith
  at-delete k m q (x ∷ xs) = ground (arith, at-delete k m q xs)

pub select-append {ℓ} :
    {A : Type ℓ} (p : A → Bool) (xs ys : List A)
    → select_where p (xs ++ ys) ≡ select_where p xs ++ select_where p ys
select-append p [] ys = refl
select-append p (x ∷ xs) ys = ground (arith, select-append p xs ys)

pub at-head {ℓ} :
    {A : Type ℓ} (key : A → ℕ) (k : ℕ) (xs : List A) {x : A} {ys : List A}
    → at key k xs ≡ x ∷ ys
    → (key x == k) ≡ true
at-head key k [] h = absurd (ground arith)
at-head key k (z ∷ xs) h = elim (Bool-cases (key z == k)) [
  | inl e ↦ ground arith
  | inr e ↦ at-head key k xs (rw e at h)
]
