-- ===== src/Store/Guarantee.antt =====
-- What a transaction guarantees of the database that it commits, one rule for each way to build a
-- transaction. `R before after` is any relation that holds of doing nothing and composes.
use mcp_shared_memory_hub.Prelude.{
  ◌≡◌, refl, subst, inl, inr, Bool, true, false, Option, none, some, arith, if◌then◌else◌,
}
use mcp_shared_memory_hub.Domain.Errors.{Error, Result, ok, err, Result-cases}
use mcp_shared_memory_hub.Store.Tables.{Db}
use mcp_shared_memory_hub.Store.Tx.{
  Tx, continue, undo, committed, pure, raise, lift, gets, savepoint, session_scope, ◌>>=◌,
}

pub record IsStep (R : Db → Db → Type 0) : Type 0 where
  pub stay : (s : Db) → R s s
  pub trans : (s t u : Db) → R s t → R t u → R s u

-- Whenever `m` commits, `R` holds between the database before and after.
pub record Guarantees {A : Type 0} (R : Db → Db → Type 0) (m : Tx A) : Type 0 where
  pub at : (s : Db) (a : A) (s' : Db) → m s ≡ ok (a, s') → R s s'

module _ {A : Type 0} {R : Db → Db → Type 0} where
  pub Guarantees-raise : (e : Error) → Guarantees R (raise {A = A} e)
  unfolding raise
  Guarantees-raise e = record { at = λ s a s' h. absurd (ground arith) }

  pub Guarantees-if :
      (b : Bool) (m k : Tx A) → Guarantees R m → Guarantees R k → Guarantees R (if b then m else k)
  Guarantees-if true m k gm gk = gm
  Guarantees-if false m k gm gk = gk

  module _ (step : IsStep R) where
    pub Guarantees-pure : (a : A) → Guarantees R (pure a)
    unfolding pure
    Guarantees-pure a = record { at = λ s b s' h. subst (R s) (ground arith) (step.stay s) }

    pub Guarantees-gets : (f : Db → A) → Guarantees R (gets f)
    unfolding gets
    Guarantees-gets f = record { at = λ s b s' h. subst (R s) (ground arith) (step.stay s) }

    pub Guarantees-lift : (r : Result A) → Guarantees R (lift r)
    unfolding lift
    Guarantees-lift (ok a) = record { at = λ s b s' h. subst (R s) (ground arith) (step.stay s) }
    Guarantees-lift (err e) = record { at = λ s b s' h. absurd (ground arith) }

    pub Guarantees-savepoint : (m : Tx (Option A)) → Guarantees R m → Guarantees R (savepoint m)
    unfolding savepoint
    Guarantees-savepoint m gm = record { at = λ s a s' h. go s a s' (m s) refl h }
      where
        go :
            (s : Db) (a : Option A) (s' : Db) (r : Result (Option A × Db))
            → m s ≡ r
            → undo s r ≡ ok (a, s')
            → R s s'
        go s a s' (ok (none, t)) e h = subst (R s) (ground arith) (step.stay s)
        go s a s' (ok (some b, t)) e h = subst (R s) (ground arith) (gm.at s (some b) t e)
        go s a s' (err c) e h = absurd (ground arith)

    -- a request that raises changes nothing
    pub Guarantees-session_scope : (m : Tx A) → Guarantees R m → (s : Db) → R s (session_scope m s)
    unfolding session_scope
    Guarantees-session_scope m gm s = elim (Result-cases (m s)) [
      | inl ((a, t), e) ↦ rw (e, committed) (gm.at s a t e)
      | inr (c, e) ↦ rw (e, committed) (step.stay s)
    ]

module _ {A B : Type 0} {R : Db → Db → Type 0} (step : IsStep R) where
  -- the rest of the block may use what `m` returned and where it left the database
  pub Guarantees-bind_of :
      (m : Tx A) (f : A → Tx B)
      → Guarantees R m
      → ((s : Db) (a : A) (s' : Db)
          → m s ≡ ok (a, s')
          → (b : B) (t : Db) → f a s' ≡ ok (b, t)
          → R s' t)
      → Guarantees R (m >>= f)
  unfolding ◌>>=◌
  Guarantees-bind_of m f gm gf = record { at = λ s b t h. go s b t (m s) refl h }
    where
      go :
          (s : Db) (b : B) (t : Db) (r : Result (A × Db))
          → m s ≡ r
          → continue r f ≡ ok (b, t)
          → R s t
      go s b t (ok (a, u)) e h = step.trans s u t (gm.at s a u e) (gf s a u e b t h)
      go s b t (err c) e h = absurd (ground arith)

  pub Guarantees-bind :
      (m : Tx A) (f : A → Tx B)
      → Guarantees R m
      → ((a : A) → Guarantees R (f a))
      → Guarantees R (m >>= f)
  Guarantees-bind m f gm gf = Guarantees-bind_of m f gm (λ s a u e b t h. (gf a).at u b t h)

pub ruleset guarantee_rules = (
  Guarantees-raise, Guarantees-if, Guarantees-pure, Guarantees-gets, Guarantees-lift,
  Guarantees-savepoint, Guarantees-bind,
)

module _ {A : Type 0} {Q R : Db → Db → Type 0} where
  pub Guarantees-weaken :
      (m : Tx A) → ((s t : Db) → Q s t → R s t) → Guarantees Q m → Guarantees R m
  Guarantees-weaken m weaker gm = record { at = λ s a s' h. weaker s s' (gm.at s a s' h) }

-- Inversion of a block that committed.
pub bind-inv :
    {A B : Type 0} (m : Tx A) (f : A → Tx B) (s : Db) {b : B} {t : Db}
    → (m >>= f) s ≡ ok (b, t)
    → (a : A) × (u : Db) × (m s ≡ ok (a, u)) × (f a u ≡ ok (b, t))
unfolding ◌>>=◌
bind-inv m f s h = elim (Result-cases (m s)) [
  | inl ((a, u), e) ↦ (a, u, e, rw e at h)
  | inr (c, e) ↦ absurd (ground arith)
]

pub pure-inv : {A : Type 0} {a b : A} {s t : Db} → pure a s ≡ ok (b, t) → (a ≡ b) × (s ≡ t)
unfolding pure
pure-inv h = (ground arith, ground arith)

pub lift-inv :
    {A : Type 0} (r : Result A) {a : A} {s v : Db} → lift r s ≡ ok (a, v) → (r ≡ ok a) × (s ≡ v)
unfolding lift
lift-inv (ok b) h = (ground arith, ground arith)
lift-inv (err e) h = absurd (ground arith)

pub gets-inv :
    {A : Type 0} (f : Db → A) {b : A} {s t : Db} → gets f s ≡ ok (b, t) → (f s ≡ b) × (s ≡ t)
unfolding gets
gets-inv f h = (ground arith, ground arith)
