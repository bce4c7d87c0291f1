-- ===== src/Domain/Errors.antt =====
-- src/memhub/domain/errors.py and the exception classes of the services: a function that may raise
-- returns a `Result`. An error is known by its code; its message is not modelled.
use mcp_shared_memory_hub.Prelude.{◌≡◌, refl, ◌⊎◌, inl, inr}

-- `integrity_error` is SQLAlchemy's IntegrityError, which a violated constraint of the schema
-- raises; `query_canceled`, `in_failed_transaction` and `database_error` are its DBAPIError with the
-- SQLSTATE 57014, 25P02 or another; `resource_not_found` is the ResourceNotFoundError of
-- the MCP library, and `internal` the bare MemhubError.
pub data Error : Type 0 where
  internal validation_failed project_not_found ambiguous_project project_exists : Error
  memory_not_found idempotency_key_reused integrity_error : Error
  query_canceled in_failed_transaction database_error resource_not_found : Error

pub data Result {ℓ} (A : Type ℓ) : Type ℓ where
  ok : A → Result A
  err : Error → Result A

-- what follows a step that may raise
infixl 5 ◌>>=◌
abbrev pub ◌>>=◌ {ℓ κ} : {A : Type ℓ} {B : Type κ} → Result A → (A → Result B) → Result B
ok value >>= rest = rest value
err raised >>= rest = err raised

pub Result-cases {ℓ} :
    {A : Type ℓ} (r : Result A) → ((a : A) × (r ≡ ok a)) ⊎ ((e : Error) × (r ≡ err e))
Result-cases (ok a) = inl (a, refl)
Result-cases (err e) = inr (e, refl)
