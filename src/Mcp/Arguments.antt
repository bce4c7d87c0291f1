-- ===== src/Mcp/Arguments.antt =====
-- src/memhub/mcp/server.py: the arguments that a tool reads before it calls a service.
use mcp_shared_memory_hub.Prelude.{
  ℕ, ◌≡◌, refl, Option, none, some, List, [], ◌∷◌, Text, text_eq, if◌then◌else◌,
}
use mcp_shared_memory_hub.Domain.Enums.{MemoryType, decision, constraint, fact, task}
use mcp_shared_memory_hub.Domain.Errors.{Result, ok, err, validation_failed, ◌>>=◌}
use mcp_shared_memory_hub.Mcp.Schemas.{type_value}

-- What the handlers take from Python: uuid.UUID(_) with `none` for ValueError, str(uuid) and str.upper.
pub record Reading : Type 0 where
  pub read_uuid : Text → Option ℕ
  pub uuid_text : ℕ → Text
  pub upper : Text → Text

abbrev pub or_invalid {ℓ} : {A : Type ℓ} → Option A → Result A
or_invalid none = err validation_failed
or_invalid (some a) = ok a

unfoldable pub parse_uuid : Reading → Text → Result ℕ
parse_uuid reading value = or_invalid (reading.read_uuid value)

-- MemoryType(_)
abbrev pub type_of_value : Text → Option MemoryType
type_of_value value =
    if text_eq value (type_value decision)
    then some decision
    else if text_eq value (type_value constraint)
    then some constraint
    else if text_eq value (type_value fact)
    then some fact
    else if text_eq value (type_value task)
    then some task
    else none

unfoldable pub parse_type : Reading → Text → Result MemoryType
parse_type reading value = or_invalid (type_of_value (reading.upper value))

-- [_parse_type(t) for t in types]
unfoldable pub parse_types : Reading → List Text → Result (List MemoryType)
unfolding parse_type
parse_types reading [] = ok []
parse_types reading (value ∷ values) = do
  t ← parse_type reading value
  rest ← parse_types reading values
  ok (t ∷ rest)

unfoldable pub parse_uuids : Reading → List Text → Result (List ℕ)
unfolding parse_uuid
parse_uuids reading [] = ok []
parse_uuids reading (value ∷ values) = do
  n ← parse_uuid reading value
  rest ← parse_uuids reading values
  ok (n ∷ rest)

pub type_of_value-type_value : (t : MemoryType) → type_of_value (type_value t) ≡ some t
unfolding text_eq
type_of_value-type_value decision = refl
type_of_value-type_value constraint = refl
type_of_value-type_value fact = refl
type_of_value-type_value task = refl
