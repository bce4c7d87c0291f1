-- ===== src/Mcp/Mapping.antt =====
-- src/memhub/mcp/mapping.py and src/memhub/persistence/sqlstate.py: which error a client is shown. The
-- messages are not modelled.
use mcp_shared_memory_hub.Prelude.{
  Bool, true, false, ◌||◌, Option, none, some, List, [], ◌∷◌, Text, codes, text_eq, any,
  if◌then◌else◌,
}
use mcp_shared_memory_hub.Domain.Errors.{
  Error, internal, validation_failed, project_not_found, ambiguous_project, project_exists,
  memory_not_found, idempotency_key_reused, integrity_error, query_canceled, in_failed_transaction,
  database_error, resource_not_found,
}

-- sqlstate.py
abbrev pub query_canceled_state : Text
query_canceled_state = codes "57014"

abbrev pub in_failed_transaction_state : Text
in_failed_transaction_state = codes "25P02"

abbrev pub admin_shutdown : Text
admin_shutdown = codes "57P01"

abbrev pub connection_lost : List Text
connection_lost = codes "08006" ∷ codes "08003" ∷ codes "08000" ∷ admin_shutdown ∷ []

-- The exceptions that reach a handler: a domain error; SQLAlchemy's pool TimeoutError; a bare
-- ConnectionError or gaierror; a DBAPIError, with the `sqlstate` of its `orig`, its
-- `connection_invalidated` and whether `orig` is itself a socket error; or any other.
pub data Exception : Type 0 where
  memhub : Error → Exception
  pool_timeout socket_error other : Exception
  dbapi : (sqlstate : Option Text) → (invalidated : Bool) → (orig_is_socket : Bool) → Exception

-- the four infrastructure errors of domain/errors.py
pub data Infrastructure : Type 0 where
  backend_busy backend_unavailable deadline_exceeded unknown_outcome : Infrastructure

abbrev pub state_is : Text → Option Text → Bool
state_is code none = false
state_is code (some sqlstate) = text_eq sqlstate code

abbrev pub is_connection_lost : Option Text → Bool
is_connection_lost none = false
is_connection_lost (some sqlstate) = any (text_eq sqlstate) connection_lost

unfoldable pub classify_infrastructure_error : Exception → Option Infrastructure
classify_infrastructure_error pool_timeout = some backend_busy
classify_infrastructure_error socket_error = some backend_unavailable
classify_infrastructure_error (memhub e) = none
classify_infrastructure_error other = none
classify_infrastructure_error (dbapi sqlstate invalidated orig_is_socket) =
    if state_is query_canceled_state sqlstate
    then some deadline_exceeded
    else if invalidated
    then some unknown_outcome
    else if is_connection_lost sqlstate || orig_is_socket
    then some backend_unavailable
    else none

-- the detail `retryable`
abbrev pub retryable : Infrastructure → Bool
retryable backend_busy = true
retryable backend_unavailable = true
retryable deadline_exceeded = false
retryable unknown_outcome = false

abbrev pub infrastructure_code : Infrastructure → Text
infrastructure_code backend_busy = codes "BACKEND_BUSY"
infrastructure_code backend_unavailable = codes "BACKEND_UNAVAILABLE"
infrastructure_code deadline_exceeded = codes "DEADLINE_EXCEEDED"
infrastructure_code unknown_outcome = codes "UNKNOWN_OUTCOME"

-- How an error of a transaction stands as an exception: the code of a MemhubError, or the SQLSTATE of
-- a DBAPIError on a connection that is still there.
abbrev pub code_of : Error → Option Text
code_of internal = some (codes "INTERNAL")
code_of validation_failed = some (codes "VALIDATION_FAILED")
code_of project_not_found = some (codes "PROJECT_NOT_FOUND")
code_of ambiguous_project = some (codes "AMBIGUOUS_PROJECT")
code_of project_exists = some (codes "PROJECT_EXISTS")
code_of memory_not_found = some (codes "MEMORY_NOT_FOUND")
code_of idempotency_key_reused = some (codes "IDEMPOTENCY_KEY_REUSED")
code_of integrity_error = none
code_of query_canceled = none
code_of in_failed_transaction = none
code_of database_error = none
code_of resource_not_found = none

abbrev pub exception_of : Error → Exception
exception_of query_canceled = dbapi (some query_canceled_state) false false
exception_of in_failed_transaction = dbapi (some in_failed_transaction_state) false false
exception_of integrity_error = dbapi (some (codes "23000")) false false
exception_of database_error = dbapi none false false
exception_of resource_not_found = other
exception_of e = memhub e

-- what leaves a tool: a ToolError with its code, or the exception as it is
pub data Reported : Type 0 where
  tool_error : (code : Text) → Reported
  propagated : Exception → Reported

abbrev pub or_propagated : Exception → Option Text → Reported
or_propagated e none = propagated e
or_propagated e (some code) = tool_error code

abbrev pub classified : Exception → Option Infrastructure → Reported
classified e none = propagated e
classified e (some i) = tool_error (infrastructure_code i)

-- the handlers of `domain_errors`
unfoldable pub domain_errors : Exception → Reported
unfolding classify_infrastructure_error
domain_errors (memhub e) = or_propagated (memhub e) (code_of e)
domain_errors pool_timeout = classified pool_timeout (classify_infrastructure_error pool_timeout)
domain_errors socket_error = classified socket_error (classify_infrastructure_error socket_error)
domain_errors other = classified other (classify_infrastructure_error other)
domain_errors (dbapi sqlstate invalidated orig_is_socket) =
    classified (dbapi sqlstate invalidated orig_is_socket)
      (classify_infrastructure_error (dbapi sqlstate invalidated orig_is_socket))
