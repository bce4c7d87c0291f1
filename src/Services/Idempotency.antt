-- ===== src/Services/Idempotency.antt =====
-- src/memhub/services/idempotency.py: a retried request replays its stored response.
use mcp_shared_memory_hub.Prelude.{
  ℕ, zero, suc, ◌+◌, Bool, true, false, not, ◌&&◌, ◌||◌, Option, none, some, List, ◌∷◌, leb, ltb,
  ◌==◌, Text, text_eq, length, take, first, any, select_where, update_where, delete_where,
  if◌then◌else◌,
}
use Prim.Native.String.{String}
use mcp_shared_memory_hub.Domain.Enums.{MemoryType}
use mcp_shared_memory_hub.Domain.Errors.{
  Result, ok, err, internal, validation_failed, idempotency_key_reused, integrity_error,
}
use mcp_shared_memory_hub.Domain.Unicode.{Platform, strip}
use mcp_shared_memory_hub.Store.Tables.{
  Operation, KeyState, completed, in_progress, Response, IdempotencyKey, Db,
}
use mcp_shared_memory_hub.Store.Tx.{Tx, done, pure, raise, modify, gets, lift, ◌>>=◌, ◌>>◌}

abbrev pub min_key_length : ℕ
min_key_length = 8

abbrev pub max_key_length : ℕ
max_key_length = 128

abbrev pub max_claim_attempts : ℕ
max_claim_attempts = 3

pub data ClaimOutcome : Type 0 where
  claimed : ClaimOutcome
  replayed : Response → ClaimOutcome

-- The values of a payload: a memory type, a string, a number, a list of strings, a UUID.
pub data Json : Type 0 where
  type_value : MemoryType → Json
  str : Text → Json
  uuid : ℕ → Json
  num : ℕ → Json
  strs : List Text → Json

abbrev pub Payload : Type 0
Payload = List (String × Json)

-- json.dumps(_, sort_keys=True, separators=(",", ":"), default=str)
abbrev pub Dumps : Type 0
Dumps = Payload → Text

unfoldable pub fingerprint : Platform → Dumps → Payload → Text
fingerprint py dumps payload = py.sha256 (dumps payload)

unfoldable pub validate_key : Text → Result Text
validate_key client_request_id =
    let value = strip client_request_id in
    if leb min_key_length (length value) && leb (length value) max_key_length
    then ok value
    else err validation_failed

abbrev pub op_eq : Operation → Operation → Bool
op_eq Operation.remember Operation.remember = true
op_eq Operation.revise Operation.revise = true
op_eq _ _ = false

-- the primary key of `idempotency_keys`
abbrev pub id_matches : ℕ → Text → IdempotencyKey → Bool
id_matches project_id key k = k.project_id == project_id && text_eq k.client_request_id key

abbrev pub week : ℕ
week = 604800000000

abbrev pub new_key : ℕ → Text → Operation → Text → ℕ → IdempotencyKey
new_key project_id key operation request_fingerprint now = record {
  project_id = project_id;
  client_request_id = key;
  operation = operation;
  request_fingerprint = request_fingerprint;
  state = in_progress;
  response = none;
  completed_at = none;
  expires_at = now + week;
}

-- sql/claim_idempotency.sql
unfoldable pub claim_idempotency : ℕ → Text → Operation → Text → Tx Bool
claim_idempotency project_id key operation request_fingerprint db =
    if any (id_matches project_id key) db.idempotency_keys
    then done false db
    else if any (λ p. p.id == project_id) db.projects
        && leb min_key_length (length key)
        && leb (length key) max_key_length
    then done true (record db {
      idempotency_keys =
          new_key project_id key operation request_fingerprint db.now ∷ db.idempotency_keys;
    })
    else err integrity_error

-- sql/wait_idempotency.sql
unfoldable pub wait_idempotency : ℕ → Text → Tx (Option IdempotencyKey)
wait_idempotency project_id key =
    gets λ db. first (select_where (id_matches project_id key) db.idempotency_keys)

unfoldable pub stored_response : KeyState → Option Response → Tx ClaimOutcome
stored_response completed (some response) = pure (replayed response)
stored_response completed none = raise internal
stored_response in_progress response = raise internal

-- what the loop does with the row that it waited for
unfoldable pub settle : Operation → Text → Tx ClaimOutcome → Option IdempotencyKey → Tx ClaimOutcome
settle operation request_fingerprint again none = again
settle operation request_fingerprint again (some k) =
    if not (text_eq k.request_fingerprint request_fingerprint) || not (op_eq k.operation operation)
    then raise idempotency_key_reused
    else stored_response k.state k.response

-- The loop of `claim`. `others` is what other transactions commit while this one waits, at the
-- attempt with that many left.
unfoldable pub claim_loop : (ℕ → Db → Db) → ℕ → ℕ → Text → Operation → Text → Tx ClaimOutcome
claim_loop others zero project_id key operation request_fingerprint = raise internal
claim_loop others (suc left) project_id key operation request_fingerprint =
    let again = claim_loop others left project_id key operation request_fingerprint in
    do
      owned ← claim_idempotency project_id key operation request_fingerprint
      if owned then pure claimed else do
        modify (others left)
        existing ← wait_idempotency project_id key
        settle operation request_fingerprint again existing

unfoldable pub claim : (ℕ → Db → Db) → ℕ → Text → Operation → Text → Tx ClaimOutcome
claim others project_id client_request_id operation request_fingerprint = do
  key ← lift (validate_key client_request_id)
  claim_loop others max_claim_attempts project_id key operation request_fingerprint

abbrev pub complete_key : Response → ℕ → IdempotencyKey → IdempotencyKey
complete_key response now k = record k {
  state = completed;
  response = some response;
  completed_at = some now;
}

-- `complete` looks its key up as the caller sent it.
unfoldable pub complete : ℕ → Text → Response → Tx (Unit {0})
complete project_id client_request_id response db =
    if any (id_matches project_id client_request_id) db.idempotency_keys
    then done tt (record db {
      idempotency_keys =
          update_where (id_matches project_id client_request_id) (complete_key response db.now)
            db.idempotency_keys;
    })
    else err internal

abbrev pub is_doomed : List IdempotencyKey → IdempotencyKey → Bool
is_doomed doomed k = any (λ d. id_matches d.project_id d.client_request_id k) doomed

-- LIMIT picks any of the expired rows: here, the first ones of the table
unfoldable pub purge_expired : ℕ → Tx ℕ
purge_expired limit db =
    let doomed = take limit (select_where (λ k. ltb k.expires_at db.now) db.idempotency_keys) in
    done (length (select_where (is_doomed doomed) db.idempotency_keys))
      (record db { idempotency_keys = delete_where (is_doomed doomed) db.idempotency_keys })
