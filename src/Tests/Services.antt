-- ===== src/Tests/Services.antt =====
-- The services on the small store.
use mcp_shared_memory_hub.Prelude.{
  ◌≡◌, refl, false, none, some, [], ◌∷◌, Text, any, update_where, text_eq, All,
}
use mcp_shared_memory_hub.Domain.Errors.{
  ok, err, idempotency_key_reused, internal, memory_not_found,
}
use mcp_shared_memory_hub.Store.Memories.{current_revisions}
use mcp_shared_memory_hub.Store.Tables.{Operation, Response, AuditAction, AuditOutcome, Db}
use mcp_shared_memory_hub.Store.Tx.{◌>>=◌}
use mcp_shared_memory_hub.Store.Audit.{record_event}
use mcp_shared_memory_hub.Store.Dedup.{release_dedup_keys}
use mcp_shared_memory_hub.Store.Retirement.{cas_forget, release_if, exists}
use mcp_shared_memory_hub.Services.Forget.{forget}
use mcp_shared_memory_hub.Domain.Models.{forgotten}
use mcp_shared_memory_hub.Domain.Enums.{deleted}
use mcp_shared_memory_hub.Store.Race.{race, race_one_winner}
use mcp_shared_memory_hub.Store.Invariant.{IsWellFormed}
use mcp_shared_memory_hub.Store.Permanence.{IsPermanent}
use mcp_shared_memory_hub.Services.Requests.{serve_all}
use mcp_shared_memory_hub.Services.Requests.Keeps.{Rely}
use mcp_shared_memory_hub.Services.WellFormed.{well_formed_step, serve_all-IsWellFormed}
use mcp_shared_memory_hub.Services.Permanent.{permanent_step, serve_all-IsPermanent}
use mcp_shared_memory_hub.Services.Remember.{assert_again}
use mcp_shared_memory_hub.Services.Expiry.{expired_reasserted}
use mcp_shared_memory_hub.Tests.Revise.{other_edit-EditFits}
use mcp_shared_memory_hub.Tests.Data.{
  first_note, note_draft, asking, small_db, small_db-IsWellFormed, other_edit, two_arrivals,
  first_memory, key, claude, forgotten_db, forgotten_memory, forgotten_db-IsWellFormed,
}
use mcp_shared_memory_hub.Services.Retrieval.{is_of, retired_never_retrieved}
use mcp_shared_memory_hub.Services.Replay.{quiet, complete_padded, claim-complete-claim, unchanged}
use mcp_shared_memory_hub.Services.Idempotency.{
  claimed, claim, claim_loop, claim_idempotency, complete, complete_key, id_matches, new_key,
  validate_key,
}
use mcp_shared_memory_hub.Services.Forgotten.{forgotten_never_retrieved}
use mcp_shared_memory_hub.Store.Retirement
use mcp_shared_memory_hub.Domain.Unicode.{strip, lstrip_by, rstrip_by}

pub quiet_well : All (Rely well_formed_step) two_arrivals
quiet_well = ((λ i s. well_formed_step.step.stay s), ((λ i s. well_formed_step.step.stay s), tt))

pub quiet_permanent : All (Rely permanent_step) two_arrivals
quiet_permanent = ((λ i s. permanent_step.step.stay s), ((λ i s. permanent_step.step.stay s), tt))

serve_all-IsWellFormed_example : IsWellFormed (serve_all two_arrivals small_db)
serve_all-IsWellFormed_example =
    serve_all-IsWellFormed two_arrivals small_db quiet_well small_db-IsWellFormed

serve_all-IsPermanent_example : IsPermanent small_db (serve_all two_arrivals small_db)
serve_all-IsPermanent_example = serve_all-IsPermanent two_arrivals small_db quiet_permanent

race_one_winner_example :
    (s' : Db) × (race 1 7 1 ((20, other_edit) ∷ (21, other_edit) ∷ []) small_db
      ≡ ok (some 2 ∷ none ∷ [], s'))
race_one_winner_example =
    race_one_winner 1 7 1 20 other_edit ((21, other_edit) ∷ []) small_db first_memory
      small_db-IsWellFormed refl refl other_edit-EditFits

key_accepted : validate_key key ≡ ok key
unfolding validate_key strip lstrip_by rstrip_by
key_accepted = refl

retired_never_retrieved_example :
    any (is_of 7) (current_revisions 1 false (serve_all two_arrivals forgotten_db)) ≡ false
retired_never_retrieved_example =
    retired_never_retrieved two_arrivals forgotten_db 7 1 quiet_well quiet_permanent
      forgotten_db-IsWellFormed (forgotten_memory, refl, refl)

abbrev after_forget : Db
after_forget = record small_db {
  memories = record first_memory { status = deleted; deleted_at = some 10; updated_at = 10 } ∷ [];
  memory_dedup_keys = [];
  audit_events =
      (record {
        at = 10;
        project_id = some 1;
        memory_id = some 7;
        revision_no = none;
        action = AuditAction.forget;
        outcome = AuditOutcome.ok;
        actor_client = claude;
        request_id = none;
      })
      ∷ [];
}

forgets : forget 1 7 claude none small_db ≡ ok (forgotten, after_forget)
unfolding forget Retirement.forget cas_forget release_if release_dedup_keys exists record_event
    ◌>>=◌
forgets = refl

forgotten_never_retrieved_example :
    any (is_of 7) (current_revisions 1 false (serve_all two_arrivals after_forget)) ≡ false
forgotten_never_retrieved_example =
    forgotten_never_retrieved 1 7 1 claude none small_db after_forget forgotten two_arrivals
      small_db-IsWellFormed forgets quiet_well quiet_permanent

abbrev granted_db : Db
granted_db = record small_db { idempotency_keys = new_key 1 key Operation.remember [] 10 ∷ [] }

granted : claim quiet 1 key Operation.remember [] small_db ≡ ok (claimed, granted_db)
unfolding claim claim_loop claim_idempotency validate_key strip lstrip_by rstrip_by ◌>>=◌
granted = refl

abbrev told : Response
told = record { memory_id = 7; revision_no = 1 }

abbrev done_db : Db
done_db = record small_db {
  idempotency_keys =
      update_where (id_matches 1 key) (complete_key told 10) granted_db.idempotency_keys;
}

claim-complete-claim_example :
    (complete 1 key told granted_db ≡ ok (tt, done_db))
    × (claim quiet 1 key Operation.revise [] done_db
        ≡ unchanged done_db (err idempotency_key_reused))
unfolding text_eq
claim-complete-claim_example =
    claim-complete-claim 1 Operation.remember [] key small_db granted_db granted_db done_db told
      Operation.revise [] key_accepted granted refl refl

abbrev padded_key : Text
padded_key = b' ' ∷ key

padded_accepted : validate_key padded_key ≡ ok key
unfolding validate_key strip lstrip_by rstrip_by
padded_accepted = refl

padded_granted : claim quiet 1 padded_key Operation.remember [] small_db ≡ ok (claimed, granted_db)
unfolding claim claim_loop claim_idempotency validate_key strip lstrip_by rstrip_by ◌>>=◌
padded_granted = refl

complete_padded_example : complete 1 padded_key told granted_db ≡ err internal
unfolding text_eq
complete_padded_example =
    complete_padded 1 Operation.remember [] padded_key key small_db granted_db granted_db told
      padded_accepted refl padded_granted refl refl

-- the small store, after its memory has expired
abbrev expired_db : Db
expired_db = record small_db { memories = record first_memory { expires_at = some 9 } ∷ [] }

expired_reasserted_example :
    assert_again 1 note_draft (asking first_note) expired_db ≡ err memory_not_found
unfolding text_eq
expired_reasserted_example =
    expired_reasserted 1 7 note_draft (asking first_note)
      (record { project_id = 1; hash_version = 1; content_hash = first_note; memory_id = 7 }) []
      expired_db refl refl refl
