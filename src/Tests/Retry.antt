-- ===== src/Tests/Retry.antt =====
-- Retries of `remember` on the small store.
use mcp_shared_memory_hub.Prelude.{◌∷◌, some, ◌≡◌, refl, none, [], true, Text, text_eq}
use mcp_shared_memory_hub.Domain.Errors.{Result, ok, err, internal}
use mcp_shared_memory_hub.Domain.Unicode.{strip, lstrip_by, rstrip_by}
use mcp_shared_memory_hub.Domain.Models.{RememberResult, created, deduplicated}
use mcp_shared_memory_hub.Domain.Normalize.{
  content_hash, normalize_content, tidy, collapse_from, is_trailing,
}
use mcp_shared_memory_hub.Domain.Validation.{
  validate_content, validate_tags, collect_tags, validate_importance, resolve_expiry,
}
use mcp_shared_memory_hub.Domain.Enums.{fact, agent}
use mcp_shared_memory_hub.Store.Tables.{Db}
use mcp_shared_memory_hub.Store.Tx.{savepoint, lift, ◌>>=◌}
use mcp_shared_memory_hub.Store.Audit.{record_event}
use mcp_shared_memory_hub.Store.Memories.{
  new_memory, first_revision, Draft, create, insert_memory, memory_allowed, insert_revision,
  revision_allowed, get, current_revisions, storable, text_fits,
}
use mcp_shared_memory_hub.Store.Dedup.{claim_dedup_key, dedup_key_holder}
use mcp_shared_memory_hub.Store.Attestation.{attest, upsert_attestation, attestation_count}
use mcp_shared_memory_hub.Services.Idempotency.{
  validate_key, claim, claim_loop, claim_idempotency, complete, fingerprint,
}
use mcp_shared_memory_hub.Services.Memories.{
  to_view, get_memory, deduplicate, apply_supersession, supersede_each, enqueue_for, complete_for,
  claim_for,
}
use mcp_shared_memory_hub.Services.Remember.{
  remember_draft, speculate, assert_again, assert_new, new_or_again, remember_claimed, remember,
}
use mcp_shared_memory_hub.Services.Retry.{
  replay_answer, remember_retried, remember_deduplicated_retried,
}
use mcp_shared_memory_hub.Services.Acceptance.{speculate_lem}
use mcp_shared_memory_hub.Services.Retry.Granted.{at_time}
use mcp_shared_memory_hub.Tests.Data.{
  small_db-IsWellFormed, here, asking, first_note, other_note, claude, first_note, key, small_db,
  first_memory, its_revision,
}

-- what a request answered, and the database that it left
abbrev answer_of : Result (RememberResult × Db) → RememberResult × Db
answer_of (ok answer) = answer
answer_of (err e) = (
  record {
    memory = to_view (first_memory, its_revision);
    outcome = created;
    superseded = [];
    not_superseded = [];
    attestation_count = 0;
  },
  small_db,
)

abbrev ran : Text → RememberResult × Db
ran content = answer_of (remember (at_time here 10) 8 1 (asking content) small_db)

key_accepted : validate_key key ≡ ok key
unfolding validate_key strip lstrip_by rstrip_by
key_accepted = refl

abbrev drafted : Text → Draft
drafted content = record {
  memory_type = fact;
  content = content;
  content_hash = content;
  hash_version = 1;
  tags = [];
  importance = 50;
  expires_at = none;
  author_client = claude;
  author_kind = agent;
  source = none;
}

new_drafted : remember_draft (at_time here 12) (asking other_note) ≡ ok (drafted other_note)
unfolding text_eq strip lstrip_by rstrip_by content_hash normalize_content tidy collapse_from
    is_trailing validate_content validate_tags collect_tags validate_importance resolve_expiry
    remember_draft
new_drafted = refl

old_drafted : remember_draft (at_time here 12) (asking first_note) ≡ ok (drafted first_note)
unfolding text_eq strip lstrip_by rstrip_by content_hash normalize_content tidy collapse_from
    is_trailing validate_content validate_tags collect_tags validate_importance resolve_expiry
    remember_draft
old_drafted = refl

creates : remember (at_time here 10) 8 1 (asking other_note) small_db ≡ ok (ran other_note)
unfolding text_eq strip lstrip_by rstrip_by content_hash normalize_content tidy collapse_from
    is_trailing validate_content validate_tags collect_tags validate_importance resolve_expiry
    savepoint lift ◌>>=◌ record_event create insert_memory memory_allowed insert_revision storable
    text_fits revision_allowed get current_revisions claim_dedup_key dedup_key_holder attest
    upsert_attestation attestation_count validate_key claim claim_loop claim_idempotency complete
    fingerprint get_memory deduplicate apply_supersession supersede_each enqueue_for complete_for
    claim_for remember_draft speculate assert_again assert_new new_or_again remember_claimed
    remember
creates = refl

creates_new : (ran other_note).0.outcome ≡ created
unfolding text_eq strip lstrip_by rstrip_by content_hash normalize_content tidy collapse_from
    is_trailing validate_content validate_tags collect_tags validate_importance resolve_expiry
    savepoint lift ◌>>=◌ record_event create insert_memory memory_allowed insert_revision storable
    text_fits revision_allowed get current_revisions claim_dedup_key dedup_key_holder attest
    upsert_attestation attestation_count validate_key claim claim_loop claim_idempotency complete
    fingerprint get_memory deduplicate apply_supersession supersede_each enqueue_for complete_for
    claim_for remember_draft speculate assert_again assert_new new_or_again remember_claimed
    remember
creates_new = refl

remember_retried_example :
    remember (at_time here 12) 9 1 (asking other_note) (ran other_note).1
    ≡ replay_answer here 8 1 (asking other_note) key (ran other_note).1
remember_retried_example =
    remember_retried here 8 9 1 10 12 (asking other_note) key small_db (ran other_note).1
      (ran other_note).1 (ran other_note).0 (drafted other_note) key_accepted refl creates
      creates_new refl new_drafted

deduplicates : remember (at_time here 10) 8 1 (asking first_note) small_db ≡ ok (ran first_note)
unfolding text_eq strip lstrip_by rstrip_by content_hash normalize_content tidy collapse_from
    is_trailing validate_content validate_tags collect_tags validate_importance resolve_expiry
    savepoint lift ◌>>=◌ record_event create insert_memory memory_allowed insert_revision storable
    text_fits revision_allowed get current_revisions claim_dedup_key dedup_key_holder attest
    upsert_attestation attestation_count validate_key claim claim_loop claim_idempotency complete
    fingerprint get_memory deduplicate apply_supersession supersede_each enqueue_for complete_for
    claim_for remember_draft speculate assert_again assert_new new_or_again remember_claimed
    remember
deduplicates = refl

finds_old : (ran first_note).0.outcome ≡ deduplicated
unfolding text_eq strip lstrip_by rstrip_by content_hash normalize_content tidy collapse_from
    is_trailing validate_content validate_tags collect_tags validate_importance resolve_expiry
    savepoint lift ◌>>=◌ record_event create insert_memory memory_allowed insert_revision storable
    text_fits revision_allowed get current_revisions claim_dedup_key dedup_key_holder attest
    upsert_attestation attestation_count validate_key claim claim_loop claim_idempotency complete
    fingerprint get_memory deduplicate apply_supersession supersede_each enqueue_for complete_for
    claim_for remember_draft speculate assert_again assert_new new_or_again remember_claimed
    remember
finds_old = refl

remember_deduplicated_retried_example :
    remember (at_time here 12) 9 1 (asking first_note) (ran first_note).1 ≡ err internal
remember_deduplicated_retried_example =
    remember_deduplicated_retried here 8 9 1 10 12 (asking first_note) key small_db
      (ran first_note).1 (ran first_note).1 (ran first_note).0 (drafted first_note) key_accepted
      refl deduplicates finds_old refl old_drafted

abbrev speculated_db : Db
speculated_db = record small_db {
  memories = new_memory 8 1 (drafted other_note) 10 ∷ small_db.memories;
  memory_revisions = first_revision 8 1 (drafted other_note) 10 ∷ small_db.memory_revisions;
  memory_dedup_keys =
      record { project_id = 1; hash_version = 1; content_hash = other_note; memory_id = 8 }
      ∷ small_db.memory_dedup_keys;
}

new_texts_fit :
    storable
      (drafted other_note).content
      (drafted other_note).tags
      none
      (drafted other_note).source
      (drafted other_note).author_client
    ≡ true
unfolding storable text_fits
new_texts_fit = refl

speculate_lem_example :
    speculate 8 1 (drafted other_note) small_db
    ≡ ok (
      some (new_memory 8 1 (drafted other_note) 10, first_revision 8 1 (drafted other_note) 10),
      speculated_db,
    )
unfolding text_eq
speculate_lem_example =
    speculate_lem (at_time here 12) (asking other_note) (drafted other_note) 8 1 small_db
      new_drafted new_texts_fit small_db-IsWellFormed refl refl
