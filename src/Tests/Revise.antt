-- ===== src/Tests/Revise.antt =====
-- A `revise` of the small store's memory that comes too late, and its retry.
use mcp_shared_memory_hub.Prelude.{◌≡◌, refl, true, none, some, List, [], ◌∷◌, arith}
use mcp_shared_memory_hub.Domain.Enums.{agent}
use mcp_shared_memory_hub.Domain.Errors.{ok}
use mcp_shared_memory_hub.Domain.Models.{revise_succeeded, revise_conflicted}
use mcp_shared_memory_hub.Domain.Normalize.{hash_version, content_hash}
use mcp_shared_memory_hub.Domain.Unicode.{strip, lstrip_by, rstrip_by}
use mcp_shared_memory_hub.Domain.Validation.{validate_content, validate_tags, collect_tags}
use mcp_shared_memory_hub.Store.Tables.{AuditAction, AuditOutcome, AuditEvent, Db}
use mcp_shared_memory_hub.Store.Tx.{lift, ◌>>=◌}
use mcp_shared_memory_hub.Store.Audit.{record_event}
use mcp_shared_memory_hub.Store.Memories.{
  Edit, current_revisions, get, cas_revise, append_revision, compare_and_set, storable, text_fits,
}
use mcp_shared_memory_hub.Services.Memories.{ReviseRequest, to_view, claim_for}
use mcp_shared_memory_hub.Services.Revise.{
  revise_edit, report_conflict, report, revise_claimed, revise,
}
use mcp_shared_memory_hub.Services.Revise.Conflict.{noted}
use mcp_shared_memory_hub.Services.Revise.Merged.{with_edit, conflict_merged}
use mcp_shared_memory_hub.Tests.Data.{
  plain, here, other_note, claude, small_db, small_db-IsWellFormed, first_memory, its_revision,
}
use mcp_shared_memory_hub.Store.Invariant.{IsWellFormed}
use mcp_shared_memory_hub.Store.Race.{EditFits}
use mcp_shared_memory_hub.Store.Register.{
  Attempt, Holds, swap, swap_all, attempt_all, attempt_all-swap_all,
}
use mcp_shared_memory_hub.Tests.Data.{first_note, other_edit}

abbrev too_late : ReviseRequest
too_late = record {
  expected_revision = 4;
  content = other_note;
  tags = [];
  change_reason = none;
  source = none;
  author_client = claude;
  author_kind = agent;
  client_request_id = none;
  request_id = none;
  embedding_model = some claude;
}

abbrev pub its_edit : Edit
its_edit = record {
  content = other_note;
  content_hash = content_hash plain other_note;
  hash_version = hash_version;
  tags = [];
  change_reason = none;
  author_client = claude;
  author_kind = agent;
  source = none;
}

abbrev its_event : AuditEvent
its_event = record {
  at = 10;
  project_id = some 1;
  memory_id = some 7;
  revision_no = some 1;
  action = AuditAction.revise;
  outcome = AuditOutcome.conflict;
  actor_client = claude;
  request_id = none;
}

accepted : revise_edit here too_late ≡ ok its_edit
unfolding revise_edit strip lstrip_by rstrip_by validate_content validate_tags collect_tags
accepted = refl

conflicts :
    revise here 1 7 too_late small_db
    ≡ ok (revise_conflicted (to_view (first_memory, its_revision)) 4, noted its_event small_db)
unfolding revise revise_edit strip lstrip_by rstrip_by validate_content validate_tags collect_tags
    lift claim_for revise_claimed report report_conflict get current_revisions cas_revise
    append_revision compare_and_set record_event ◌>>=◌
conflicts = refl

pub its_texts_fit :
    storable its_edit.content its_edit.tags its_edit.change_reason its_edit.source
      its_edit.author_client
    ≡ true
unfolding storable text_fits
its_texts_fit = refl

conflict_merged_example :
    (u : Db) × (revise here 1 7
        (record too_late { expected_revision = 1 })
        (record (noted its_event small_db) { now = 12 })
      ≡ ok (revise_succeeded (with_edit its_edit (to_view (first_memory, its_revision))) 1, u))
conflict_merged_example =
    conflict_merged here here 1 7 too_late too_late its_edit 12 small_db (noted its_event small_db)
      (to_view (first_memory, its_revision)) 4 small_db-IsWellFormed refl conflicts refl refl
      accepted its_texts_fit refl

-- two clients that saw revision 1
abbrev two_attempts : List Attempt
two_attempts =
    (record { now = 20; expected = 1; edit = other_edit })
    ∷ (record { now = 30; expected = 1; edit = other_edit })
    ∷ []

small_db-Holds : Holds 1 7 small_db (record { number = 1; content = first_note })
small_db-Holds = record {
  row = first_memory;
  revision = its_revision;
  log = [];
  rows = refl;
  log_is = refl;
  mine = refl;
  active = refl;
  number = refl;
  content = refl;
}

pub other_edit-EditFits : EditFits other_edit
unfolding storable text_fits
other_edit-EditFits = record {
  some_content = omega arith;
  short_content = omega arith;
  few_tags = omega arith;
  fit_texts = refl;
}

attempt_all-swap_all_example :
    (t : Db) × (attempt_all 1 7 two_attempts small_db ≡ ok (some 2 ∷ none ∷ [], t))
    × IsWellFormed t
    × Holds 1 7 t (record { number = 2; content = other_note })
unfolding swap swap_all
attempt_all-swap_all_example =
    attempt_all-swap_all 1 7 two_attempts (record { number = 1; content = first_note }) small_db
      small_db-IsWellFormed small_db-Holds (other_edit-EditFits, (other_edit-EditFits, tt))
