-- ===== src/Tests/Mcp.antt =====
-- Calls of the tools on the small store.
use mcp_shared_memory_hub.Prelude.{
  ℕ, ◌≡◌, ◌≢◌, refl, true, subst, inl, inr, Bool-cases, ==_iff, ◌==◌, false, Option, none, some,
  List, [], ◌∷◌, Text, text_eq, sort_by, insert_sorted, All, arith,
}
use mcp_shared_memory_hub.Store.Tables.{Db}
use mcp_shared_memory_hub.Store.Tx.{lift, session_scope, ◌>>=◌}
use mcp_shared_memory_hub.Store.Invariant.{rows_of, log_of, keys_of, IsSound, IsWellFormed}
use mcp_shared_memory_hub.Store.Permanence.{IsPermanent}
use mcp_shared_memory_hub.Store.Memories.{
  current_revisions, get, unexpired, cas_revise, append_revision, compare_and_set,
}
use mcp_shared_memory_hub.Store.Search.{passes_filters, matching, search_rows}
use mcp_shared_memory_hub.Store.Coverage.{semantic_coverage}
use mcp_shared_memory_hub.Store.Audit.{record_event}
use mcp_shared_memory_hub.Store.Dedup.{release_dedup_keys}
use mcp_shared_memory_hub.Store.Retirement
use mcp_shared_memory_hub.Store.Retirement.{cas_forget, release_if, exists}
use mcp_shared_memory_hub.Retrieval.Fusion.{
  add_score, add_ranking, add_rankings, position, reciprocal_rank_fusion,
}
use mcp_shared_memory_hub.Retrieval.Semantic.{search_by_vector}
use mcp_shared_memory_hub.Services.Memories.{to_view}
use mcp_shared_memory_hub.Services.Forget.{forget}
use mcp_shared_memory_hub.Services.WellFormed.{well_formed_step}
use mcp_shared_memory_hub.Services.Permanent.{permanent_step}
use mcp_shared_memory_hub.Services.Search.{MatchStrategy, SearchResult}
use mcp_shared_memory_hub.Services.Hybrid.{
  embedded_leg, vector_leg, statement, fetch_missing, hydrate, fused_ids, fuse, hybrid_search,
}
use mcp_shared_memory_hub.Mcp.Schemas.{ReviseOut, memory_out, revise_out, search_out}
use mcp_shared_memory_hub.Mcp.Arguments.{Reading, parse_uuid, parse_types}
use mcp_shared_memory_hub.Mcp.Calls.{
  World, Call, MemoryRevise, memory_revise, revise_answer, memory_search, memory_forget, Answer,
  search_answer,
}
use mcp_shared_memory_hub.Mcp.Server.{
  Visit, search_with, handle_memory_search, handle_memory_forget, handle_memory_revise, handle,
  fields_fit, serve_call, serve_calls, answered, reply,
}
use mcp_shared_memory_hub.Mcp.Refines.{Trusts}
use mcp_shared_memory_hub.Mcp.Shown.{shown, retrieves}
use mcp_shared_memory_hub.Domain.Errors.{ok}
use mcp_shared_memory_hub.Domain.Models.{revise_conflicted}
use mcp_shared_memory_hub.Domain.Unicode.{strip, lstrip_by, rstrip_by}
use mcp_shared_memory_hub.Domain.Validation.{validate_content, validate_tags, collect_tags}
use mcp_shared_memory_hub.Services.Memories.{claim_for}
use mcp_shared_memory_hub.Services.Revise.{
  revise_edit, report_conflict, report, revise_claimed, revise,
}
use mcp_shared_memory_hub.Mcp.Merge.{asked, merged_out, later, again, conflict_answered}
use mcp_shared_memory_hub.Tests.Revise.{its_edit, its_texts_fit}
use mcp_shared_memory_hub.Mcp.Promise.{calls_lasting, retired_never_shown}
use mcp_shared_memory_hub.Tests.Data.{
  claude, first_note, other_note, here, small_db, small_db-IsWellFormed, first_memory, its_revision,
  forgotten_memory, forgotten_db,
}
use mcp_shared_memory_hub.Tests.Hybrid.{engines, embedder}

abbrev pub one_letter : ℕ → Text
one_letter n = n ∷ []

abbrev pub its_letter : Text → Option ℕ
its_letter [] = none
its_letter (n ∷ text) = some n

abbrev letters : Reading
letters = record { read_uuid = its_letter; uuid_text = one_letter; upper = λ t. t }

abbrev server : World
server = record {
  reading = letters;
  env = here;
  new_id = 9;
  engines = engines;
  embedder = some embedder;
  slug_before = λ a b. false;
}

-- a second memory of the project, beside the one that was forgotten
abbrev two_db : Db
two_db = record forgotten_db {
  memories = forgotten_memory ∷ record first_memory { id = 8 } ∷ [];
  memory_revisions = its_revision ∷ record its_revision { memory_id = 8 } ∷ [];
}

two_db-IsWellFormed : IsWellFormed two_db
two_db-IsWellFormed m = elim (Bool-cases (7 == m)) [
  | inl e ↦
      subst (λ k. IsSound (rows_of k two_db) (log_of k two_db) (keys_of k two_db))
        ((==_iff 7 m).0 e) ((refl, refl, refl, refl), tt, (refl, (9, refl)))
  | inr e ↦ elim (Bool-cases (8 == m)) [
    | inl e' ↦ rw (e, e') ((refl, refl, refl, refl), tt, (refl, refl, refl))
    | inr e' ↦ rw (e, e') (refl, refl)
  ]
]

abbrev search_call : Call
search_call =
    memory_search
      (record { project_id = 1 ∷ []; query = some first_note; types = []; tags = []; limit = 5 })

-- a client forgets the forgotten memory once more
abbrev one_visit : List Visit
one_visit =
    (record { world = server; now = 20; call = memory_forget (1 ∷ []) (7 ∷ []) claude }) ∷ []

visit_trusted_well : Trusts well_formed_step one_visit
visit_trusted_well = ((λ i s. well_formed_step.step.stay s), tt)

visit_trusted_permanent : Trusts permanent_step one_visit
visit_trusted_permanent = ((λ i s. permanent_step.step.stay s), tt)

calls_lasting_example :
    IsWellFormed (serve_calls one_visit two_db) × IsPermanent two_db (serve_calls one_visit two_db)
calls_lasting_example =
    calls_lasting one_visit two_db visit_trusted_well visit_trusted_permanent two_db-IsWellFormed

abbrev other_memory : SearchResult
other_memory = record {
  memories = to_view (record first_memory { id = 8 }, record its_revision { memory_id = 8 }) ∷ [];
  total_considered = 1;
  match_strategy = MatchStrategy.hybrid;
  semantic_coverage = some (record { numerator = 0; denominator = 1 });
  degraded = none;
}

abbrev the_answer : Answer
the_answer = search_answer (search_out one_letter other_memory)

replied :
    reply server search_call (record (serve_calls one_visit two_db) { now = 30 })
    ≡ answered the_answer
unfolding text_eq sort_by insert_sorted ◌>>=◌ lift current_revisions get passes_filters matching
    search_rows semantic_coverage search_by_vector embedded_leg vector_leg statement fetch_missing
    hydrate fused_ids fuse hybrid_search add_score add_ranking add_rankings position
    reciprocal_rank_fusion serve_calls serve_call fields_fit handle handle_memory_search
    handle_memory_forget forget Retirement.forget cas_forget release_if release_dedup_keys exists
    record_event reply search_with search_out parse_uuid parse_types session_scope
replied = refl

retired_never_shown_example : All (λ i. i ≢ one_letter 7) (shown the_answer)
unfolding retrieves search_out
retired_never_shown_example =
    retired_never_shown one_visit two_db server search_call 7 30 the_answer visit_trusted_well
      visit_trusted_permanent two_db-IsWellFormed (forgotten_memory, refl, refl)
      (λ n same. ground arith) refl replied

abbrev late_args : MemoryRevise
late_args = record {
  project_id = 1 ∷ [];
  memory_id = 7 ∷ [];
  expected_revision = 4;
  content = other_note;
  tags = [];
  change_reason = none;
  client = claude;
  client_request_id = none;
}

abbrev conflict_out : ReviseOut
conflict_out = revise_out one_letter (revise_conflicted (to_view (first_memory, its_revision)) 4)

refused_late :
    reply server (memory_revise late_args) small_db ≡ answered (revise_answer conflict_out)
unfolding reply fields_fit handle handle_memory_revise parse_uuid lift revise revise_edit strip
    lstrip_by rstrip_by validate_content validate_tags collect_tags claim_for revise_claimed report
    report_conflict get current_revisions cas_revise append_revision compare_and_set record_event
    ◌>>=◌
refused_late = refl

told : conflict_out.current_revision ≡ some 1
unfolding revise_out
told = refl

not_expired : unexpired 12 conflict_out.memory.expires_at ≡ true
unfolding revise_out memory_out
not_expired = refl

accepted_late : revise_edit here (asked (later server here none) late_args) ≡ ok its_edit
unfolding revise_edit strip lstrip_by rstrip_by validate_content validate_tags collect_tags
accepted_late = refl

conflict_answered_example :
    reply
      (later server here none)
      (memory_revise (again late_args late_args 1))
      (record (serve_call server (memory_revise late_args) small_db) { now = 12 })
    ≡ answered (revise_answer (merged_out its_edit conflict_out 1))
conflict_answered_example =
    conflict_answered server here none late_args late_args its_edit 12 small_db conflict_out 1
      small_db-IsWellFormed refl refused_late told not_expired refl accepted_late its_texts_fit
