-- ===== src/Services/Requests/Keeps.antt =====
-- The relations between databases that requests and histories keep.
use mcp_shared_memory_hub.Prelude.{
  ℕ, refl, Bool, true, false, Option, none, some, List, [], ◌∷◌, Text, All,
}
use mcp_shared_memory_hub.Domain.Errors.{memory_not_found}
use mcp_shared_memory_hub.Store.Tables.{Memory, MemoryRevision, Operation, Response, Db}
use mcp_shared_memory_hub.Store.Guarantee.{
  Guarantees, Guarantees-pure, Guarantees-raise, Guarantees-bind, Guarantees-session_scope,
  guarantee_rules,
}
use mcp_shared_memory_hub.Store.Memories.{Draft, Edit}
use mcp_shared_memory_hub.Store.Dedup.{dedup_key_holder}
use mcp_shared_memory_hub.Store.Retirement
use mcp_shared_memory_hub.Services.Idempotency.{ClaimOutcome, claimed, replayed, Payload}
use mcp_shared_memory_hub.Services.Memories.{
  Env, RememberRequest, ReviseRequest, get_memory, replay_memory, deduplicate, note_supersession,
  supersede_one, supersede_each, apply_supersession, claim_for,
}
use mcp_shared_memory_hub.Services.Remember.{
  assert_again, assert_new, new_or_again, remember_claimed, remember,
}
use mcp_shared_memory_hub.Services.Revise.{
  report_conflict, report_success, report, revise_claimed, revise,
}
use mcp_shared_memory_hub.Services.Forget.{known_or_missing, forget}
use mcp_shared_memory_hub.Services.Steps.{
  IsStoreStep, attest-keeps, event-keeps, enqueue-keeps, complete-keeps, or_missing-keeps,
  get-keeps, claim-keeps,
}
use mcp_shared_memory_hub.Services.Requests.{
  Request, remembering, revising, forgetting, Arrival, serve_request, serve, serve_all,
}

module _ {R : Db → Db → Type 0} (keeps : IsStoreStep R) where
  get_memory-keeps : (project_id memory_id : ℕ) → Guarantees R (get_memory project_id memory_id)
  unfolding get_memory
  get_memory-keeps project_id memory_id = search (guarantee_rules, keeps.step, get-keeps keeps)

  replay-keeps :
      (project_id : ℕ) (response : Response) → Guarantees R (replay_memory project_id response)
  unfolding replay_memory
  replay-keeps project_id response =
      search (guarantee_rules, keeps.step, get_memory-keeps, or_missing-keeps keeps)

  deduplicate-keeps :
      (project_id holder_id : ℕ) (request : RememberRequest)
      → Guarantees R (deduplicate project_id holder_id request)
  unfolding deduplicate
  deduplicate-keeps project_id holder_id request =
      search
        (
          guarantee_rules,
          keeps.step,
          get_memory-keeps,
          or_missing-keeps keeps,
          attest-keeps keeps,
          event-keeps keeps,
        )
        depth 8

  assert_again-keeps :
      (project_id : ℕ) (draft : Draft) (request : RememberRequest)
      → Guarantees R (assert_again project_id draft request)
  unfolding assert_again dedup_key_holder
  assert_again-keeps project_id draft request =
      search (guarantee_rules, keeps.step, or_missing-keeps keeps, deduplicate-keeps)

  note-keeps :
      (project_id target : ℕ) (client : Text) (request_id : Option Text) (hit : Bool)
      → Guarantees R (note_supersession project_id target client request_id hit)
  unfolding note_supersession
  note-keeps project_id target client request_id true = search (event-keeps keeps)
  note-keeps project_id target client request_id false = Guarantees-pure keeps.step _

  supersede_one-keeps :
      (project_id winner_id : ℕ) (client : Text) (request_id : Option Text) (target : ℕ)
      → Guarantees R (supersede_one project_id winner_id client request_id target)
  unfolding supersede_one
  supersede_one-keeps project_id winner_id client request_id target =
      search (guarantee_rules, keeps.step, keeps.supersedes, note-keeps)

  supersede_each-keeps :
      (project_id winner_id : ℕ) (client : Text) (request_id : Option Text) (targets : List ℕ)
      → Guarantees R (supersede_each project_id winner_id client request_id targets)
  unfolding supersede_each
  supersede_each-keeps project_id winner_id client request_id [] = Guarantees-pure keeps.step _
  supersede_each-keeps project_id winner_id client request_id (target ∷ targets) =
      Guarantees-bind keeps.step _ _
        (supersede_one-keeps project_id winner_id client request_id target)
        λ hit.
          Guarantees-bind keeps.step _ _
            (supersede_each-keeps project_id winner_id client request_id targets)
            λ lists. Guarantees-pure keeps.step _

  assert_new-keeps :
      (project_id : ℕ) (request : RememberRequest) (row : Memory × MemoryRevision)
      → Guarantees R (assert_new project_id request row)
  unfolding assert_new apply_supersession
  assert_new-keeps project_id request row =
      search
        (
          guarantee_rules,
          keeps.step,
          supersede_each-keeps,
          enqueue-keeps keeps,
          attest-keeps keeps,
          event-keeps keeps,
          complete-keeps keeps,
        )
        depth 12

  new_or_again-keeps :
      (project_id : ℕ) (draft : Draft) (request : RememberRequest)
      (row : Option (Memory × MemoryRevision))
      → Guarantees R (new_or_again project_id draft request row)
  unfolding new_or_again
  new_or_again-keeps project_id draft request none = assert_again-keeps project_id draft request
  new_or_again-keeps project_id draft request (some row) = assert_new-keeps project_id request row

  remember_claimed-keeps :
      (new_id project_id : ℕ) (draft : Draft) (request : RememberRequest) (outcome : ClaimOutcome)
      → Guarantees R (remember_claimed new_id project_id draft request outcome)
  unfolding remember_claimed
  remember_claimed-keeps new_id project_id draft request claimed =
      search (guarantee_rules, keeps.step, keeps.speculates, new_or_again-keeps)
  remember_claimed-keeps new_id project_id draft request (replayed response) =
      search (guarantee_rules, keeps.step, replay-keeps)

  known-keeps : (known : Bool) → Guarantees R (known_or_missing known)
  known-keeps true = Guarantees-pure keeps.step _
  known-keeps false = Guarantees-raise memory_not_found

  conflict-keeps :
      (project_id memory_id : ℕ) (request : ReviseRequest)
      → Guarantees R (report_conflict project_id memory_id request)
  unfolding report_conflict
  conflict-keeps project_id memory_id request =
      search
        (guarantee_rules, keeps.step, get-keeps keeps, or_missing-keeps keeps, event-keeps keeps)
        depth 8

  success-keeps :
      (project_id memory_id : ℕ) (request : ReviseRequest) (held : Memory) (new_revision : ℕ)
      → Guarantees R (report_success project_id memory_id request held new_revision)
  unfolding report_success
  success-keeps project_id memory_id request held new_revision =
      search
        (
          guarantee_rules,
          keeps.step,
          get-keeps keeps,
          or_missing-keeps keeps,
          event-keeps keeps,
          enqueue-keeps keeps,
          complete-keeps keeps,
        )
        depth 12

  report-keeps :
      (project_id memory_id : ℕ) (request : ReviseRequest) (held : Memory) (o : Option ℕ)
      → Guarantees R (report project_id memory_id request held o)
  unfolding report
  report-keeps project_id memory_id request held none = conflict-keeps project_id memory_id request
  report-keeps project_id memory_id request held (some n) =
      success-keeps project_id memory_id request held n

  revise_claimed-keeps :
      (project_id memory_id : ℕ) (edit : Edit) (request : ReviseRequest) (outcome : ClaimOutcome)
      → Guarantees R (revise_claimed project_id memory_id edit request outcome)
  unfolding revise_claimed
  revise_claimed-keeps project_id memory_id edit request claimed =
      search
        (
          guarantee_rules,
          keeps.step,
          get-keeps keeps,
          or_missing-keeps keeps,
          keeps.compares,
          report-keeps,
        )
        depth 8
  revise_claimed-keeps project_id memory_id edit request (replayed response) =
      search (guarantee_rules, keeps.step, replay-keeps)

  pub forget-keeps :
      (project_id memory_id : ℕ) (client : Text) (request_id : Option Text)
      → Guarantees R (forget project_id memory_id client request_id)
  unfolding forget Retirement.exists
  forget-keeps project_id memory_id client request_id =
      search (guarantee_rules, keeps.step, known-keeps, keeps.forgets, event-keeps keeps) depth 8

  module _ (env : Env) (rely : (i : ℕ) (s : Db) → R s (env.others i s)) where
    claim_for-keeps :
        (project_id : ℕ) (client_request_id : Option Text) (operation : Operation)
        (payload : Payload)
        → Guarantees R (claim_for env project_id client_request_id operation payload)
    unfolding claim_for
    claim_for-keeps project_id none operation payload = Guarantees-pure keeps.step _
    claim_for-keeps project_id (some client_request_id) operation payload =
        claim-keeps keeps env.others rely project_id client_request_id operation _

    pub remember-keeps :
        (new_id project_id : ℕ) (request : RememberRequest)
        → Guarantees R (remember env new_id project_id request)
    unfolding remember
    remember-keeps new_id project_id request =
        search (guarantee_rules, keeps.step, claim_for-keeps, remember_claimed-keeps)

    pub revise-keeps :
        (project_id memory_id : ℕ) (request : ReviseRequest)
        → Guarantees R (revise env project_id memory_id request)
    unfolding revise
    revise-keeps project_id memory_id request =
        search (guarantee_rules, keeps.step, claim_for-keeps, revise_claimed-keeps)

    serve_request-keeps :
        (project_id : ℕ) (request : Request) (s : Db) → R s (serve_request env project_id request s)
    unfolding serve_request
    serve_request-keeps project_id (remembering new_id request) s =
        Guarantees-session_scope keeps.step _ (remember-keeps new_id project_id request) s
    serve_request-keeps project_id (revising memory_id request) s =
        Guarantees-session_scope keeps.step _ (revise-keeps project_id memory_id request) s
    serve_request-keeps project_id (forgetting memory_id client request_id) s =
        Guarantees-session_scope keeps.step _ (forget-keeps project_id memory_id client request_id)
          s

  -- Each process relies on the others to keep the relation while it waits.
  abbrev pub Rely : Arrival → Type 0
  Rely a = (i : ℕ) (s : Db) → R s (a.env.others i s)

  pub serve_all-keeps :
      (arrivals : List Arrival) (s : Db) → All Rely arrivals → R s (serve_all arrivals s)
  unfolding serve_all serve
  serve_all-keeps [] s rely = keeps.step.stay s
  serve_all-keeps (a ∷ arrivals) s rely =
      let ticked : Db = record s { now = a.now } in
      let t : Db = serve_request a.env a.project_id a.request ticked in
      keeps.step.trans s t _
        (keeps.step.trans s ticked t
          (keeps.same s ticked
            (record { memories = refl; memory_revisions = refl; memory_dedup_keys = refl }))
          (serve_request-keeps a.env rely.0 a.project_id a.request ticked))
        (serve_all-keeps arrivals t rely.1)
