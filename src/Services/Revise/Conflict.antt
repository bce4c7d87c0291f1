-- ===== src/Services/Revise/Conflict.antt =====
-- How a `revise` without an idempotency key went that reports a conflict.
use mcp_shared_memory_hub.Prelude.{
  ℕ, ◌≡◌, sym, ap, ◌∙◌, subst, subst₂, false, Option, none, some, List, ◌∷◌, Text, arith,
}
use mcp_shared_memory_hub.Domain.Errors.{ok}
use mcp_shared_memory_hub.Domain.Models.{MemoryView, revise_succeeded, revise_conflicted}
use mcp_shared_memory_hub.Store.Tables.{
  Memory, MemoryRevision, AuditEvent, AuditAction, AuditOutcome, Operation, Db,
}
use mcp_shared_memory_hub.Store.Tx.{raise, modify, lift}
use mcp_shared_memory_hub.Store.Guarantee.{bind-inv, pure-inv, lift-inv, gets-inv}
use mcp_shared_memory_hub.Store.Audit.{record_event}
use mcp_shared_memory_hub.Store.Memories.{Edit, get, compare_and_set}
use mcp_shared_memory_hub.Store.Invariant.{IsWellFormed}
use mcp_shared_memory_hub.Store.Invariant.Cas.{after_cas, compare_and_set-inv}
use mcp_shared_memory_hub.Services.Memories.{
  Env, ReviseRequest, to_view, or_missing, enqueue_for, complete_for, claim_for,
}
use mcp_shared_memory_hub.Services.Idempotency.{claimed}
use mcp_shared_memory_hub.Services.Revise.{
  revise_edit, revise_payload, report_conflict, report_success, report, revise_claimed, revise,
}
use mcp_shared_memory_hub.Services.Revise.Found.{IsFound, get-IsFound}

or_missing-inv :
    {A : Type 0} (o : Option A) {a : A} {u t : Db}
    → or_missing o u ≡ ok (a, t)
    → (o ≡ some a) × (u ≡ t)
unfolding raise
or_missing-inv none h = absurd (ground arith)
or_missing-inv (some b) h = let (e, k) = pure-inv h in (ap some e, k)

-- a conflict wrote the event and nothing else
abbrev pub noted : AuditEvent → Db → Db
noted event s = record s { audit_events = event ∷ s.audit_events }

pub record_event-inv :
    (action : AuditAction) (outcome : AuditOutcome) (client : Text) (project_id memory_id : ℕ)
    (revision_no : Option ℕ) (request_id : Option Text) {u t : Db} {a : Unit {0}}
    → record_event action outcome client project_id memory_id revision_no request_id u ≡ ok (a, t)
    → (event : AuditEvent) × (t ≡ noted event u)
unfolding record_event modify
record_event-inv action outcome client project_id memory_id revision_no request_id {u} h = (
  record {
    at = u.now;
    project_id = some project_id;
    memory_id = some memory_id;
    revision_no = revision_no;
    action = action;
    outcome = outcome;
    actor_client = client;
    request_id = request_id;
  },
  ground arith,
)

conflicted-inv :
    {x y : MemoryView} {m n : ℕ} → revise_conflicted x m ≡ revise_conflicted y n → x ≡ y
conflicted-inv h = ground arith

-- the state in which a conflict was reported
pub record Conflicted (env : Env) (project_id m : ℕ) (request : ReviseRequest) (s t : Db)
    (current : MemoryView) : Type 0 where
  pub edit : Edit
  pub row : Memory
  pub revision : MemoryRevision
  pub log : List MemoryRevision
  pub event : AuditEvent
  pub accepted : revise_edit env request ≡ ok edit
  pub is_found : IsFound project_id m s.now s row revision log
  pub shown : current ≡ to_view (row, revision)
  pub after : t ≡ noted event s

module _ (env : Env) (project_id m : ℕ) (request : ReviseRequest) (s t : Db) (current : MemoryView)
    (expected : ℕ) (wf : IsWellFormed s) where
  not_success :
      (held : Memory) (n : ℕ) (u : Db)
      → report_success project_id m request held n u ≡ ok (revise_conflicted current expected, t)
      → ⊥
  unfolding report_success
  not_success held n u h =
      let (_, u1, _, k1) = bind-inv (enqueue_for project_id m n request.embedding_model) _ u h in
      let (_, u2, _, k2) =
        bind-inv
          (record_event AuditAction.revise AuditOutcome.ok request.author_client project_id m
            (some n) request.request_id)
          _ u1 k1 in
      let (_, u3, _, k3) =
        bind-inv (complete_for project_id request.client_request_id m n) _ u2 k2 in
      let (row, u4, _, k4) = bind-inv (get project_id m false) _ u3 k3 in
      let (updated, u5, _, k5) = bind-inv (or_missing row) _ u4 k4 in
      absurd (succeeded_differs (pure-inv k5).0)
    where
      succeeded_differs :
          {x : MemoryView} {k : ℕ} → revise_succeeded x k ≡ revise_conflicted current expected → ⊥
      succeeded_differs h = absurd (ground arith)

  report_conflict-Conflicted :
      (edit : Edit)
      → revise_edit env request ≡ ok edit
      → report_conflict project_id m request s ≡ ok (revise_conflicted current expected, t)
      → Conflicted env project_id m request s t current
  unfolding report_conflict
  report_conflict-Conflicted edit accepted h =
      let (o, u1, h1, k1) = bind-inv (get project_id m false) _ s h in
      let (row, u2, h2, k2) = bind-inv (or_missing o) _ u1 k1 in
      let (is_some_row, same) = or_missing-inv o h2 in
      let (at_s, (r, v, log, found, is_row)) =
        get-IsFound project_id m s wf
          (subst (λ x. get project_id m false s ≡ ok (x, u1)) is_some_row h1) in
      let (_, u3, h3, k3) =
        bind-inv
          (record_event AuditAction.revise AuditOutcome.conflict request.author_client project_id m
            (some row.0.current_revision_no) request.request_id)
          _ u2 k2 in
      let (event, noted_at) = record_event-inv _ _ _ _ _ _ _ h3 in
      let (answer, at_t) = pure-inv k3 in
      record {
        edit = edit;
        row = r;
        revision = v;
        log = log;
        event = event;
        accepted = accepted;
        is_found = found;
        shown = sym (conflicted-inv answer) ∙ ap to_view is_row;
        after = sym at_t ∙ noted_at ∙ ap (noted event) (sym same ∙ sym at_s);
      }

  by_outcome :
      (edit : Edit)
      → revise_edit env request ≡ ok edit
      → (held : Memory) (o : Option ℕ) (u : Db)
      → u ≡ elim o [ none ↦ s | some n ↦ after_cas project_id m request.expected_revision edit n s ]
      → report project_id m request held o u ≡ ok (revise_conflicted current expected, t)
      → Conflicted env project_id m request s t current
  unfolding report
  by_outcome edit accepted held none u e h = report_conflict-Conflicted edit accepted (
      subst
        (λ x. report_conflict project_id m request x ≡ ok (revise_conflicted current expected, t)) e
        h)
  by_outcome edit accepted held (some n) u e h = absurd (not_success held n u h)

  claimed-Conflicted :
      (edit : Edit)
      → revise_edit env request ≡ ok edit
      → revise_claimed project_id m edit request claimed s
        ≡ ok (revise_conflicted current expected, t)
      → Conflicted env project_id m request s t current
  unfolding revise_claimed get
  claimed-Conflicted edit accepted h =
      let (o, u1, h1, k1) = bind-inv (get project_id m false) _ s h in
      let (row, u2, h2, k2) = bind-inv (or_missing o) _ u1 k1 in
      let (n, u3, h3, k3) =
        bind-inv (compare_and_set project_id m request.expected_revision edit) _ u2 k2 in
      let at : u2 ≡ s = sym ((gets-inv _ h1).1 ∙ (or_missing-inv o h2).1) in
      let (_, after) = compare_and_set-inv project_id m request.expected_revision edit s n u3 (
        subst (λ x. compare_and_set project_id m request.expected_revision edit x ≡ ok (n, u3)) at
          h3) in
      by_outcome edit accepted row.0 n u3 after k3

  -- A conflict is reported of the memory's current state, and only noted in the audit trail.
  pub revise-Conflicted :
      request.client_request_id ≡ none
      → revise env project_id m request s ≡ ok (revise_conflicted current expected, t)
      → Conflicted env project_id m request s t current
  unfolding revise claim_for
  revise-Conflicted keyless h =
      let (edit, u1, h1, k1) = bind-inv (lift (revise_edit env request)) _ s h in
      let (accepted, at_1) = lift-inv (revise_edit env request) h1 in
      let (outcome, u2, h2, k2) =
        bind-inv
          (claim_for env project_id request.client_request_id Operation.revise
            (revise_payload m request.expected_revision edit))
          _ u1 k1 in
      let (granted, at_2) =
        pure-inv {a = claimed} {b = outcome} {s = u1} {t = u2} (rw keyless at h2) in
      claimed-Conflicted edit accepted (
        subst₂
          (λ c x.
            revise_claimed project_id m edit request c x
            ≡ ok (revise_conflicted current expected, t))
          (sym granted) (sym (at_1 ∙ at_2)) k2)
