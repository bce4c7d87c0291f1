-- ===== src/Mcp/Merge.antt =====
-- src/memhub/mcp/server.py: a client's memory_revise after the one that was answered with a conflict.
use mcp_shared_memory_hub.Prelude.{
  ℕ, ◌+◌, ◌≡◌, refl, sym, ◌∙◌, subst, subst₂, inl, inr, Bool-cases, true, Option, none, some, List,
  [], ◌∷◌, leb, arith,
}
use mcp_shared_memory_hub.Domain.Enums.{agent}
use mcp_shared_memory_hub.Domain.Errors.{ok}
use mcp_shared_memory_hub.Domain.Models.{
  MemoryView, ReviseResult, revise_succeeded, revise_replayed, revise_conflicted,
}
use mcp_shared_memory_hub.Store.Tables.{MemoryRevision, Db}
use mcp_shared_memory_hub.Store.Tx.{lift, pure, session_scope, ◌>>=◌}
use mcp_shared_memory_hub.Store.Guarantee.{bind-inv, pure-inv, lift-inv}
use mcp_shared_memory_hub.Store.Memories.{Edit, unexpired, storable}
use mcp_shared_memory_hub.Store.Invariant.{IsHistory, IsLog, IsWellFormed}
use mcp_shared_memory_hub.Services.Memories.{Env, ReviseRequest}
use mcp_shared_memory_hub.Services.Hybrid.{Embedder}
use mcp_shared_memory_hub.Services.Revise.{revise_edit, revise}
use mcp_shared_memory_hub.Services.Revise.Conflict.{revise-Conflicted}
use mcp_shared_memory_hub.Services.Revise.Merged.{with_edit, conflict_merged}
use mcp_shared_memory_hub.Mcp.Schemas.{
  ReviseOut, ReviseOutcome, author_value, memory_out, revise_out,
}
use mcp_shared_memory_hub.Mcp.Arguments.{parse_uuid}
use mcp_shared_memory_hub.Mcp.Calls.{World, MemoryRevise, memory_revise, revise_answer}
use mcp_shared_memory_hub.Mcp.Server.{
  model_of, handle_memory_revise, handle, fields_fit, answered, reply, serve_call,
}
use mcp_shared_memory_hub.Mcp.Shown.{answered-inv}

-- the request of the services that the tool makes
abbrev pub asked : World → MemoryRevise → ReviseRequest
asked w args = record {
  expected_revision = args.expected_revision;
  content = args.content;
  tags = args.tags;
  change_reason = args.change_reason;
  source = none;
  author_client = args.client;
  author_kind = agent;
  client_request_id = args.client_request_id;
  request_id = none;
  embedding_model = model_of w.embedder;
}

-- how a memory_revise went that was answered with a conflict
record Refused (w : World) (args : MemoryRevise) (s : Db) (out : ReviseOut) (n : ℕ) : Type 0 where
  project_id : ℕ
  m : ℕ
  current : MemoryView
  expected : ℕ
  t : Db
  at_project : parse_uuid w.reading args.project_id ≡ ok project_id
  at_memory : parse_uuid w.reading args.memory_id ≡ ok m
  conflicts :
      revise w.env project_id m (asked w args) s ≡ ok (revise_conflicted current expected, t)
  shown : revise_out w.reading.uuid_text (revise_conflicted current expected) ≡ out
  number : current.revision_no ≡ n
  after : serve_call w (memory_revise args) s ≡ t

module _ (w : World) (args : MemoryRevise) (s : Db) (out : ReviseOut) (n : ℕ)
    (numbered : out.current_revision ≡ some n) where
  only_conflict :
      (result : ReviseResult)
      → revise_out w.reading.uuid_text result ≡ out
      → (current : MemoryView) × (expected : ℕ) × (result ≡ revise_conflicted current expected)
        × (current.revision_no ≡ n)
  unfolding revise_out
  only_conflict (revise_succeeded memory previous) h = absurd (ground arith)
  only_conflict (revise_replayed memory) h = absurd (ground arith)
  only_conflict (revise_conflicted current expected) h = (current, expected, refl, ground arith)

  revise_answer-inv : (x : ReviseOut) → revise_answer x ≡ revise_answer out → x ≡ out
  revise_answer-inv x h = ground arith

  served :
      (t : Db)
      → reply w (memory_revise args) s ≡ answered (revise_answer out)
      → handle w (memory_revise args) s ≡ ok (revise_answer out, t)
      → serve_call w (memory_revise args) s ≡ t
  unfolding reply serve_call session_scope
  served t h k = elim (Bool-cases (fields_fit (memory_revise args))) [
    | inl fits ↦ rw (fits, k) refl
    | inr e ↦ absurd (ground arith)
  ]

  reply-Refused :
      reply w (memory_revise args) s ≡ answered (revise_answer out) → Refused w args s out n
  unfolding handle handle_memory_revise
  reply-Refused h =
      let (t, k) = answered-inv w (memory_revise args) s (revise_answer out) h in
      let (project_id, u1, h1, k1) = bind-inv (lift (parse_uuid w.reading args.project_id)) _ s k in
      let (at_project, here1) = lift-inv (parse_uuid w.reading args.project_id) h1 in
      let (m, u2, h2, k2) = bind-inv (lift (parse_uuid w.reading args.memory_id)) _ u1 k1 in
      let (at_memory, here2) = lift-inv (parse_uuid w.reading args.memory_id) h2 in
      let (result, u3, h3, k3) = bind-inv (revise w.env project_id m (asked w args)) _ u2 k2 in
      let (answer, here3) = pure-inv k3 in
      let out_is = revise_answer-inv _ answer in
      let (current, expected, conflict, number) = only_conflict result out_is in
      record {
        project_id = project_id;
        m = m;
        current = current;
        expected = expected;
        t = t;
        at_project = at_project;
        at_memory = at_memory;
        conflicts =
            subst₂ (λ r x. revise w.env project_id m (asked w args) x ≡ ok (r, t)) conflict
              (sym (here1 ∙ here2))
              (subst (λ x. revise w.env project_id m (asked w args) u2 ≡ ok (result, x)) here3 h3);
        shown = subst (λ r. revise_out w.reading.uuid_text r ≡ out) conflict out_is;
        number = number;
        after = served t h k;
      }

-- the answer to the request that merges: the memory of the conflict, with what was sent
abbrev pub merged_out : Edit → ReviseOut → ℕ → ReviseOut
merged_out edit out n = record {
  outcome = ReviseOutcome.revised;
  memory = record out.memory {
    revision_no = n + 1;
    content = edit.content;
    tags = edit.tags;
    author_client = edit.author_client;
    author_kind = author_value edit.author_kind;
    source = edit.source;
  };
  previous_revision = some n;
  current_revision = none;
  expected_revision = none;
}

history_positive : (p n : ℕ) (log : List MemoryRevision) → IsHistory p n log → leb 1 n ≡ true
history_positive p n [] h = ground arith
history_positive p n (r ∷ log) h = ground arith

log_positive : (p n : ℕ) (log : List MemoryRevision) → IsLog p n log → leb 1 n ≡ true
log_positive p n [] h = absurd h
log_positive p n (r ∷ log) h = history_positive p n log h.3

-- a later call of the client, of any process: the same memory, and the number that it was told
abbrev pub later : World → Env → Option Embedder → World
later w env' embedder' = record w { env = env'; embedder = embedder' }

abbrev pub again : MemoryRevise → MemoryRevise → ℕ → MemoryRevise
again args args' n = record args' {
  project_id = args.project_id;
  memory_id = args.memory_id;
  expected_revision = n;
}

module _ (w : World) (env' : Env) (embedder' : Option Embedder) (args args' : MemoryRevise)
    (edit : Edit) (now : ℕ) where
  abbrev Merges : ReviseOut → ℕ → Db → Type 0
  Merges out n t =
      reply (later w env' embedder') (memory_revise (again args args' n)) (record t { now = now })
      ≡ answered (revise_answer (merged_out edit out n))

  replied_again :
      (project_id m expected : ℕ) (current : MemoryView) (t u : Db)
      → parse_uuid w.reading args.project_id ≡ ok project_id
      → parse_uuid w.reading args.memory_id ≡ ok m
      → leb 1 current.revision_no ≡ true
      → revise env' project_id m
          (record (asked (later w env' embedder') args') {
            expected_revision = current.revision_no;
          })
          (record t { now = now })
        ≡ ok (revise_succeeded (with_edit edit current) current.revision_no, u)
      → Merges
          (revise_out w.reading.uuid_text (revise_conflicted current expected))
          current.revision_no
          t
  unfolding reply fields_fit handle handle_memory_revise lift pure revise_out memory_out ◌>>=◌
  replied_again project_id m expected current t u at_project at_memory positive ran =
      rw (positive, at_project, at_memory, ran) refl

  unexpired_shown :
      (current : MemoryView) (expected : ℕ) (out : ReviseOut)
      → revise_out w.reading.uuid_text (revise_conflicted current expected) ≡ out
      → unexpired now out.memory.expires_at ≡ true
      → unexpired now current.expires_at ≡ true
  unfolding revise_out memory_out
  unexpired_shown current expected out shown fresh =
      subst (λ (o : ReviseOut). unexpired now o.memory.expires_at ≡ true) (sym shown) fresh

  -- A client whose memory_revise was answered with a conflict, in a well-formed store, can merge with
  -- what the answer shows: a memory_revise of the same memory with the `current_revision` of the
  -- answer is answered as revised, whatever else it sends, if that passes the validation and has no
  -- U+0000, and at any clock at which the memory shown has not expired. The answer is the memory
  -- shown with the content, tags, author and source sent, at the next revision number. Neither call has
  -- an idempotency key, and no other call comes between the two.
  pub conflict_answered :
      (s : Db) (out : ReviseOut) (n : ℕ)
      → IsWellFormed s
      → args.client_request_id ≡ none
      → reply w (memory_revise args) s ≡ answered (revise_answer out)
      → out.current_revision ≡ some n
      → unexpired now out.memory.expires_at ≡ true
      → args'.client_request_id ≡ none
      → revise_edit env' (asked (later w env' embedder') args') ≡ ok edit
      → storable edit.content edit.tags edit.change_reason edit.source edit.author_client ≡ true
      → reply
          (later w env' embedder')
          (memory_revise (again args args' n))
          (record (serve_call w (memory_revise args) s) { now = now })
        ≡ answered (revise_answer (merged_out edit out n))
  conflict_answered s out n wf keyless refused numbered fresh keyless' accepted fit_texts =
      let c = reply-Refused w args s out n numbered refused in
      let found =
        revise-Conflicted w.env c.project_id c.m (asked w args) s c.t c.current c.expected wf
          keyless c.conflicts in
      let (u, ran) =
        conflict_merged w.env env' c.project_id c.m (asked w args)
          (asked (later w env' embedder') args') edit now s c.t c.current c.expected wf keyless
          c.conflicts (unexpired_shown c.current c.expected out c.shown fresh) keyless' accepted
          fit_texts refl in
      let sound = found.is_found.sound in
      let positive : leb 1 found.revision.revision_no ≡ true =
        subst (λ k. leb 1 k ≡ true) (sym sound.0)
          (log_positive found.row.project_id found.row.current_revision_no
            (found.revision ∷ found.log) sound) in
      subst (Merges out n) (sym c.after) (
        subst₂ (λ o k. Merges o k c.t) c.shown c.number
          (replied_again c.project_id c.m c.expected c.current c.t u c.at_project c.at_memory
            (subst (λ x. leb 1 x.revision_no ≡ true) (sym found.shown) positive) ran))
