-- ===== src/Services/Retry.antt =====
-- A retry of `remember` with its idempotency key, after the first request has committed.
pub mod Frame
pub mod Granted
use mcp_shared_memory_hub.Prelude.{
  ℕ, ◌≡◌, refl, ap, ◌∙◌, Option, none, some, [], Text, text_eq_refl, ==_refl, arith, update_where,
}
use mcp_shared_memory_hub.Domain.Errors.{Result, ok, err, internal}
use mcp_shared_memory_hub.Domain.Models.{RememberResult, created, deduplicated, idempotent_replay}
use mcp_shared_memory_hub.Store.Tables.{Memory, MemoryRevision, Operation, Response, Db}
use mcp_shared_memory_hub.Store.Tx.{Tx, ◌>>=◌, continue, pure}
use mcp_shared_memory_hub.Store.Memories.{Draft}
use mcp_shared_memory_hub.Services.Idempotency.{
  ClaimOutcome, fingerprint, claimed, replayed, validate_key, claim, complete, complete_key,
  id_matches, new_key,
}
use mcp_shared_memory_hub.Services.Memories.{Env, RememberRequest, replay_memory}
use mcp_shared_memory_hub.Services.Remember.{
  remember_draft, remember_claimed, new_or_again, remember,
}
use mcp_shared_memory_hub.Services.Replay.{quiet, claim_taken, claim_granted, claim-complete-claim}
use Frame.{SameKeys, speculate-frame, assert_again-frame}
use Granted.{
  at_time, IsGranted, its_fingerprint, remember-inv, remember-claim, assert_new-inv,
  assert_again-outcome, speculate-id, same_payload,
}

module _ (env : Env) (new_id project_id : ℕ) (request : RememberRequest) (key : Text) where
  abbrev its_response : Response
  its_response = record { memory_id = new_id; revision_no = 1 }

  -- what a replayed request answers
  abbrev pub replay_answer : Tx RememberResult
  replay_answer = do
    memory ← replay_memory project_id its_response
    pure (record {
      memory = memory;
      outcome = idempotent_replay;
      superseded = [];
      not_superseded = [];
      attestation_count = 1;
    })

  completed-keys :
      (u : Db) {s' : Db}
      → complete project_id key its_response u ≡ ok (tt, s')
      → s'.idempotency_keys
        ≡ update_where
            (id_matches project_id key)
            (complete_key its_response u.now)
            u.idempotency_keys
  unfolding complete
  completed-keys u h = ground arith

  -- the claim of a retry, after the first request completed its key
  claim_completed :
      (s s1 u s' w : Db) (f : Text)
      → validate_key key ≡ ok key
      → claim quiet project_id key Operation.remember f s ≡ ok (claimed, s1)
      → SameKeys s1 u
      → complete project_id key its_response u ≡ ok (tt, s')
      → SameKeys s' w
      → claim quiet project_id key Operation.remember f w ≡ ok (replayed its_response, w)
  claim_completed s s1 u s' w f valid granted frame completed same =
      let (_, again) =
        claim-complete-claim project_id Operation.remember f key s s1 u w its_response
          Operation.remember f valid granted frame (same ∙ completed-keys u completed) in
      again ∙ rw (text_eq_refl f) refl

  -- the claim of a retry, after the first request left its key in progress
  claim_in_progress :
      (s s1 w : Db) (f : Text)
      → validate_key key ≡ ok key
      → claim quiet project_id key Operation.remember f s ≡ ok (claimed, s1)
      → SameKeys s1 w
      → claim quiet project_id key Operation.remember f w ≡ err internal
  claim_in_progress s s1 w f valid granted same =
      let (_, row) = claim_granted project_id Operation.remember f key key s s1 valid granted in
      claim_taken project_id Operation.remember f key key
        (new_key project_id key Operation.remember f s.now) w valid
        (rw (same, row, ==_refl project_id, text_eq_refl key) refl)
      ∙ rw (text_eq_refl f) refl

  module _ (t t' other_id : ℕ) (s w : Db) {result : RememberResult} {s' : Db} {draft' : Draft} where
    retry :
        (g : IsGranted env new_id project_id request key t s result s')
        → {r : Result (ClaimOutcome × Db)} → request.client_request_id ≡ some key
        → remember_draft (at_time env t') request ≡ ok draft'
        → claim quiet project_id key Operation.remember
            (its_fingerprint env new_id project_id request g.draft)
            w
          ≡ r
        → remember (at_time env t') other_id project_id request w
          ≡ continue r (remember_claimed other_id project_id draft' request)
    retry g keyed drafted claims =
        remember-claim env new_id project_id request other_id t' key w keyed drafted (
          ap (λ p. claim quiet project_id key Operation.remember (fingerprint env.py env.dumps p) w)
            (same_payload env new_id project_id request t' t drafted g.drafted)
          ∙ claims)

    created_retried :
        (row : Option (Memory × MemoryRevision))
        (g : IsGranted env new_id project_id request key t s result s')
        → g.row ≡ row
        → validate_key key ≡ ok key
        → request.client_request_id ≡ some key
        → result.outcome ≡ created
        → SameKeys s' w
        → remember_draft (at_time env t') request ≡ ok draft'
        → remember (at_time env t') other_id project_id request w ≡ replay_answer w
    unfolding new_or_again remember_claimed
    created_retried none g e valid keyed outcome same drafted =
        let again =
          assert_again-outcome env new_id project_id request g.draft g.u (rw e at g.finished) in
        absurd (ground arith)
    created_retried (some row) g e valid keyed outcome same drafted =
        let (u, frame, completed, _) =
          assert_new-inv env new_id project_id request row key g.u keyed (rw e at g.finished) in
        let its_id = speculate-id new_id project_id g.draft g.s1 (rw e at g.speculated) in
        retry g keyed drafted (
          claim_completed s g.s1 u s' w _ valid g.granted
            (frame ∙ (speculate-frame new_id project_id g.draft).at g.s1 g.row g.u g.speculated)
            (rw its_id at completed) same)

    deduplicated_retried :
        (row : Option (Memory × MemoryRevision))
        (g : IsGranted env new_id project_id request key t s result s')
        → g.row ≡ row
        → validate_key key ≡ ok key
        → request.client_request_id ≡ some key
        → result.outcome ≡ deduplicated
        → SameKeys s' w
        → remember_draft (at_time env t') request ≡ ok draft'
        → remember (at_time env t') other_id project_id request w ≡ err internal
    unfolding new_or_again
    deduplicated_retried none g e valid keyed outcome same drafted = retry g keyed drafted (
        claim_in_progress s g.s1 w _ valid g.granted (
          same
          ∙ (assert_again-frame project_id g.draft request).at g.u result s' (rw e at g.finished)
          ∙ (speculate-frame new_id project_id g.draft).at g.s1 g.row g.u g.speculated))
    deduplicated_retried (some row) g e valid keyed outcome same drafted =
        let (_, _, _, made) =
          assert_new-inv env new_id project_id request row key g.u keyed (rw e at g.finished) in
        absurd (ground arith)

-- After a `remember` that created its memory under a key without white space at its ends, the same
-- request, undisturbed and with any later clock, as long as its fields still pass the validation and
-- the table of keys is as the first request left it, does what `replay_answer` does: it reads the
-- memory that the first request created and answers with it as an idempotent replay.
pub remember_retried :
    (env : Env) (new_id other_id project_id t t' : ℕ) (request : RememberRequest) (key : Text)
    (s s' w : Db) (result : RememberResult) (draft' : Draft)
    → validate_key key ≡ ok key
    → request.client_request_id ≡ some key
    → remember (at_time env t) new_id project_id request s ≡ ok (result, s')
    → result.outcome ≡ created
    → w.idempotency_keys ≡ s'.idempotency_keys
    → remember_draft (at_time env t') request ≡ ok draft'
    → remember (at_time env t') other_id project_id request w
      ≡ replay_answer env new_id project_id request key w
remember_retried env new_id other_id project_id t t' request key s s' w result draft' valid keyed h
      outcome same drafted =
    let g = remember-inv env new_id project_id request key t s keyed h (λ replay. ground arith) in
    created_retried env new_id project_id request key t t' other_id s w g.row g refl valid keyed
      outcome same drafted

-- After a `remember` that was deduplicated onto another memory, the same request under the same key,
-- undisturbed and with any later clock, as long as its fields still pass the validation and the table
-- of keys is as the first request left it, raises the internal error: the key was never completed.
pub remember_deduplicated_retried :
    (env : Env) (new_id other_id project_id t t' : ℕ) (request : RememberRequest) (key : Text)
    (s s' w : Db) (result : RememberResult) (draft' : Draft)
    → validate_key key ≡ ok key
    → request.client_request_id ≡ some key
    → remember (at_time env t) new_id project_id request s ≡ ok (result, s')
    → result.outcome ≡ deduplicated
    → w.idempotency_keys ≡ s'.idempotency_keys
    → remember_draft (at_time env t') request ≡ ok draft'
    → remember (at_time env t') other_id project_id request w ≡ err internal
remember_deduplicated_retried env new_id other_id project_id t t' request key s s' w result draft'
      valid keyed h outcome same drafted =
    let g = remember-inv env new_id project_id request key t s keyed h (λ replay. ground arith) in
    deduplicated_retried env new_id project_id request key t t' other_id s w g.row g refl valid
      keyed outcome same drafted
