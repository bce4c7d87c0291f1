-- ===== src/Services/Retry/Granted.antt =====
-- How a `remember` went that was granted its idempotency key.
use mcp_shared_memory_hub.Prelude.{
  ℕ, ◌≡◌, ◌≢◌, refl, sym, ap, ◌∙◌, subst, subst₂, Option, none, some, Text, arith,
}
use mcp_shared_memory_hub.Domain.Errors.{Result, ok, err}
use mcp_shared_memory_hub.Domain.Models.{
  MemoryView, RememberResult, created, deduplicated, idempotent_replay,
}
use mcp_shared_memory_hub.Store.Tables.{Memory, MemoryRevision, Operation, Db}
use mcp_shared_memory_hub.Store.Tx.{Tx, ◌>>=◌, continue, undo, pure, lift, savepoint}
use mcp_shared_memory_hub.Store.Guarantee.{pure-inv, lift-inv, bind-inv}
use mcp_shared_memory_hub.Store.Memories.{Draft}
use mcp_shared_memory_hub.Store.Invariant.Writes.{create-inv}
use mcp_shared_memory_hub.Services.Idempotency.{
  ClaimOutcome, claimed, replayed, fingerprint, claim, complete,
}
use mcp_shared_memory_hub.Services.Memories.{
  Env, RememberRequest, deduplicate, complete_for, claim_for,
}
use mcp_shared_memory_hub.Services.Remember.{
  remember_draft, remember_payload, keep_if_owned, speculate, assert_again, assert_new,
  new_or_again, remember_claimed, remember,
}
use mcp_shared_memory_hub.Services.Replay.{quiet}
use mcp_shared_memory_hub.Services.Retry.Frame.{
  SameKeys, apply_supersession-frame, enqueue-frame, attest-frame, event-frame,
}

-- the same server at another time, undisturbed by others
abbrev pub at_time : Env → ℕ → Env
at_time env t = record env { others = quiet; reference_time = t }

savepoint-inv :
    {A : Type 0} (m : Tx (Option A)) (s : Db) {a : A} {t : Db}
    → savepoint m s ≡ ok (some a, t)
    → m s ≡ ok (some a, t)
unfolding savepoint
savepoint-inv {A = A} m s {a} {t} h = go (m s) h
  where
    go : (r : Result (Option A × Db)) → undo s r ≡ ok (some a, t) → r ≡ ok (some a, t)
    go (ok (none, u)) h = absurd (ground arith)
    go (ok (some b, u)) h = h
    go (err c) h = absurd (ground arith)

keep_if_owned-inv :
    (row row' : Memory × MemoryRevision) (owner : Option ℕ)
    → keep_if_owned row owner ≡ some row'
    → row ≡ row'
keep_if_owned-inv row row' none h = absurd (ground arith)
keep_if_owned-inv row row' (some n) h = ground arith

last-inv :
    {B : Type 0} (m : Tx (Unit {0})) (a : B) (s : Db) {b : B} {t : Db}
    → (m >>= λ _. pure a) s ≡ ok (b, t)
    → (m s ≡ ok (tt, t)) × (a ≡ b)
last-inv m a s {b} {t} h =
    let (_, u, first_step, rest) = bind-inv m (λ _. pure a) s h in
    let (same, end) = pure-inv rest in (subst (λ x. m s ≡ ok (tt, x)) end first_step, same)

-- The row of a speculation is the new memory's.
pub speculate-id :
    (new_id project_id : ℕ) (draft : Draft) (s : Db) {row : Memory × MemoryRevision} {t : Db}
    → speculate new_id project_id draft s ≡ ok (some row, t)
    → row.0.id ≡ new_id
unfolding speculate
speculate-id new_id project_id draft s {row} {t} h =
    let (row', v, made, rest) = bind-inv _ _ s (savepoint-inv _ s h) in
    let (owner, w, _, last) = bind-inv _ _ v rest in
    let same = keep_if_owned-inv row' row owner (pure-inv last).0 in
    ap (λ (x : Memory × MemoryRevision). x.0.id)
      (sym same ∙ (create-inv new_id project_id draft s made).0)

module _ (env : Env) (new_id project_id : ℕ) (request : RememberRequest) where
  pub assert_new-inv :
      (row : Memory × MemoryRevision) (key : Text) (u : Db) {result : RememberResult} {s' : Db}
      → request.client_request_id ≡ some key
      → assert_new project_id request row u ≡ ok (result, s')
      → (t : Db) × SameKeys u t
        × (complete project_id key (record { memory_id = row.0.id; revision_no = 1 }) t
            ≡ ok (tt, s'))
        × (result.outcome ≡ created)
  unfolding assert_new complete_for
  assert_new-inv row key u {result} {s'} keyed h =
      let (lists, u1, h1, k1) = bind-inv _ _ u h in
      let (_, u2, h2, k2) = bind-inv _ _ u1 k1 in
      let (attestations, u3, h3, k3) = bind-inv _ _ u2 k2 in
      let (_, u4, h4, k4) = bind-inv _ _ u3 k3 in
      let (told, same) = last-inv _ _ u4 k4 in
      (
        u4,
        (event-frame _ _ _ _ _ _ _).at u3 _ u4 h4
            ∙ (attest-frame _ _ _).at u2 attestations u3 h3
            ∙ (enqueue-frame _ _ _ _).at u1 _ u2 h2
            ∙ (apply_supersession-frame _ _ _ _ _).at u lists u1 h1,
        subst (λ o. complete_for project_id o row.0.id 1 u4 ≡ ok (tt, s')) keyed told,
        ap (λ (r : RememberResult). r.outcome) (sym same),
      )

  abbrev pub its_fingerprint : Draft → Text
  its_fingerprint draft = fingerprint env.py env.dumps (remember_payload draft)

  -- what a request did that was granted its key
  pub record IsGranted (key : Text) (t : ℕ) (s : Db) (result : RememberResult) (s' : Db)
      : Type 0 where
    pub draft : Draft
    pub row : Option (Memory × MemoryRevision)
    pub s1 : Db
    pub u : Db
    pub drafted : remember_draft (at_time env t) request ≡ ok draft
    pub granted :
        claim quiet project_id key Operation.remember (its_fingerprint draft) s ≡ ok (claimed, s1)
    pub speculated : speculate new_id project_id draft s1 ≡ ok (row, u)
    pub finished : new_or_again project_id draft request row u ≡ ok (result, s')

  pure_result :
      (m : Tx MemoryView) (f : MemoryView → RememberResult) (u : Db) {result : RememberResult}
      {s' : Db}
      → ((memory : MemoryView) → (f memory).outcome ≡ idempotent_replay)
      → (m >>= λ memory. pure (f memory)) u ≡ ok (result, s')
      → result.outcome ≡ idempotent_replay
  pure_result m f u replay h =
      let (memory, v, _, last) = bind-inv m (λ memory. pure (f memory)) u h in
      ap (λ (r : RememberResult). r.outcome) (sym (pure-inv last).0) ∙ replay memory

  pub remember-inv :
      (key : Text) (t : ℕ) (s : Db) {result : RememberResult} {s' : Db}
      → request.client_request_id ≡ some key
      → remember (at_time env t) new_id project_id request s ≡ ok (result, s')
      → result.outcome ≢ idempotent_replay
      → IsGranted key t s result s'
  unfolding remember claim_for remember_claimed
  remember-inv key t s {result} {s'} keyed h fresh =
      let (draft, v, drafted, rest) =
        bind-inv (lift (remember_draft (at_time env t) request)) _ s h in
      let (d, same) = lift-inv (remember_draft (at_time env t) request) drafted in
      let (outcome, s1, claims, last) = bind-inv _ _ v rest in
      go draft s1 outcome d
        (subst₂
          (λ o x.
            claim_for (at_time env t) project_id o Operation.remember (remember_payload draft) x
            ≡ ok (outcome, s1))
          keyed (sym same) claims)
        last
    where
      go :
          (draft : Draft) (s1 : Db) (outcome : ClaimOutcome)
          → remember_draft (at_time env t) request ≡ ok draft
          → claim quiet project_id key Operation.remember (its_fingerprint draft) s
            ≡ ok (outcome, s1)
          → remember_claimed new_id project_id draft request outcome s1 ≡ ok (result, s')
          → IsGranted key t s result s'
      go draft s1 (replayed response) d c l = absurd (fresh (pure_result _ _ s1 (λ memory. refl) l))
      go draft s1 claimed d c l =
          let (row, u, speculated, finished) = bind-inv _ _ s1 l in
          record {
            draft = draft;
            row = row;
            s1 = s1;
            u = u;
            drafted = d;
            granted = c;
            speculated = speculated;
            finished = finished;
          }

  pub same_payload :
      (t t' : ℕ) {draft draft' : Draft}
      → remember_draft (at_time env t) request ≡ ok draft
      → remember_draft (at_time env t') request ≡ ok draft'
      → remember_payload draft ≡ remember_payload draft'
  unfolding remember_draft
  same_payload t t' {draft} {draft'} h h' = ground arith

  -- a request whose draft is accepted, by what its claim answers
  pub remember-claim :
      (other_id t : ℕ) (key : Text) (w : Db) {draft : Draft} {r : Result (ClaimOutcome × Db)}
      → request.client_request_id ≡ some key
      → remember_draft (at_time env t) request ≡ ok draft
      → claim quiet project_id key Operation.remember (its_fingerprint draft) w ≡ r
      → remember (at_time env t) other_id project_id request w
        ≡ continue r (remember_claimed other_id project_id draft request)
  unfolding remember claim_for lift ◌>>=◌
  remember-claim other_id t key w keyed drafted claims = rw (drafted, keyed, claims) refl

  pub assert_again-outcome :
      (draft : Draft) (u : Db) {result : RememberResult} {s' : Db}
      → assert_again project_id draft request u ≡ ok (result, s')
      → result.outcome ≡ deduplicated
  unfolding assert_again deduplicate
  assert_again-outcome draft u h =
      let (holder, u1, _, k1) = bind-inv _ _ u h in
      let (holder_id, u2, _, k2) = bind-inv _ _ u1 k1 in
      let (found, u3, _, k3) = bind-inv _ _ u2 k2 in
      let (existing, u4, _, k4) = bind-inv _ _ u3 k3 in
      let (attestations, u5, _, k5) = bind-inv _ _ u4 k4 in
      ap (λ (r : RememberResult). r.outcome) (sym (last-inv _ _ u5 k5).1)
