-- ===== src/Services/Replay.antt =====
-- The idempotency protocol, when no other transaction interferes while a request waits.
use mcp_shared_memory_hub.Prelude.{
  ℕ, ◌≡◌, ◌≢◌, refl, sym, ap, ◌∙◌, inl, inr, Bool, true, false, not, ◌&&◌, ◌||◌, Option, none, some,
  List, [], ◌∷◌, Text, text_eq, text_eq_refl, arith, ==_refl, any, first, select_where,
  update_where, Bool-cases, if◌then◌else◌,
}
use mcp_shared_memory_hub.Domain.Errors.{Result, ok, err, internal, idempotency_key_reused}
use mcp_shared_memory_hub.Store.Tables.{
  Operation, completed, in_progress, Response, IdempotencyKey, Db,
}
use mcp_shared_memory_hub.Store.Tx.{Tx, ◌>>=◌}
use mcp_shared_memory_hub.Services.Idempotency.{
  ClaimOutcome, claimed, replayed, validate_key, op_eq, id_matches, new_key, claim_idempotency,
  wait_idempotency, stored_response, settle, claim_loop, claim, complete_key, complete,
}

-- no other transaction commits anything while a request waits
abbrev pub quiet : ℕ → Db → Db
quiet i db = db

-- the row of a key
abbrev pub key_row : ℕ → Text → Db → Option IdempotencyKey
key_row project_id key db = first (select_where (id_matches project_id key) db.idempotency_keys)

any-first {ℓ} :
    {A : Type ℓ} (p : A → Bool) (xs : List A) {x : A}
    → first (select_where p xs) ≡ some x
    → any p xs ≡ true
any-first p [] {x} h = absurd (ground arith)
any-first p (y ∷ xs) {x} h = ground (arith, any-first p xs {x = x})

first-update {ℓ} :
    {A : Type ℓ} (p : A → Bool) (f : A → A) (xs : List A) (x : A)
    → ((y : A) → p (f y) ≡ p y)
    → first (select_where p xs) ≡ some x
    → first (select_where p (update_where p f xs)) ≡ some (f x)
first-update p f [] x keeps h = absurd (ground arith)
first-update p f (y ∷ xs) x keeps h = ground (arith, first-update p f xs x keeps, keeps y)

-- what a later request with the key is told, by the row that it finds
abbrev pub verdict : Operation → Text → IdempotencyKey → Result ClaimOutcome
verdict operation request_fingerprint k =
    if not (text_eq k.request_fingerprint request_fingerprint) || not (op_eq k.operation operation)
    then err idempotency_key_reused
    else elim k.state [
      | completed ↦ elim k.response [ some response ↦ ok (replayed response) | none ↦ err internal ]
      | in_progress ↦ err internal
    ]

abbrev pub unchanged : {A : Type 0} → Db → Result A → Result (A × Db)
unchanged db (ok a) = ok (a, db)
unchanged db (err e) = err e

module _ (project_id : ℕ) (operation : Operation) (request_fingerprint : Text) where
  settle-verdict :
      (again : Tx ClaimOutcome) (k : IdempotencyKey) (db : Db)
      → settle operation request_fingerprint again (some k) db
        ≡ unchanged db (verdict operation request_fingerprint k)
  unfolding settle stored_response ◌>>=◌
  settle-verdict again k db = ground arith

  -- A key that is taken is settled at the first attempt, by its row, and nothing is written.
  pub claim_taken :
      (client_request_id key : Text) (k : IdempotencyKey) (db : Db)
      → validate_key client_request_id ≡ ok key
      → key_row project_id key db ≡ some k
      → claim quiet project_id client_request_id operation request_fingerprint db
        ≡ unchanged db (verdict operation request_fingerprint k)
  unfolding claim claim_loop claim_idempotency wait_idempotency ◌>>=◌
  claim_taken client_request_id key k db valid row =
      rw (valid, any-first (id_matches project_id key) db.idempotency_keys row, row)
        (settle-verdict _ k db)

  verdict_not_claimed :
      (k : IdempotencyKey) (db db' : Db)
      → unchanged db (verdict operation request_fingerprint k) ≢ ok (claimed, db')
  verdict_not_claimed k db db' h = ground arith

  first-any {ℓ} :
      {A : Type ℓ} (p : A → Bool) (xs : List A)
      → any p xs ≡ true
      → (x : A) × (first (select_where p xs) ≡ some x)
  first-any p [] h = absurd (ground arith)
  first-any p (y ∷ xs) h = elim (Bool-cases (p y)) [
    | inl e ↦ (y, rw e refl)
    | inr e ↦ let (x, found) = first-any p xs (ground arith) in (x, rw e found)
  ]

  -- A claim that is granted has put a row of its own under the key.
  pub claim_granted :
      (client_request_id key : Text) (s s1 : Db)
      → validate_key client_request_id ≡ ok key
      → claim quiet project_id client_request_id operation request_fingerprint s ≡ ok (claimed, s1)
      → (any (id_matches project_id key) s.idempotency_keys ≡ false)
        × (s1 ≡ record s {
          idempotency_keys =
              new_key project_id key operation request_fingerprint s.now ∷ s.idempotency_keys;
        })
  unfolding claim claim_loop claim_idempotency ◌>>=◌
  claim_granted client_request_id key s s1 valid h =
      elim (Bool-cases (any (id_matches project_id key) s.idempotency_keys)) [
        | inl taken ↦
            let (k, row) = first-any (id_matches project_id key) s.idempotency_keys taken in
            absurd (
              verdict_not_claimed k s s1
                (sym (claim_taken client_request_id key k s valid row) ∙ h))
        | inr free ↦ (free, granted free)
      ]
    where
      granted :
          any (id_matches project_id key) s.idempotency_keys ≡ false
          → s1 ≡ record s {
            idempotency_keys =
                new_key project_id key operation request_fingerprint s.now ∷ s.idempotency_keys;
          }
      granted free = ground arith

module _ (project_id : ℕ) (operation : Operation) (request_fingerprint : Text) where
  row_completed :
      (rows : List IdempotencyKey) (response : Response) (key : Text) (now now' : ℕ)
      → first (
          select_where (id_matches project_id key) (
            update_where
              (id_matches project_id key)
              (complete_key response now')
              (new_key project_id key operation request_fingerprint now ∷ rows)))
        ≡ some
            (complete_key response now' (new_key project_id key operation request_fingerprint now))
  row_completed rows response key now now' =
      first-update (id_matches project_id key) (complete_key response now')
        (new_key project_id key operation request_fingerprint now ∷ rows)
        (new_key project_id key operation request_fingerprint now) (λ y. refl)
        (rw (==_refl project_id, text_eq_refl key) refl)

  -- what `complete` leaves of the key that was granted
  complete_granted :
      (key : Text) (s u v : Db) (response : Response)
      → u.idempotency_keys
        ≡ new_key project_id key operation request_fingerprint s.now ∷ s.idempotency_keys
      → v.idempotency_keys
        ≡ update_where (id_matches project_id key) (complete_key response u.now) u.idempotency_keys
      → key_row project_id key v
        ≡ some (
            complete_key response u.now
              (new_key project_id key operation request_fingerprint s.now))
  complete_granted key s u v response granted kept =
      rw (kept, granted) (row_completed s.idempotency_keys response key s.now u.now)

  verdict_completed :
      (operation' : Operation) (fingerprint' key : Text) (response : Response) (now now' : ℕ)
      → verdict operation' fingerprint'
          (complete_key response now' (new_key project_id key operation request_fingerprint now))
        ≡ (if text_eq request_fingerprint fingerprint' && op_eq operation operation'
            then ok (replayed response)
            else err idempotency_key_reused)
  verdict_completed operation' fingerprint' key response now now' = ground arith

  -- If a request is granted the key that it sent, a key without white space at its ends, then after
  -- its writes to other tables `complete` succeeds, and as long as the table of keys stays as it is any
  -- later claim with the key replays the response to the same operation and fingerprint, refuses any
  -- other as a reuse, and writes nothing.
  pub claim-complete-claim :
      (key : Text) (s s1 u w : Db) (response : Response) (operation' : Operation)
      (fingerprint' : Text)
      → validate_key key ≡ ok key
      → claim quiet project_id key operation request_fingerprint s ≡ ok (claimed, s1)
      → u.idempotency_keys ≡ s1.idempotency_keys
      → w.idempotency_keys
        ≡ update_where (id_matches project_id key) (complete_key response u.now) u.idempotency_keys
      → (complete project_id key response u
          ≡ ok (
            tt,
            record u {
              idempotency_keys =
                  update_where
                    (id_matches project_id key)
                    (complete_key response u.now)
                    u.idempotency_keys;
            },
          ))
        × (claim quiet project_id key operation' fingerprint' w
            ≡ unchanged w (
                if text_eq request_fingerprint fingerprint' && op_eq operation operation'
                then ok (replayed response)
                else err idempotency_key_reused))
  unfolding complete
  claim-complete-claim key s s1 u w response operation' fingerprint' valid h same kept =
      let granted =
        (claim_granted project_id operation request_fingerprint key key s s1 valid h).1 in
      let keys : u.idempotency_keys
          ≡ new_key project_id key operation request_fingerprint s.now ∷ s.idempotency_keys =
        same ∙ rw granted refl in
      (
        rw (keys, ==_refl project_id, text_eq_refl key) refl,
        claim_taken project_id operation' fingerprint' key key _ w valid
              (complete_granted key s u w response keys kept)
            ∙ ap (unchanged w) (verdict_completed operation' fingerprint' key response s.now u.now),
      )

module _ (project_id : ℕ) (operation : Operation) (request_fingerprint : Text) where
  -- A request that is granted a key which it sent with white space around it cannot complete the key:
  -- unless another row bears the text as it was sent, `complete` raises the internal error.
  pub complete_padded :
      (client_request_id key : Text) (s s1 u : Db) (response : Response)
      → validate_key client_request_id ≡ ok key
      → text_eq key client_request_id ≡ false
      → claim quiet project_id client_request_id operation request_fingerprint s ≡ ok (claimed, s1)
      → any (id_matches project_id client_request_id) s.idempotency_keys ≡ false
      → u.idempotency_keys ≡ s1.idempotency_keys
      → complete project_id client_request_id response u ≡ err internal
  unfolding complete
  complete_padded client_request_id key s s1 u response valid padded granted free same =
      let (_, after) =
        claim_granted project_id operation request_fingerprint client_request_id key s s1 valid
          granted in
      rw (same, after, padded, free) (ground arith)
