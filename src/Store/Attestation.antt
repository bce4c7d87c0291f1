-- ===== src/Store/Attestation.antt =====
-- src/memhub/persistence/repositories/truth.py: who has asserted a memory, and how often.
use mcp_shared_memory_hub.Prelude.{
  ℕ, ◌+◌, Bool, ◌&&◌, ◌∷◌, ◌==◌, Text, text_eq, length, any, select_where, update_where,
  if◌then◌else◌,
}
use mcp_shared_memory_hub.Domain.Errors.{err, integrity_error}
use mcp_shared_memory_hub.Store.Tables.{MemoryAttestation}
use mcp_shared_memory_hub.Store.Memories.{has_memory}
use mcp_shared_memory_hub.Store.Tx.{Tx, done, gets, ◌>>◌}

abbrev pub attestation_matches : Text → MemoryAttestation → Bool
attestation_matches client_name a = text_eq a.client_name client_name

abbrev pub seen_again : ℕ → MemoryAttestation → MemoryAttestation
seen_again now a = record a { times_seen = a.times_seen + 1; last_seen_at = now }

unfoldable pub attestation_count : ℕ → Tx ℕ
attestation_count memory_id =
    gets λ db. length (select_where (λ a. a.memory_id == memory_id) db.memory_attestations)

-- the upsert of `attest`
unfoldable pub upsert_attestation : ℕ → ℕ → Text → Tx (Unit {0})
upsert_attestation project_id memory_id client_name db =
    let hit : MemoryAttestation → Bool =
      λ a. a.memory_id == memory_id && attestation_matches client_name a in
    if any hit db.memory_attestations
    then done tt (record db {
      memory_attestations = update_where hit (seen_again db.now) db.memory_attestations;
    })
    else if has_memory project_id memory_id db
    then done tt (record db {
      memory_attestations =
          record {
            memory_id = memory_id;
            client_name = client_name;
            project_id = project_id;
            first_seen_at = db.now;
            last_seen_at = db.now;
            times_seen = 1;
          }
          ∷ db.memory_attestations;
    })
    else err integrity_error

unfoldable pub attest : ℕ → ℕ → Text → Tx ℕ
attest project_id memory_id client_name = do
  upsert_attestation project_id memory_id client_name
  attestation_count memory_id
