-- ===== src/Store/Reports.antt =====
-- src/memhub/persistence/repositories/truth.py: the reads behind a memory's full record, and the share
-- of a project that has vectors. Audit events are kept newest first, which is the order of their ids.
use mcp_shared_memory_hub.Prelude.{
  ℕ, Bool, true, false, ◌&&◌, Option, none, some, List, [], ◌∷◌, ◌++◌, map, ltb, ◌==◌, Text, take,
  first, select_where, sort_by,
}
use mcp_shared_memory_hub.Domain.Models.{
  RevisionView, AttestationView, SupersessionLink, AuditEntry,
}
use mcp_shared_memory_hub.Store.Tables.{Memory, MemoryRevision, MemoryAttestation, AuditEvent, Db}
use mcp_shared_memory_hub.Store.Tx.{Tx, gets}

abbrev pub attestation_view : MemoryAttestation → AttestationView
attestation_view row = record {
  client_name = row.client_name;
  times_seen = row.times_seen;
  first_seen_at = row.first_seen_at;
  last_seen_at = row.last_seen_at;
}

abbrev pub attestations_of : ℕ → Db → List AttestationView
attestations_of memory_id db = map attestation_view (
    sort_by (λ a b. ltb a.first_seen_at b.first_seen_at)
      (select_where (λ a. a.memory_id == memory_id) db.memory_attestations))

unfoldable pub attestations : ℕ → Tx (List AttestationView)
attestations memory_id = gets (attestations_of memory_id)

abbrev pub revision_view : MemoryRevision → RevisionView
revision_view row = record {
  revision_no = row.revision_no;
  content = row.content;
  tags = row.tags;
  is_current = row.is_current;
  change_reason = row.change_reason;
  author_client = row.author_client;
  author_kind = row.author_kind;
  created_at = row.created_at;
}

abbrev pub older : MemoryRevision → MemoryRevision → Bool
older r q = ltb r.revision_no q.revision_no

abbrev pub revisions_of : ℕ → Db → List RevisionView
revisions_of memory_id db =
    map revision_view
      (sort_by older (select_where (λ r. r.memory_id == memory_id) db.memory_revisions))

unfoldable pub revisions : ℕ → Tx (List RevisionView)
revisions memory_id = gets (revisions_of memory_id)

-- the content of the current revision of a memory, in any project
abbrev pub current_contents : ℕ → Db → List Text
current_contents memory_id db =
    map (λ r. r.content)
      (select_where (λ r. r.memory_id == memory_id && r.is_current) db.memory_revisions)

-- the outer join: no revision reads as the empty text
abbrev pub or_empty : Option Text → Text
or_empty none = []
or_empty (some content) = content

abbrev pub link_to : Option ℕ → Option ℕ → Db → Option SupersessionLink
link_to none at db = none
link_to (some winner) at db = some (record {
  memory_id = winner;
  content = or_empty (first (current_contents winner db));
  at = at;
})

abbrev pub link_of : Option Memory → Db → Option SupersessionLink
link_of none db = none
link_of (some m) db = link_to m.superseded_by_id m.superseded_at db

abbrev pub winner_of : ℕ → ℕ → Db → Option SupersessionLink
winner_of project_id memory_id db =
    link_of
      (first (select_where (λ m. m.id == memory_id && m.project_id == project_id) db.memories)) db

unfoldable pub superseded_by : ℕ → ℕ → Tx (Option SupersessionLink)
superseded_by project_id memory_id = gets (winner_of project_id memory_id)

abbrev pub names : ℕ → Option ℕ → Bool
names memory_id none = false
names memory_id (some winner) = winner == memory_id

-- superseded_at ASC, with NULL last
abbrev pub time_before : Option ℕ → Option ℕ → Bool
time_before none t = false
time_before (some s) none = true
time_before (some s) (some t) = ltb s t

abbrev pub earlier : SupersessionLink → SupersessionLink → Bool
earlier a b = time_before a.at b.at

abbrev pub retired_links : List Memory → Db → List SupersessionLink
retired_links [] db = []
retired_links (m ∷ memories) db =
    map (λ content. record { memory_id = m.id; content = content; at = m.superseded_at })
      (current_contents m.id db)
    ++ retired_links memories db

abbrev pub losers_of : ℕ → ℕ → Db → List SupersessionLink
losers_of project_id memory_id db = sort_by earlier (
    retired_links
      (select_where (λ m. names memory_id m.superseded_by_id && m.project_id == project_id)
        db.memories)
      db)

unfoldable pub supersedes : ℕ → ℕ → Tx (List SupersessionLink)
supersedes project_id memory_id = gets (losers_of project_id memory_id)

abbrev pub audit_entry : AuditEvent → AuditEntry
audit_entry row = record {
  at = row.at;
  action = row.action;
  outcome = row.outcome;
  actor_client = row.actor_client;
  revision_no = row.revision_no;
}

abbrev pub trail_of : ℕ → ℕ → Db → List AuditEntry
trail_of memory_id limit db = map audit_entry (
    take limit (
      sort_by (λ a b. ltb b.at a.at)
        (select_where (λ e. names memory_id e.memory_id) db.audit_events)))

unfoldable pub audit_trail : ℕ → ℕ → Tx (List AuditEntry)
audit_trail memory_id limit = gets (trail_of memory_id limit)
