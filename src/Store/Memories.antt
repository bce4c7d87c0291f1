-- ===== src/Store/Memories.antt =====
-- src/memhub/persistence/repositories/memories.py and retrieval/filters.py: a memory, its revisions,
-- the stage-0 filter and the compare-and-set. An INSERT raises where a constraint of the schema
-- (persistence/models.py) refuses the row.
use mcp_shared_memory_hub.Prelude.{
  ℕ, ◌+◌, Bool, true, false, not, ◌&&◌, ◌||◌, Option, none, some, List, [], ◌∷◌, ◌++◌, map, leb,
  ltb, ◌==◌, Text, length, first, any, is_some, select_where, update_where, if◌then◌else◌,
}
use mcp_shared_memory_hub.Domain.Enums.{MemoryType, AuthorKind, task, active, type_eq, is_active}
use mcp_shared_memory_hub.Domain.Errors.{ok, err, integrity_error, database_error}
use mcp_shared_memory_hub.Domain.Policy.{max_content_length, max_tags}
use mcp_shared_memory_hub.Store.Tables.{Memory, MemoryRevision, Db}
use mcp_shared_memory_hub.Store.Tx.{Tx, done, pure, modify, gets, ◌>>=◌, ◌>>◌}

-- the arguments of `create` beside the project
pub record Draft : Type 0 where
  pub memory_type : MemoryType
  pub content : Text
  pub content_hash : Text
  pub hash_version : ℕ
  pub tags : List Text
  pub importance : ℕ
  pub expires_at : Option ℕ
  pub author_client : Text
  pub author_kind : AuthorKind
  pub source : Option Text

-- the arguments of `compare_and_set` beside the project, the memory and the expected revision
pub record Edit : Type 0 where
  pub content : Text
  pub content_hash : Text
  pub hash_version : ℕ
  pub tags : List Text
  pub change_reason : Option Text
  pub author_client : Text
  pub author_kind : AuthorKind
  pub source : Option Text

-- PRIMARY KEY (id), the foreign key to `projects`, and the CHECKs of a row that is ACTIVE
unfoldable pub memory_allowed : Memory → Db → Bool
memory_allowed row db =
    any (λ p. p.id == row.project_id) db.projects
    && not (any (λ r. r.id == row.id) db.memories)
    && leb row.importance 100
    && (not (type_eq row.type task) || is_some row.expires_at)

-- a text of PostgreSQL has no U+0000
unfoldable pub text_fits : Text → Bool
text_fits text = not (any (λ c. c == 0) text)

abbrev pub optional_fits : Option Text → Bool
optional_fits none = true
optional_fits (some text) = text_fits text

-- the Text columns of `memory_revisions` that a caller fills
unfoldable pub storable : Text → List Text → Option Text → Option Text → Text → Bool
storable content tags change_reason source author_client =
    text_fits content
    && not (any (λ tag. not (text_fits tag)) tags)
    && optional_fits change_reason
    && optional_fits source
    && text_fits author_client

-- PRIMARY KEY (memory_id, revision_no), one current revision, the foreign key, and the CHECKs
unfoldable pub revision_allowed : MemoryRevision → Db → Bool
revision_allowed row db =
    not (
      any (λ r. r.memory_id == row.memory_id && r.revision_no == row.revision_no)
        db.memory_revisions)
    && not (
        row.is_current
        && any (λ r. r.memory_id == row.memory_id && r.is_current) db.memory_revisions)
    && any (λ m. m.id == row.memory_id && m.project_id == row.project_id) db.memories
    && leb 1 row.revision_no
    && leb 1 (length row.content)
    && leb (length row.content) max_content_length
    && leb (length row.tags) max_tags

unfoldable pub insert_memory : Memory → Tx (Unit {0})
insert_memory row db =
    if memory_allowed row db
    then ok (tt, record db { memories = row ∷ db.memories })
    else err integrity_error

unfoldable pub insert_revision : MemoryRevision → Tx (Unit {0})
insert_revision row db =
    if not (storable row.content row.tags row.change_reason row.source row.author_client)
    then err database_error
    else if revision_allowed row db
    then ok (tt, record db { memory_revisions = row ∷ db.memory_revisions })
    else err integrity_error

-- the row that `create` adds; `new_id` is what gen_random_uuid() returned
abbrev pub new_memory : ℕ → ℕ → Draft → ℕ → Memory
new_memory new_id project_id draft now = record {
  id = new_id;
  project_id = project_id;
  type = draft.memory_type;
  status = active;
  current_revision_no = 1;
  importance = draft.importance;
  expires_at = draft.expires_at;
  superseded_by_id = none;
  superseded_at = none;
  deleted_at = none;
  created_at = now;
  updated_at = now;
}

abbrev pub first_revision : ℕ → ℕ → Draft → ℕ → MemoryRevision
first_revision new_id project_id draft now = record {
  memory_id = new_id;
  revision_no = 1;
  project_id = project_id;
  content = draft.content;
  content_hash = draft.content_hash;
  hash_version = draft.hash_version;
  tags = draft.tags;
  is_current = true;
  change_reason = none;
  source = draft.source;
  author_client = draft.author_client;
  author_kind = draft.author_kind;
  created_at = now;
}

unfoldable pub create : ℕ → ℕ → Draft → Tx (Memory × MemoryRevision)
create new_id project_id draft = do
  now ← gets (λ db. db.now)
  insert_memory (new_memory new_id project_id draft now)
  insert_revision (first_revision new_id project_id draft now)
  pure (new_memory new_id project_id draft now, first_revision new_id project_id draft now)

-- FOREIGN KEY (memory_id, project_id)
abbrev pub has_memory : ℕ → ℕ → Db → Bool
has_memory project_id memory_id db =
    any (λ m. m.id == memory_id && m.project_id == project_id) db.memories

-- Memory JOIN MemoryRevision ON memory_id = id AND project_id = project_id
abbrev pub join : List Memory → List MemoryRevision → List (Memory × MemoryRevision)
join [] revisions = []
join (m ∷ memories) revisions =
    map (λ r. (m, r))
      (select_where (λ r. r.memory_id == m.id && r.project_id == m.project_id) revisions)
    ++ join memories revisions

-- expires_at IS NULL OR expires_at > now()
abbrev pub unexpired : ℕ → Option ℕ → Bool
unexpired now none = true
unexpired now (some t) = ltb now t

abbrev pub is_retrievable : ℕ → Memory × MemoryRevision → Bool
is_retrievable now (m, r) = is_active m.status && unexpired now m.expires_at && r.is_current

-- retrieval/filters.py: the stage-0 filter
unfoldable pub current_revisions : ℕ → Bool → Db → List (Memory × MemoryRevision)
current_revisions project_id include_retired db =
    select_where (λ x. x.0.project_id == project_id && (include_retired || is_retrievable db.now x))
      (join db.memories db.memory_revisions)

unfoldable pub get : ℕ → ℕ → Bool → Tx (Option (Memory × MemoryRevision))
get project_id memory_id include_retired = gets λ db. first (
    select_where (λ x. x.0.id == memory_id && (not include_retired || x.1.is_current))
      (current_revisions project_id include_retired db))

-- the WHERE clause of sql/cas_revise.sql behind `id = :memory_id`
abbrev pub cas_matches : ℕ → ℕ → Memory → Bool
cas_matches project_id expected m =
    m.project_id == project_id && m.current_revision_no == expected && is_active m.status

abbrev pub advance : ℕ → Memory → Memory
advance now m = record m { current_revision_no = m.current_revision_no + 1; updated_at = now }

-- sql/cas_revise.sql, with its RETURNING
unfoldable pub cas_revise : ℕ → ℕ → ℕ → Tx (Option ℕ)
cas_revise project_id memory_id expected db =
    let hit : Memory → Bool = λ m. m.id == memory_id && cas_matches project_id expected m in
    done (first (map (λ m. m.current_revision_no + 1) (select_where hit db.memories)))
      (record db { memories = update_where hit (advance db.now) db.memories })

abbrev pub retire_revision : MemoryRevision → MemoryRevision
retire_revision r = record r { is_current = false }

unfoldable pub demote : ℕ → ℕ → Tx (Unit {0})
demote memory_id expected = modify λ db. record db {
  memory_revisions =
      update_where (λ r. r.memory_id == memory_id && r.revision_no == expected) retire_revision
        db.memory_revisions;
}

abbrev pub next_revision : ℕ → ℕ → ℕ → Edit → ℕ → MemoryRevision
next_revision project_id memory_id new_revision edit now = record {
  memory_id = memory_id;
  revision_no = new_revision;
  project_id = project_id;
  content = edit.content;
  content_hash = edit.content_hash;
  hash_version = edit.hash_version;
  tags = edit.tags;
  is_current = true;
  change_reason = edit.change_reason;
  source = edit.source;
  author_client = edit.author_client;
  author_kind = edit.author_kind;
  created_at = now;
}

unfoldable pub append_revision : ℕ → ℕ → ℕ → Edit → Option ℕ → Tx (Option ℕ)
append_revision project_id memory_id expected edit none = pure none
append_revision project_id memory_id expected edit (some new_revision) = do
  demote memory_id expected
  now ← gets (λ db. db.now)
  insert_revision (next_revision project_id memory_id new_revision edit now)
  pure (some new_revision)

unfoldable pub compare_and_set : ℕ → ℕ → ℕ → Edit → Tx (Option ℕ)
compare_and_set project_id memory_id expected edit = do
  new_revision ← cas_revise project_id memory_id expected
  append_revision project_id memory_id expected edit new_revision
