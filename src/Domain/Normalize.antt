-- ===== src/Domain/Normalize.antt =====
-- src/memhub/domain/normalize.py: the comparison form of a text, its hash, and the workspace alias.
use mcp_shared_memory_hub.Prelude.{ℕ, Bool, false, ◌||◌, [], ◌∷◌, map, ◌==◌, Text, if◌then◌else◌}
use mcp_shared_memory_hub.Domain.Unicode.{Platform, is_space, rstrip_by, strip}

abbrev pub hash_version : ℕ
hash_version = 1

-- _WHITESPACE.sub(" ", _); the flag says that the character before was a space
unfoldable pub collapse_from : Bool → Text → Text
collapse_from in_run [] = []
collapse_from in_run (c ∷ s) =
    let rest = collapse_from (is_space c) s in
    if is_space c then (if in_run then rest else 32 ∷ rest) else c ∷ rest

-- [.!?,;:\s]
unfoldable pub is_trailing : ℕ → Bool
is_trailing c =
    c == b'.' || c == b'!' || c == b'?' || c == b',' || c == b';' || c == b':' || is_space c

-- the steps after the Unicode tables: collapse, strip, drop the trailing punctuation
unfoldable pub tidy : Text → Text
unfolding collapse_from
tidy s = rstrip_by is_trailing (strip (collapse_from false s))

module _ (py : Platform) where
  unfoldable pub normalize_content : Text → Text
  unfolding tidy
  normalize_content content = tidy (py.casefold (py.nfkc content))

  unfoldable pub content_hash : Text → Text
  content_hash content = py.sha256 (normalize_content content)

  unfoldable pub normalize_workspace_path : Text → Text
  normalize_workspace_path path =
      py.casefold
        (rstrip_by (λ c. c == b'/') (map (λ c. if c == 0x5c then b'/' else c) (strip path)))
