-- ===== src/Domain/GitRemote.antt =====
-- src/memhub/domain/normalize.py: `normalize_git_remote`. Its regular expressions are written out:
-- no class of theirs contains the character that must follow it, so each has one way to match.
use mcp_shared_memory_hub.Prelude.{
  ℕ, Bool, false, not, ◌&&◌, ◌||◌, Option, none, some, [], ◌∷◌, ◌++◌, leb, ◌==◌, Text, any,
  is_empty, if◌then◌else◌,
}
use mcp_shared_memory_hub.Domain.Unicode.{Platform, strip, lstrip_by, rstrip_by}

-- the longest prefix whose characters pass, and the rest
abbrev on_head : ℕ → Text × Text → Text × Text
on_head c (run, rest) = (c ∷ run, rest)

unfoldable pub span : (ℕ → Bool) → Text → Text × Text
span p [] = ([], [])
span p (c ∷ s) = let split = span p s in if p c then on_head c split else ([], c ∷ s)

abbrev is_letter : ℕ → Bool
is_letter c = (leb b'a' c && leb c b'z') || (leb b'A' c && leb c b'Z')

-- [a-zA-Z0-9+.-]
abbrev is_scheme_char : ℕ → Bool
is_scheme_char c = is_letter c || (leb b'0' c && leb c b'9') || c == b'+' || c == b'.' || c == b'-'

-- "//" in value
abbrev has_double_slash : Text → Bool
has_double_slash [] = false
has_double_slash (c ∷ []) = false
has_double_slash (c ∷ d ∷ s) = (c == b'/' && d == b'/') || has_double_slash (d ∷ s)

abbrev after_at : Text → Text × Text → Text
after_at whole ([], rest) = whole
after_at whole (c ∷ user, []) = whole
after_at whole (c ∷ user, d ∷ rest) = if d == b'@' then rest else whole

-- re.sub(r"^[^@/]+@", "", value)
unfoldable pub drop_user : Text → Text
unfolding span
drop_user value = after_at value (span (λ c. not (c == b'@' || c == b'/')) value)

abbrev starts_slashes : Text → Option Text
starts_slashes (c ∷ d ∷ e ∷ rest) = if c == b':' && d == b'/' && e == b'/' then some rest else none
starts_slashes _ = none

abbrev or_whole : Text → Option Text → Text
or_whole whole none = whole
or_whole whole (some rest) = rest

abbrev starts_in_letter : Text → Bool
starts_in_letter [] = false
starts_in_letter (c ∷ s) = is_letter c

-- re.sub(r"^[a-zA-Z][a-zA-Z0-9+.-]*://", "", value)
unfoldable pub drop_scheme : Text → Text
unfolding span
drop_scheme value =
    if starts_in_letter value
    then or_whole value (starts_slashes (span is_scheme_char value).1)
    else value

abbrev host_and_path : Text × Text → Option (Text × Text)
host_and_path (host, []) = none
host_and_path (host, c ∷ path) =
    if not (is_empty host) && c == b':' && not (is_empty path) && not (any (λ d. d == 10) path)
    then some (host, path)
    else none

-- ([^:/]+):(.+)$
abbrev host_colon_path : (Text → Text × Text) → Text → Option (Text × Text)
host_colon_path cut value = host_and_path (cut value)

abbrev or_else : Option (Text × Text) → Option (Text × Text) → Option (Text × Text)
or_else none other = other
or_else (some x) other = some x

-- The scp-style match. A value without "//" has no "ssh://" either, so the user is all that may stand
-- before the host, and it is left out only if the match fails with it.
unfoldable pub scp_match : Text → Option (Text × Text)
unfolding span drop_user
scp_match value =
    let cut : Text → Text × Text = span (λ c. not (c == b':' || c == b'/')) in
    if has_double_slash value
    then none
    else or_else (host_colon_path cut (drop_user value)) (host_colon_path cut value)

abbrev without_slash : Text × Text → Text × Text
without_slash (host, []) = (host, [])
without_slash (host, c ∷ path) = (host, path)

-- host, _, path = stripped.partition("/")
unfoldable pub url_parts : Text → Text × Text
unfolding span drop_scheme drop_user
url_parts value = without_slash (span (λ c. not (c == b'/')) (drop_user (drop_scheme value)))

-- re.sub(r"\.git$", "", path)
abbrev drop_git : Text → Text
drop_git [] = []
drop_git (c ∷ path) =
    let rest = drop_git path in
    if is_git (c ∷ path) then [] else if is_git_line (c ∷ path) then 10 ∷ [] else c ∷ rest
  where
    is_git : Text → Bool
    is_git (a ∷ b ∷ c ∷ d ∷ []) = a == b'.' && b == b'g' && c == b'i' && d == b't'
    is_git _ = false

    is_git_line : Text → Bool
    is_git_line (a ∷ b ∷ c ∷ d ∷ e ∷ []) =
        a == b'.' && b == b'g' && c == b'i' && d == b't' && e == 10
    is_git_line _ = false

abbrev parts_or : Text × Text → Option (Text × Text) → Text × Text
parts_or parts none = parts
parts_or parts (some scp) = scp

unfoldable pub normalize_git_remote : Platform → Text → Text
unfolding scp_match url_parts
normalize_git_remote py remote =
    let value = strip remote in
    let parts = parts_or (url_parts value) (scp_match value) in
    let path = rstrip_by (λ c. c == b'/') (lstrip_by (λ c. c == b'/') parts.1) in
    py.casefold parts.0 ++ b'/' ∷ drop_git (py.casefold path)
