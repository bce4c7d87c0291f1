-- ===== src/Domain/Validation.antt =====
-- src/memhub/domain/validation.py. What the functions guarantee is proved in the child modules.
pub mod Bounds
pub mod Tags
use mcp_shared_memory_hub.Prelude.{
  ℕ, ◌+◌, Bool, true, false, ◌||◌, ◌&&◌, Option, none, some, List, [], ◌∷◌, ◌++◌, leb, ltb, ◌==◌,
  not, Text, text_eq, length, any, is_empty, if◌then◌else◌,
}
use mcp_shared_memory_hub.Domain.Enums.{MemoryType}
use mcp_shared_memory_hub.Domain.Errors.{Result, ok, err, validation_failed, ◌>>=◌}
use mcp_shared_memory_hub.Domain.Unicode.{Platform, strip}
use mcp_shared_memory_hub.Domain.Policy.{
  type_policy, max_content_length, max_tags, max_search_limit, default_search_limit,
}

-- A Python int: `negsuc n` is -(n + 1).
pub data ℤ : Type 0 where
  pos : ℕ → ℤ
  negsuc : ℕ → ℤ

-- a `datetime`: an instant in microseconds, and whether it carries an offset (`tzinfo`)
pub record Datetime : Type 0 where
  pub instant : ℕ
  pub has_offset : Bool

-- [a-z0-9]
abbrev is_alnum : ℕ → Bool
is_alnum c = (leb b'a' c && leb c b'z') || (leb b'0' c && leb c b'9')

abbrev all_chars : (ℕ → Bool) → Text → Bool
all_chars p [] = true
all_chars p (c ∷ s) = p c && all_chars p s

-- `$` also matches before one newline at the end.
abbrev pub drop_final_newline : Text → Text
drop_final_newline [] = []
drop_final_newline (c ∷ []) = if c == 10 then [] else c ∷ []
drop_final_newline (c ∷ d ∷ s) = c ∷ drop_final_newline (d ∷ s)

abbrev ends_in_alnum : Text → Bool
ends_in_alnum [] = false
ends_in_alnum (c ∷ []) = is_alnum c
ends_in_alnum (c ∷ d ∷ s) = ends_in_alnum (d ∷ s)

abbrev starts_in_alnum : Text → Bool
starts_in_alnum [] = false
starts_in_alnum (c ∷ s) = is_alnum c

-- [a-z0-9._-]
abbrev is_slug_char : ℕ → Bool
is_slug_char c = is_alnum c || c == b'.' || c == b'_' || c == b'-'

-- _SLUG_RE = ^[a-z0-9][a-z0-9._-]{0,62}[a-z0-9]$
unfoldable pub slug_re : Text → Bool
slug_re value =
    let body = drop_final_newline value in
    leb 2 (length body)
    && leb (length body) 64
    && starts_in_alnum body
    && ends_in_alnum body
    && all_chars is_slug_char body

-- _TAG_RE = ^[a-z0-9][a-z0-9._/-]{0,31}$
unfoldable pub tag_re : Text → Bool
tag_re value =
    let body = drop_final_newline value in
    leb (length body) 32
    && starts_in_alnum body
    && all_chars (λ c. is_slug_char c || c == b'/') body

unfoldable pub validate_content : Text → Result Text
validate_content content =
    let stripped = strip content in
    if is_empty stripped
    then err validation_failed
    else if ltb max_content_length (length stripped)
    then err validation_failed
    else ok stripped

unfoldable pub validate_importance : Option ℤ → MemoryType → Result ℕ
validate_importance none memory_type = ok (type_policy memory_type).base_importance
validate_importance (some (pos n)) memory_type = if leb n 100 then ok n else err validation_failed
validate_importance (some (negsuc n)) memory_type = err validation_failed

within_ttl : Option ℕ → ℕ → ℕ → Result (Option ℕ)
within_ttl none instant now = ok (some instant)
within_ttl (some max_ttl) instant now =
    if ltb (now + max_ttl) instant then err validation_failed else ok (some instant)

default_expiry : Option ℕ → ℕ → Option ℕ
default_expiry none now = none
default_expiry (some ttl) now = some (now + ttl)

unfoldable pub resolve_expiry : Option Datetime → MemoryType → ℕ → Result (Option ℕ)
unfolding within_ttl default_expiry
resolve_expiry none memory_type now = ok (default_expiry (type_policy memory_type).default_ttl now)
resolve_expiry (some expires_at) memory_type now =
    if not expires_at.has_offset
    then err validation_failed
    else if leb expires_at.instant now
    then err validation_failed
    else within_ttl (type_policy memory_type).max_ttl expires_at.instant now

unfoldable pub validate_limit : Option ℤ → Result ℕ
validate_limit none = ok default_search_limit
validate_limit (some (negsuc n)) = err validation_failed
validate_limit (some (pos n)) =
    if ltb n 1
    then err validation_failed
    else if ltb max_search_limit n
    then err validation_failed
    else ok n

-- seen[value] = None
abbrev pub remember_tag : Text → List Text → List Text
remember_tag value seen = if any (text_eq value) seen then seen else seen ++ value ∷ []

abbrev bounded_tags : List Text → Result (List Text)
bounded_tags seen = if ltb max_tags (length seen) then err validation_failed else ok seen

module _ (py : Platform) where
  -- raw.strip().casefold()
  abbrev pub clean : Text → Text
  clean raw = py.casefold (strip raw)

  unfoldable pub validate_slug : Text → Result Text
  unfolding slug_re
  validate_slug slug =
      let value = clean slug in if slug_re value then ok value else err validation_failed

  -- the loop of `validate_tags`
  unfoldable pub collect_tags : List Text → List Text → Result (List Text)
  collect_tags seen [] = ok seen
  collect_tags seen (raw ∷ tags) =
      let value = clean raw in
      let skipped = collect_tags seen tags in
      let noted = collect_tags (remember_tag value seen) tags in
      if is_empty value then skipped else if tag_re value then noted else err validation_failed

  -- `None` and the empty list are both falsy.
  unfoldable pub validate_tags : List Text → Result (List Text)
  unfolding collect_tags
  validate_tags tags = collect_tags [] tags >>= bounded_tags
