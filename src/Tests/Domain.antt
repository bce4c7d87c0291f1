-- ===== src/Tests/Domain.antt =====
-- The validation on concrete requests.
use mcp_shared_memory_hub.Prelude.{
  ◌≡◌, ◌≤◌, refl, some, true, List, [], ◌∷◌, Text, text_eq, length, any,
}
use mcp_shared_memory_hub.Domain.Enums.{task}
use mcp_shared_memory_hub.Domain.Errors.{ok}
use mcp_shared_memory_hub.Domain.Unicode.{strip, lstrip_by, rstrip_by}
use mcp_shared_memory_hub.Domain.Validation.{
  Datetime, tag_re, collect_tags, validate_tags, resolve_expiry,
}
use mcp_shared_memory_hub.Domain.Validation.Bounds.{ExpiryFits, resolve_expiry-ExpiryFits}
use mcp_shared_memory_hub.Domain.Validation.Tags.{all_match, distinct, is_asked, validate_tags_lem}
use mcp_shared_memory_hub.Tests.Data.{plain, first_note, other_note}

abbrev asked_tags : List Text
asked_tags = first_note ∷ (b' ' ∷ first_note) ∷ [] ∷ other_note ∷ []

tags_accepted : validate_tags plain asked_tags ≡ ok (first_note ∷ other_note ∷ [])
unfolding text_eq validate_tags collect_tags tag_re strip lstrip_by rstrip_by
tags_accepted = refl

validate_tags_lem_example :
    (all_match (first_note ∷ other_note ∷ []) ≡ true)
    × (distinct (first_note ∷ other_note ∷ []) ≡ true)
    × (length (first_note ∷ other_note ∷ []) ≤ 16)
    × ((u : Text) → any (text_eq u) (first_note ∷ other_note ∷ []) ≡ is_asked plain u asked_tags)
validate_tags_lem_example = validate_tags_lem plain asked_tags tags_accepted

abbrev soon : Datetime
soon = record { instant = 50; has_offset = true }

soon_accepted : resolve_expiry (some soon) task 10 ≡ ok (some 50)
unfolding resolve_expiry
soon_accepted = refl

resolve_expiry-ExpiryFits_example : ExpiryFits task 10 (some 50)
resolve_expiry-ExpiryFits_example = resolve_expiry-ExpiryFits (some soon) task 10 soon_accepted
