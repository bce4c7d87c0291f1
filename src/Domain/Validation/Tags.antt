-- ===== src/Domain/Validation/Tags.antt =====
-- The tag list that `validate_tags` returns.
use mcp_shared_memory_hub.Prelude.{
  ◌≤◌, ◌≡◌, refl, Bool, true, false, ◌||◌, ◌&&◌, not, List, [], ◌∷◌, ◌++◌, arith, Text, text_eq,
  text_eq_comm, eq_of_text_eq, length, any, is_empty, inl, inr,
}
use mcp_shared_memory_hub.Domain.Errors.{ok, Result-cases}
use mcp_shared_memory_hub.Domain.Unicode.{Platform}
use mcp_shared_memory_hub.Domain.Validation.{
  clean, tag_re, remember_tag, collect_tags, validate_tags,
}

any-append {ℓ} :
    {A : Type ℓ} (p : A → Bool) (xs ys : List A) → any p (xs ++ ys) ≡ (any p xs || any p ys)
any-append p [] ys = refl
any-append p (x ∷ xs) ys = ground (arith, any-append p xs ys)

-- No two of the texts are equal.
abbrev pub distinct : List Text → Bool
distinct [] = true
distinct (t ∷ ts) = not (any (text_eq t) ts) && distinct ts

distinct-snoc :
    (v : Text) (ts : List Text)
    → distinct ts ≡ true
    → any (text_eq v) ts ≡ false
    → distinct (ts ++ v ∷ []) ≡ true
distinct-snoc v [] d h = refl
distinct-snoc v (t ∷ ts) d h =
    ground (arith, distinct-snoc v ts, any-append (text_eq t) ts (v ∷ []), text_eq_comm v t)

abbrev pub all_match : List Text → Bool
all_match [] = true
all_match (t ∷ ts) = tag_re t && all_match ts

module _ (py : Platform) where
  -- `v` is the cleaned form of a tag of the list, and not empty
  abbrev pub is_asked : Text → List Text → Bool
  is_asked v [] = false
  is_asked v (raw ∷ tags) =
      (not (is_empty (clean py raw)) && text_eq v (clean py raw)) || is_asked v tags

  all_match-snoc :
      (v : Text) (ts : List Text)
      → all_match ts ≡ true
      → tag_re v ≡ true
      → all_match (ts ++ v ∷ []) ≡ true
  all_match-snoc v [] d h = ground arith
  all_match-snoc v (t ∷ ts) d h = ground (arith, all_match-snoc v ts)

  remember_tag-distinct :
      (v : Text) (seen : List Text) → distinct seen ≡ true → distinct (remember_tag v seen) ≡ true
  remember_tag-distinct v seen d = ground (arith, distinct-snoc v seen d)

  remember_tag-match :
      (v : Text) (seen : List Text)
      → all_match seen ≡ true
      → tag_re v ≡ true
      → all_match (remember_tag v seen) ≡ true
  remember_tag-match v seen d h = ground (arith, all_match-snoc v seen d h)

  any-remember_tag :
      (u v : Text) (seen : List Text)
      → any (text_eq u) (remember_tag v seen) ≡ (any (text_eq u) seen || text_eq u v)
  any-remember_tag u v seen =
      ground (arith, any-append (text_eq u) seen (v ∷ []), eq_of_text_eq u v)

  collect_tags-distinct :
      (seen tags : List Text) {out : List Text}
      → collect_tags py seen tags ≡ ok out
      → distinct seen ≡ true
      → distinct out ≡ true
  unfolding collect_tags
  collect_tags-distinct seen [] {out} h d = ground arith
  collect_tags-distinct seen (raw ∷ tags) {out} h d = ground (
    arith,
    collect_tags-distinct seen tags {out = out},
    collect_tags-distinct (remember_tag (clean py raw) seen) tags {out = out},
    remember_tag-distinct (clean py raw) seen d,
  )

  collect_tags-match :
      (seen tags : List Text) {out : List Text}
      → collect_tags py seen tags ≡ ok out
      → all_match seen ≡ true
      → all_match out ≡ true
  unfolding collect_tags
  collect_tags-match seen [] {out} h d = ground arith
  collect_tags-match seen (raw ∷ tags) {out} h d = ground (
    arith,
    collect_tags-match seen tags {out = out},
    collect_tags-match (remember_tag (clean py raw) seen) tags {out = out},
    remember_tag-match (clean py raw) seen d,
  )

  any-collect_tags :
      (u : Text) (seen tags : List Text) {out : List Text}
      → collect_tags py seen tags ≡ ok out
      → any (text_eq u) out ≡ (any (text_eq u) seen || is_asked u tags)
  unfolding collect_tags
  any-collect_tags u seen [] {out} h = ground arith
  any-collect_tags u seen (raw ∷ tags) {out} h = ground (
    arith,
    any-collect_tags u seen tags {out = out},
    any-collect_tags u (remember_tag (clean py raw) seen) tags {out = out},
    any-remember_tag u (clean py raw) seen,
  )

  validate_tags-inv :
      (tags : List Text) {out : List Text}
      → validate_tags py tags ≡ ok out
      → (collect_tags py [] tags ≡ ok out) × (length out ≤ 16)
  unfolding validate_tags
  validate_tags-inv tags {out} h = elim (Result-cases (collect_tags py [] tags)) [
    | inl (seen, e) ↦ ground (arith)
    | inr (c, e) ↦ ground arith
  ]

  -- The tags that `validate_tags` returns are all well formed, no two are equal, they are at most
  -- sixteen, and a text is among them exactly when it is the cleaned, non-empty form of one asked.
  pub validate_tags_lem :
      (tags : List Text) {out : List Text}
      → validate_tags py tags ≡ ok out
      → (all_match out ≡ true)
        × (distinct out ≡ true)
        × (length out ≤ 16)
        × ((u : Text) → any (text_eq u) out ≡ is_asked u tags)
  unfolding validate_tags
  validate_tags_lem tags {out} h =
      let collected = validate_tags-inv tags h in
      (
        collect_tags-match [] tags collected.0 refl,
        collect_tags-distinct [] tags collected.0 refl,
        collected.1,
        λ u. any-collect_tags u [] tags collected.0,
      )
