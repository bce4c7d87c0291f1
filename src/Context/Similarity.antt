-- ===== src/Context/Similarity.antt =====
-- src/memhub/context/builder.py: the overlap of two contents in words.
use mcp_shared_memory_hub.Prelude.{
  ℕ, Bool, true, false, not, ◌&&◌, ◌||◌, List, [], ◌∷◌, leb, Text, text_eq, length, any, is_empty,
  select_where, if◌then◌else◌,
}
use mcp_shared_memory_hub.Domain.Unicode.{Platform}
use mcp_shared_memory_hub.Context.Stopwords.{stopwords}
use mcp_shared_memory_hub.Context.Floats.{Floats}

-- [a-z0-9]
abbrev is_word_char : ℕ → Bool
is_word_char c = (leb b'a' c && leb c b'z') || (leb b'0' c && leb c b'9')

-- _WORD.findall: `open` is whether the first word of the result still grows to the left
abbrev add_char : ℕ → Bool → List Text → List Text
add_char c true (w ∷ words) = (c ∷ w) ∷ words
add_char c true [] = (c ∷ []) ∷ []
add_char c false words = (c ∷ []) ∷ words

abbrev starts_word : Text → Bool
starts_word [] = false
starts_word (c ∷ text) = is_word_char c

pub words_of : Text → List Text
words_of [] = []
words_of (c ∷ text) =
    let rest = words_of text in if is_word_char c then add_char c (starts_word text) rest else rest

-- frozenset(_)
abbrev add_word : Text → List Text → List Text
add_word w words = if any (text_eq w) words then words else w ∷ words

abbrev set_of : List Text → List Text
set_of [] = []
set_of (w ∷ words) = add_word w (set_of words)

abbrev union : List Text → List Text → List Text
union [] ys = ys
union (w ∷ words) ys = add_word w (union words ys)

module _ (fl : Floats) (py : Platform) where
  unfoldable pub content_words : Text → List Text
  unfolding words_of
  content_words text =
      set_of (select_where (λ w. not (any (text_eq w) stopwords)) (words_of (py.casefold text)))

  unfoldable pub similarity : Text → Text → fl.F
  unfolding content_words
  similarity left right =
      let a = content_words left in
      let b = content_words right in
      if is_empty a || is_empty b
      then fl.decimal 0 0
      else fl.over (fl.of_nat (length (select_where (λ w. any (text_eq w) b) a)))
          (fl.of_nat (length (union a b)))
