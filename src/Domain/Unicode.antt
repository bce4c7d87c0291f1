-- ===== src/Domain/Unicode.antt =====
-- What domain/normalize.py, domain/validation.py and services/idempotency.py take from Python's
-- standard library: `str.strip` and `str.split`, written out, and as parameters the tables and
-- hashes that stand in no file of the repository.
use mcp_shared_memory_hub.Prelude.{
  ℕ, Bool, ◌||◌, ◌&&◌, [], ◌∷◌, leb, ◌==◌, Text, is_empty, if◌then◌else◌,
}

-- `casefold` is str.casefold, `nfkc` is unicodedata.normalize("NFKC", _), `sha256` is the digest of
-- the UTF-8 bytes of a text, as bytes.
pub record Platform : Type 0 where
  pub casefold : Text → Text
  pub nfkc : Text → Text
  pub sha256 : Text → Text

-- str.isspace of one character
pub is_space : ℕ → Bool
is_space c =
    (leb 9 c && leb c 13)
    || (leb 28 c && leb c 32)
    || c == 0x85
    || c == 0xa0
    || c == 0x1680
    || (leb 0x2000 c && leb c 0x200a)
    || c == 0x2028
    || c == 0x2029
    || c == 0x202f
    || c == 0x205f
    || c == 0x3000

-- str.lstrip and str.rstrip, over any class of characters
unfoldable pub lstrip_by : (ℕ → Bool) → Text → Text
lstrip_by p [] = []
lstrip_by p (c ∷ s) = if p c then lstrip_by p s else c ∷ s

unfoldable pub rstrip_by : (ℕ → Bool) → Text → Text
rstrip_by p [] = []
rstrip_by p (c ∷ s) = let rest = rstrip_by p s in if is_empty rest && p c then [] else c ∷ rest

-- s.strip()
unfoldable pub strip : Text → Text
unfolding is_space
strip s = rstrip_by is_space (lstrip_by is_space s)
