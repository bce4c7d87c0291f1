-- ===== src/Context/Stopwords.antt =====
-- src/memhub/context/builder.py: the words that similarity leaves out.
use mcp_shared_memory_hub.Prelude.{List, [], ◌∷◌, Text}

abbrev pub stopwords : List Text
stopwords =
    (b'a' ∷ [])
    ∷ (b'a' ∷ b'n' ∷ [])
    ∷ (b'a' ∷ b'n' ∷ b'd' ∷ [])
    ∷ (b'a' ∷ b'r' ∷ b'e' ∷ [])
    ∷ (b'a' ∷ b's' ∷ [])
    ∷ (b'a' ∷ b't' ∷ [])
    ∷ (b'b' ∷ b'e' ∷ [])
    ∷ (b'b' ∷ b'y' ∷ [])
    ∷ (b'f' ∷ b'o' ∷ b'r' ∷ [])
    ∷ (b'f' ∷ b'r' ∷ b'o' ∷ b'm' ∷ [])
    ∷ (b'h' ∷ b'a' ∷ b's' ∷ [])
    ∷ (b'h' ∷ b'a' ∷ b'v' ∷ b'e' ∷ [])
    ∷ (b'i' ∷ b'n' ∷ [])
    ∷ (b'i' ∷ b's' ∷ [])
    ∷ (b'i' ∷ b't' ∷ [])
    ∷ (b'i' ∷ b't' ∷ b's' ∷ [])
    ∷ (b'o' ∷ b'f' ∷ [])
    ∷ (b'o' ∷ b'n' ∷ [])
    ∷ (b'o' ∷ b'r' ∷ [])
    ∷ (b't' ∷ b'h' ∷ b'a' ∷ b't' ∷ [])
    ∷ (b't' ∷ b'h' ∷ b'e' ∷ [])
    ∷ (b't' ∷ b'o' ∷ [])
    ∷ (b'w' ∷ b'a' ∷ b's' ∷ [])
    ∷ (b'w' ∷ b'e' ∷ b'r' ∷ b'e' ∷ [])
    ∷ (b'w' ∷ b'i' ∷ b'l' ∷ b'l' ∷ [])
    ∷ (b'w' ∷ b'i' ∷ b't' ∷ b'h' ∷ [])
    ∷ (b't' ∷ b'h' ∷ b'i' ∷ b's' ∷ [])
    ∷ (b't' ∷ b'h' ∷ b'e' ∷ b's' ∷ b'e' ∷ [])
    ∷ (b't' ∷ b'h' ∷ b'o' ∷ b's' ∷ b'e' ∷ [])
    ∷ (b'n' ∷ b'o' ∷ b't' ∷ [])
    ∷ (b'n' ∷ b'o' ∷ [])
    ∷ (b't' ∷ b'h' ∷ b'a' ∷ b'n' ∷ [])
    ∷ (b't' ∷ b'h' ∷ b'e' ∷ b'n' ∷ [])
    ∷ []
