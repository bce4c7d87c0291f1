-- ===== src/Context.antt =====
-- src/memhub/context: a selection of memories that fits a token budget.
pub mod Floats
pub mod Tokens
pub mod Stopwords
pub mod Similarity
pub mod Builder
pub mod Render
pub mod Fill
pub mod Budget
pub mod Diversity
pub mod Choice
pub mod Settled
pub mod Reasons
