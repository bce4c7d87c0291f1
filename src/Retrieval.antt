-- ===== src/Retrieval.antt =====
-- src/memhub/retrieval/fusion.py: fusion of rankings.
pub mod Fusion
pub mod Semantic
pub mod Exact
