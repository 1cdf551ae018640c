-- ===== src/Search.antt =====
-- The search engine: search-engine/src/pgs_search.
pub mod Fusion
pub mod Candidates
pub mod Hits
pub mod Rerank
pub mod Pipeline
pub mod Indexer
mod Tests
