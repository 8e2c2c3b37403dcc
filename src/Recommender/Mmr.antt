-- ===== src/Recommender/Mmr.antt =====
-- crates/recommender/src/mmr.rs: the re-ranking by maximal marginal relevance. Baseline is the order
-- that it starts from, Similarity compares two candidates, Guardrail bounds the share of a mode,
-- Choice picks the next candidate and Rerank is the loop; the other modules are proofs.
pub mod Baseline
pub mod Similarity
pub mod Guardrail
pub mod Choice
pub mod Rerank
pub mod Chosen
pub mod Rounds
pub mod Outcome
pub mod Permutation
pub mod Unique
pub mod Exploration
pub mod Tally
pub mod Share
pub mod ShareKept
pub mod Visible
mod Examples
